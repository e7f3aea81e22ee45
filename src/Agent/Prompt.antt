-- ===== src/Agent/Prompt.antt =====
-- crates/ciacola-core/src/agent.rs: the system prompt, composed of layers.
use Prim.Native.String.{◌++◌}
use ciacola.Base.{ℕ, String, not, Option, none, some, List, [], ◌∷◌, if◌then◌else◌}
use ciacola.Base.Text.{trim, is_empty, join, show}
use ciacola.Agent.Definition.{AgentDef}

-- `SYSTEM_PREAMBLE`
unfoldable pub system_preamble : String
system_preamble =
    "You are running inside an autonomous agent server, not an interactive session. Some "
    ++ "consequences that do not hold elsewhere:\n" ++ "\n"
    ++ "- Nobody is necessarily watching. Your reply may be read minutes or hours from now, or "
    ++ "only by another agent.\n"
    ++ "- You cannot ask a clarifying question and get an answer in this turn. If something is "
    ++ "genuinely ambiguous, do the part that is not, and say plainly what you did not do and "
    ++ "why.\n"
    ++ "- This conversation is not your memory. Your durable state lives in the server: work "
    ++ "items, server memory, and findings. Your provider session may be closed and reopened at "
    ++ "any point, and when that happens you will be told so.\n"
    ++ "- Report honestly. An overstated result is worse than a partial one, because nobody is "
    ++ "here to catch it."

unfoldable pub tool_line : AgentDef → String
unfolding join
tool_line def =
    if def.inherit_provider_tools
    then "Your tool and command policy is the provider-native policy selected for this agent."
    else elim def.allowed_tools [
      | [] ↦
          "You have NO tools: no file access, no shell, no network. You "
          ++ "can only reason and reply. If a task needs any of those, say "
          ++ "so and stop rather than guessing at what you would have found."
      | _ ↦ "Your tools, and you have no others: " ++ (join ", " def.allowed_tools ++ ".")
    ]

unfoldable pub dir_line : Option String → String
dir_line (some dir) = "You work in " ++ (dir ++ ".")
dir_line none = "You have no working directory."

unfoldable pub turn_lines : Option ℕ → List String
unfolding show
turn_lines none = []
turn_lines (some turns) =
    ("You have at most "
      ++ (show turns
          ++ (" internal turns for this reply; spend "
              ++ "them on the task rather than on preamble.")))
    ∷ []

unfoldable pub capability_block : AgentDef → String
unfolding join tool_line dir_line turn_lines
capability_block def = join "\n" (
    ("You are '" ++ (def.name ++ "'."))
    ∷ tool_line def
    ∷ dir_line def.working_dir
    ∷ turn_lines def.max_turns)

unfoldable pub house_part : Option String → List String → List String
unfolding trim
house_part none parts = parts
house_part (some rules) parts =
    if not (is_empty (trim rules)) then ("## House rules\n\n" ++ trim rules) ∷ parts else parts

unfoldable pub compose_system_prompt : AgentDef → String
unfolding system_preamble house_part capability_block trim join
compose_system_prompt def = join "\n\n" (
    system_preamble
    ∷ house_part def.house_rules (
        ("## You\n\n" ++ capability_block def)
        ∷ ("## Your role\n\n" ++ trim def.system_prompt)
        ∷ []))
