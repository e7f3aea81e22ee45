-- ===== src/Agent/Intent.antt =====
-- crates/ciacola-core/src/agent.rs: what a definition and one thing to say ask of a provider. The
-- variable `HOME` is an argument.
use Prim.Native.String.{◌++◌}
use ciacola.Base.{String, Bool, true, false, not, Option, none, some, if◌then◌else◌, unwrap_or}
use ciacola.Base.Text.{strip_prefix}
use ciacola.Contract.Intent.{
  ResumeId, client_assigned, provider_assigned, is_open, Effort, parse_effort, Isolation,
  parse_isolation, Sandbox, read_only, parse_sandbox, McpScope, TurnIntent, new,
}
use ciacola.Agent.Definition.{AgentDef}
use ciacola.Agent.Prompt.{compose_system_prompt}

unfoldable pub expand_home_path : Option String → String → String
unfolding strip_prefix
expand_home_path home path = elim (strip_prefix "~/" path) [
  | none ↦ path
  | some rest ↦ elim home [ none ↦ path | some h ↦ h ++ ("/" ++ rest) ]
]

-- the three session cases
abbrev pub resume_of : Option String → Bool → Option ResumeId
resume_of none started = none
resume_of (some id) true = some (provider_assigned id)
resume_of (some id) false = some (client_assigned id)

-- an open conversation has its instructions
abbrev pub instructions_of : Option ResumeId → String → Option String
instructions_of none prompt = some prompt
instructions_of (some id) prompt = if is_open id then none else some prompt

-- a value that does not parse is ignored
abbrev pub effort_of : Option String → Option Effort
effort_of none = none
effort_of (some text) = parse_effort text

-- a value that does not parse falls back to the narrowest
abbrev pub sandbox_of : Option String → Sandbox → Sandbox
sandbox_of none default = default
sandbox_of (some text) default = unwrap_or (parse_sandbox text) read_only

abbrev pub isolation_of : Option String → Isolation → Isolation
isolation_of none default = default
isolation_of (some text) default = unwrap_or (parse_isolation text) default

abbrev expanded : Option String → Option String → Option String
expanded home none = none
expanded home (some path) = some (expand_home_path home path)

unfoldable pub intent_for :
    Option String → AgentDef → Option McpScope → Option String → Bool → String → TurnIntent
unfolding compose_system_prompt expand_home_path new
intent_for home def mcp session started text =
    let intent = new text in
    let resume = resume_of session started in
    record intent {
      resume = resume;
      instructions = instructions_of resume (compose_system_prompt def);
      model = def.model;
      effort = effort_of def.effort;
      working_dir = def.working_dir;
      allowed_tools = if not def.inherit_provider_tools then some def.allowed_tools else none;
      sandbox = sandbox_of def.sandbox intent.sandbox;
      max_provider_turns = def.max_turns;
      mcp = mcp;
      isolation = isolation_of def.hermetic intent.isolation;
      config_home = expanded home def.config_home;
      token_env = def.token_env;
    }
