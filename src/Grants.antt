-- ===== src/Grants.antt =====
-- crates/ciacola-core/src/identity.rs: the ceiling on the tools of a child agent.
pub mod Ceiling
mod Prefixes
mod Covers
pub mod Chain
mod Tests
use Prim.Native.Char.{code}
use ciacola.Base.{
  String, ◌==◌, Bool, true, false, not, ◌&&◌, ◌||◌, Option, none, some, List, [], ◌∷◌,
  if◌then◌else◌, eqb, Result, ok, err,
}
unfoldable pub use ciacola.Base.Text.{strip_prefix}
use ciacola.Recovery.Orphans.{starts_with, contains_text}
use ciacola.Ledger.Rows.{Agent, Ledger}
use ciacola.Ledger.Turns.{get_agent}

pub record ChildToolGrant : Type 0 where
  pub granted : List String
  pub denied : List String

-- `str::strip_suffix`, of a suffix that is not empty
unfoldable pub strip_suffix : String → String → Option String
strip_suffix suffix String.[] = none
strip_suffix suffix (String.◌∷◌ c s) =
    let rest = strip_suffix suffix s in
    if String.◌∷◌ c s == suffix
    then some String.[]
    else elim rest [ none ↦ none | some r ↦ some (String.◌∷◌ c r) ]

-- `requested.strip_prefix(prefix).is_some_and(|rest| …)`
unfoldable pub rest_is : (String → Bool) → String → String → Bool
unfolding strip_prefix
rest_is q prefix requested = elim (strip_prefix prefix requested) [
  | none ↦ false
  | some rest ↦ q rest
]

unfoldable pub tool_covers : String → String → Bool
unfolding strip_suffix rest_is starts_with contains_text
tool_covers parent requested =
    if parent == requested then true else elim (strip_suffix ":*)" parent) [
      | some prefix ↦
          rest_is (λ rest. starts_with " " rest || starts_with ":" rest) prefix requested
      | none ↦
          (not (contains_text "(" parent) && rest_is (starts_with "(") parent requested)
          || (starts_with "mcp__" parent && rest_is (starts_with "__") parent requested)
    ]

-- whether one of the tools that are held covers the one requested
unfoldable pub held : List String → String → Bool
unfolding tool_covers
held [] tool = false
held (t ∷ ts) tool = tool_covers t tool || held ts tool

-- `partition`
unfoldable pub partition : (String → Bool) → List String → ChildToolGrant
partition p [] = record { granted = []; denied = [] }
partition p (t ∷ ts) =
    let rest = partition p ts in
    if p t
    then record { granted = t ∷ rest.granted; denied = rest.denied }
    else record { granted = rest.granted; denied = t ∷ rest.denied }

unfoldable pub grant_child_tools_from_parent : Option Agent → List String → ChildToolGrant
unfolding partition held
grant_child_tools_from_parent none requested = record { granted = requested; denied = [] }
grant_child_tools_from_parent (some parent) requested =
    partition (held parent.def.allowed_tools) requested

pub data CallerError : Type 0 where
  caller_not_found : String → CallerError

unfoldable pub grant_child_tools :
    Ledger → Option String → List String → Result CallerError ChildToolGrant
unfolding grant_child_tools_from_parent get_agent
grant_child_tools l none requested = ok (grant_child_tools_from_parent none requested)
grant_child_tools l (some parent_id) requested = elim (get_agent l parent_id) [
  | none ↦ err (caller_not_found parent_id)
  | some parent ↦ ok (grant_child_tools_from_parent (some parent) requested)
]
