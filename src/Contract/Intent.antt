-- ===== src/Contract/Intent.antt =====
-- crates/ciacola-agent/src/intent.rs, and the ceiling types of capability.rs that an intent holds.
-- A path is the text that it displays as.
use ciacola.Base.{ℕ, String, Bool, true, false, Option, none, some, List, ◌||◌, if◌then◌else◌}
use ciacola.Base.Text.{is_word}

pub data ResumeId : Type 0 where
  client_assigned : String → ResumeId
  provider_assigned : String → ResumeId

abbrev pub value : ResumeId → String
value (client_assigned id) = id
value (provider_assigned id) = id

abbrev pub is_open : ResumeId → Bool
is_open (client_assigned _) = false
is_open (provider_assigned _) = true

pub data Effort : Type 0 where
  low medium high xhigh max_effort : Effort

unfoldable pub parse_effort : String → Option Effort
unfolding is_word
parse_effort text =
    if is_word text "low"
    then some low
    else if is_word text "medium"
    then some medium
    else if is_word text "high"
    then some high
    else if is_word text "xhigh"
    then some xhigh
    else if is_word text "max"
    then some max_effort
    else none

pub data Isolation : Type 0 where
  inherit project full : Isolation

unfoldable pub parse_isolation : String → Option Isolation
unfolding is_word
parse_isolation text =
    if is_word text "full" || is_word text "true"
    then some full
    else if is_word text "project"
    then some project
    else if is_word text "none" || is_word text "false"
    then some inherit
    else none

abbrev pub is_sealed : Isolation → Bool
is_sealed inherit = false
is_sealed project = true
is_sealed full = true

pub data Sandbox : Type 0 where
  unconstrained read_only workspace_write workspace_write_no_network : Sandbox

unfoldable pub parse_sandbox : String → Option Sandbox
unfolding is_word
parse_sandbox text =
    if is_word text "unconstrained" || is_word text "none" || is_word text "false"
    then some unconstrained
    else if is_word text "read-only" || is_word text "read_only"
    then some read_only
    else if is_word text "workspace-write" || is_word text "workspace_write"
    then some workspace_write
    else if is_word text "workspace-write-no-network" || is_word text "workspace_write_no_network"
    then some workspace_write_no_network
    else none

abbrev pub is_constrained : Sandbox → Bool
is_constrained unconstrained = false
is_constrained read_only = true
is_constrained workspace_write = true
is_constrained workspace_write_no_network = true

pub record McpEndpoint : Type 0 where
  pub name : String
  pub url : String
  pub headers : List (String × String)

pub record McpScope : Type 0 where
  pub endpoints : List McpEndpoint
  pub strict : Bool

pub data EnforcementGranularity : Type 0 where
  exact provider_response_boundary : EnforcementGranularity

pub data CacheTreatment : Type 0 where
  not_applicable included excluded provider_defined_with_excluded_fallback : CacheTreatment

pub record CeilingCapability : Type 0 where
  pub meter : String
  pub granularity : EnforcementGranularity
  pub cache_treatment : CacheTreatment

pub record TurnCeiling : Type 0 where
  pub capability : CeilingCapability
  pub limit : ℕ

pub record TurnIntent : Type 0 where
  pub instructions : Option String
  pub prompt : String
  pub model : Option String
  pub effort : Option Effort
  pub working_dir : Option String
  pub allowed_tools : Option (List String)
  pub sandbox : Sandbox
  pub max_provider_turns : Option ℕ
  pub turn_ceiling : Option TurnCeiling
  pub mcp : Option McpScope
  pub isolation : Isolation
  pub config_home : Option String
  pub token_env : Option String
  pub resume : Option ResumeId

-- `TurnIntent::new`
unfoldable pub new : String → TurnIntent
new prompt = record {
  instructions = none;
  prompt = prompt;
  model = none;
  effort = none;
  working_dir = none;
  allowed_tools = none;
  sandbox = unconstrained;
  max_provider_turns = none;
  turn_ceiling = none;
  mcp = none;
  isolation = inherit;
  config_home = none;
  token_env = none;
  resume = none;
}
