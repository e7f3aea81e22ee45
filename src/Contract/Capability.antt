-- ===== src/Contract/Capability.antt =====
-- crates/ciacola-agent/src/capability.rs: what a provider cannot do, checked before a turn runs.
-- The sentence for the operator that goes with each refusal is left out.
pub mod Fence
use ciacola.Base.{
  ℕ, String, Bool, true, false, not, ◌&&◌, ◌||◌, Option, none, some, List, [], ◌∷◌, ◌++◌, ◌==◌,
  if◌then◌else◌, is_some, is_some_and,
}
use ciacola.Contract.Intent.{
  EnforcementGranularity, exact, provider_response_boundary, CacheTreatment, not_applicable,
  included, excluded, provider_defined_with_excluded_fallback, CeilingCapability, TurnCeiling,
  McpScope, TurnIntent, is_open, is_sealed, is_constrained,
}

abbrev granularity_eq : EnforcementGranularity → EnforcementGranularity → Bool
granularity_eq exact exact = true
granularity_eq provider_response_boundary provider_response_boundary = true
granularity_eq _ _ = false

abbrev cache_eq : CacheTreatment → CacheTreatment → Bool
cache_eq not_applicable not_applicable = true
cache_eq included included = true
cache_eq excluded excluded = true
cache_eq provider_defined_with_excluded_fallback provider_defined_with_excluded_fallback = true
cache_eq _ _ = false

-- the derived `PartialEq` of `CeilingCapability`
unfoldable pub capability_eq : CeilingCapability → CeilingCapability → Bool
capability_eq a b =
    a.meter == b.meter
    && granularity_eq a.granularity b.granularity
    && cache_eq a.cache_treatment b.cache_treatment

pub data Constraint : Type 0 where
  isolation credential_isolation sandbox scoped_mcp strict_mcp allowed_tools : Constraint
  client_assigned_resume max_provider_turns turn_ceiling effort : Constraint

unfoldable pub security : Constraint → Bool
security isolation = true
security credential_isolation = true
security sandbox = true
security scoped_mcp = true
security strict_mcp = true
security allowed_tools = true
security client_assigned_resume = false
security max_provider_turns = false
security turn_ceiling = false
security effort = false

pub data Severity : Type 0 where
  fail warn : Severity

unfoldable pub severity : Constraint → Severity
unfolding security
severity turn_ceiling = fail
severity c = if security c then fail else warn

abbrev pub is_fail : Severity → Bool
is_fail fail = true
is_fail warn = false

pub record Unsupported : Type 0 where
  pub constraint : Constraint
  pub severity : Severity

-- `Validation`, whose one field is the list
abbrev pub Validation : Type 0
Validation = List Unsupported

unfoldable pub blocking : Validation → Option Unsupported
blocking [] = none
blocking (u ∷ us) = let rest = blocking us in if is_fail u.severity then some u else rest

pub record Capabilities : Type 0 where
  pub provider : String
  pub client_assigned_resume : Bool
  pub isolation : Bool
  pub credential_isolation : Bool
  pub sandbox : Bool
  pub scoped_mcp : Bool
  pub strict_mcp : Bool
  pub allowed_tools : Bool
  pub max_provider_turns : Bool
  pub turn_ceiling : Option CeilingCapability
  pub effort : Bool
  pub reports_cost : Bool
  pub reports_token_usage : Bool
  pub reports_provider_turns : Bool

-- the closure `miss` of `validate`
miss : Constraint → Validation
unfolding severity
miss c = record { constraint = c; severity = severity c } ∷ []

miss_if : Bool → Constraint → Validation
unfolding miss
miss_if b c = if b then miss c else []

module _ (caps : Capabilities) (intent : TurnIntent) where
  check_isolation : Validation
  unfolding miss_if
  check_isolation = miss_if (is_sealed intent.isolation && not caps.isolation) isolation

  check_credentials : Validation
  unfolding miss_if
  check_credentials =
      miss_if
        ((is_some intent.config_home || is_some intent.token_env) && not caps.credential_isolation)
        credential_isolation

  check_sandbox : Validation
  unfolding miss_if
  check_sandbox = miss_if (is_constrained intent.sandbox && not caps.sandbox) sandbox

  check_tools : Validation
  unfolding miss_if
  check_tools = miss_if (is_some intent.allowed_tools && not caps.allowed_tools) allowed_tools

  check_resume : Validation
  unfolding miss_if
  check_resume =
      miss_if (is_some_and intent.resume (λ r. not (is_open r) && not caps.client_assigned_resume))
        client_assigned_resume

  check_provider_turns : Validation
  unfolding miss_if
  check_provider_turns =
      miss_if (is_some intent.max_provider_turns && not caps.max_provider_turns) max_provider_turns

  check_effort : Validation
  unfolding miss_if
  check_effort = miss_if (is_some intent.effort && not caps.effort) effort

mcp_findings : Capabilities → Option McpScope → Validation
unfolding miss
mcp_findings caps none = []
mcp_findings caps (some mcp) =
    if not caps.scoped_mcp
    then miss scoped_mcp
    else if mcp.strict && not caps.strict_mcp
    then miss strict_mcp
    else []

check_mcp : Capabilities → TurnIntent → Validation
unfolding mcp_findings
check_mcp caps intent = mcp_findings caps intent.mcp

ceiling_findings : Option CeilingCapability → Option TurnCeiling → Validation
unfolding miss
ceiling_findings available none = []
ceiling_findings none (some requested) = miss turn_ceiling
ceiling_findings (some available) (some requested) =
    if not (capability_eq available requested.capability) then miss turn_ceiling else []

check_ceiling : Capabilities → TurnIntent → Validation
unfolding ceiling_findings
check_ceiling caps intent = ceiling_findings caps.turn_ceiling intent.turn_ceiling

-- `Capabilities::validate`, its checks in declaration order
unfoldable pub validate : Capabilities → TurnIntent → Validation
unfolding check_isolation check_credentials check_sandbox check_mcp check_tools check_resume
    check_provider_turns check_ceiling check_effort capability_eq
validate caps intent =
    check_isolation caps intent
    ++ (check_credentials caps intent
        ++ (check_sandbox caps intent
            ++ (check_mcp caps intent
                ++ (check_tools caps intent
                    ++ (check_resume caps intent
                        ++ (check_provider_turns caps intent
                            ++ (check_ceiling caps intent ++ check_effort caps intent)))))))
