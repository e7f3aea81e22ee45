-- ===== src/Contract/Failure.antt =====
-- crates/ciacola-agent/src/error.rs: a turn that did not run to a usable result, and what it still
-- knows of its spend and its conversation.
use ciacola.Base.{ℕ, String, Option, none, some, List}
use ciacola.Contract.Intent.{ResumeId}
use ciacola.Contract.Outcome.{Cost, TokenUsage}
use ciacola.Contract.Capability.{Constraint}

pub record PartialTelemetry : Type 0 where
  pub resume : Option ResumeId
  pub cost : Option Cost
  pub usage : Option TokenUsage
  pub elapsed_ms : Option ℕ

pub data AgentError : Type 0 where
  unknown_provider : String → List String → AgentError
  not_found : String → String → AgentError
  launch : String → String → AgentError
  protocol : String → String → PartialTelemetry → AgentError
  timeout : String → ℕ → PartialTelemetry → AgentError
  cancelled : String → PartialTelemetry → AgentError
  unsupported : String → Constraint → AgentError
  io : String → AgentError
  other : String → String → PartialTelemetry → AgentError

-- `AgentError::partial`
unfoldable pub partial : AgentError → Option PartialTelemetry
partial (protocol _ _ p) = some p
partial (timeout _ _ p) = some p
partial (cancelled _ p) = some p
partial (other _ _ p) = some p
partial (unknown_provider _ _) = none
partial (not_found _ _) = none
partial (launch _ _) = none
partial (unsupported _ _) = none
partial (io _) = none
