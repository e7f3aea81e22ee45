-- ===== src/Contract/Outcome.antt =====
-- crates/ciacola-agent/src/outcome.rs: what a turn cost and used, and how it ended. A duration is
-- its whole milliseconds; the free-form metadata of an outcome, which nothing reads, is left out.
use ciacola.Base.{ℕ, String, Bool, Option, none, some, is_none, unwrap_or}
use ciacola.Contract.Intent.{ResumeId}

pub record TokenUsage : Type 0 where
  pub input : ℕ
  pub output : ℕ
  pub cached_input : ℕ

abbrev pub no_tokens : TokenUsage
no_tokens = record { input = 0; output = 0; cached_input = 0 }

pub data Usage : Type 0 where
  reported : TokenUsage → Usage
  unreported not_tracked : Usage

abbrev pub usage_tokens : Usage → Option TokenUsage
usage_tokens (reported u) = some u
usage_tokens unreported = none
usage_tokens not_tracked = none

pub data Cost : Type 0 where
  reported : ℕ → Cost
  unreported not_priced : Cost

abbrev pub micro_usd : Cost → Option ℕ
micro_usd (Cost.reported n) = some n
micro_usd Cost.unreported = none
micro_usd not_priced = none

abbrev pub micro_usd_or_zero : Cost → ℕ
micro_usd_or_zero c = unwrap_or (micro_usd c) 0

pub data FailureKind : Type 0 where
  limit reported : FailureKind

pub record TurnFailure : Type 0 where
  pub kind : FailureKind
  pub message : String

pub record TurnOutcome : Type 0 where
  pub reply : String
  pub resume : Option ResumeId
  pub cost : Cost
  pub usage : Usage
  pub provider_turns : Option ℕ
  pub elapsed_ms : ℕ
  pub failure : Option TurnFailure

abbrev pub succeeded : TurnOutcome → Bool
succeeded o = is_none o.failure
