-- ===== src/Agent/Exchange.antt =====
-- crates/ciacola-core/src/agent.rs: what one exchange leaves to record, also when it failed.
use ciacola.Base.{
  ℕ, String, Bool, true, false, Option, none, some, if◌then◌else◌, unwrap_or, is_some,
}
use ciacola.Contract.Intent.{ResumeId, value}
use ciacola.Contract.Outcome.{
  TokenUsage, no_tokens, Usage, usage_tokens, Cost, micro_usd_or_zero, FailureKind, TurnFailure,
  TurnOutcome,
}
use ciacola.Contract.Capability.{Capabilities}
use ciacola.Contract.Failure.{AgentError, partial}

pub record Exchange : Type 0 where
  pub reply : String
  pub session : Option String
  pub cost : Cost
  pub cost_complete : Bool
  pub usage : Usage
  pub usage_complete : Bool
  pub provider_turns : Option ℕ
  pub elapsed_ms : ℕ
  pub error : Option String
  pub failure_kind : Option FailureKind

-- `Exchange::cost_micro_usd`
abbrev pub exchange_cost : Exchange → ℕ
exchange_cost x = micro_usd_or_zero x.cost

-- `Exchange::tokens`
abbrev pub exchange_tokens : Exchange → TokenUsage
exchange_tokens x = unwrap_or (usage_tokens x.usage) no_tokens

abbrev is_reported_cost : Cost → Bool
is_reported_cost (Cost.reported n) = true
is_reported_cost Cost.unreported = false
is_reported_cost Cost.not_priced = false

abbrev session_of : Option ResumeId → Option String
session_of none = none
session_of (some r) = some (value r)

abbrev failure_text : Option TurnFailure → Option String
failure_text none = none
failure_text (some f) = some f.message

abbrev kind_of : Option TurnFailure → Option FailureKind
kind_of none = none
kind_of (some f) = some f.kind

-- `exchange_from`; what it logs is left out
unfoldable pub exchange_from : TurnOutcome → Exchange
exchange_from o = record {
  reply = o.reply;
  session = session_of o.resume;
  cost = o.cost;
  cost_complete = is_reported_cost o.cost;
  usage = o.usage;
  usage_complete = is_some (usage_tokens o.usage);
  provider_turns = o.provider_turns;
  elapsed_ms = o.elapsed_ms;
  error = failure_text o.failure;
  failure_kind = kind_of o.failure;
}

abbrev usage_or : Option TokenUsage → Usage → Usage
usage_or none d = d
usage_or (some u) d = Usage.reported u

-- `partial_exchange`: `text` is how the error displays
unfoldable pub partial_exchange : AgentError → String → Capabilities → ℕ → Option Exchange
partial_exchange error text capabilities measured_elapsed = elim (partial error) [
  | none ↦ none
  | some p ↦ some (record {
    reply = "";
    session = session_of p.resume;
    cost =
        unwrap_or p.cost (if capabilities.reports_cost then Cost.unreported else Cost.not_priced);
    cost_complete = false;
    usage =
        usage_or p.usage
          (if capabilities.reports_token_usage then Usage.unreported else Usage.not_tracked);
    usage_complete = false;
    provider_turns = none;
    elapsed_ms = unwrap_or p.elapsed_ms measured_elapsed;
    error = some text;
    failure_kind = some FailureKind.reported;
  })
]
