-- ===== src/Limits/Accounting.antt =====
-- crates/ciacola-core/src/limits.rs: what the rolling window adds up to, and the reports on it. The
-- window is the constant 86,400 s; its start, which the reports repeat, is left out.
use ciacola.Base.{ℕ, String, Bool, true, false, Option, List, if◌then◌else◌, saturating_add}
use ciacola.Base.OrderedMap
use ciacola.Base.OrderedMap.{OrderedMap}
use ciacola.Contract.Intent.{CeilingCapability}
use mathlib.Core.List.{foldl}

pub record ProviderAccounting : Type 0 where
  pub provider : String
  pub reports_cost : Bool
  pub reports_token_usage : Bool
  pub active_agents : ℕ
  pub tokens_in : ℕ
  pub tokens_out : ℕ
  pub tokens_cached : ℕ
  pub usage_complete_turns : ℕ
  pub usage_incomplete_turns : ℕ
  pub usage_unreported_turns : ℕ
  pub usage_not_tracked_turns : ℕ
  pub usage_legacy_unknown_turns : ℕ
  pub running_partial_turns : ℕ
  pub cost_complete_turns : ℕ
  pub cost_incomplete_turns : ℕ
  pub cost_unreported_turns : ℕ
  pub cost_not_priced_turns : ℕ
  pub cost_legacy_unknown_turns : ℕ

-- `..Default::default()` with the key
unfoldable pub empty_accounting : String → ProviderAccounting
empty_accounting provider = record {
  provider = provider;
  reports_cost = false;
  reports_token_usage = false;
  active_agents = 0;
  tokens_in = 0;
  tokens_out = 0;
  tokens_cached = 0;
  usage_complete_turns = 0;
  usage_incomplete_turns = 0;
  usage_unreported_turns = 0;
  usage_not_tracked_turns = 0;
  usage_legacy_unknown_turns = 0;
  running_partial_turns = 0;
  cost_complete_turns = 0;
  cost_incomplete_turns = 0;
  cost_unreported_turns = 0;
  cost_not_priced_turns = 0;
  cost_legacy_unknown_turns = 0;
}

unfoldable pub total_tokens : ProviderAccounting → ℕ
total_tokens p = saturating_add p.tokens_in p.tokens_out

unfoldable pub usage_gaps : ProviderAccounting → ℕ
usage_gaps p =
    saturating_add
      (saturating_add (saturating_add p.usage_incomplete_turns p.usage_unreported_turns)
        p.usage_not_tracked_turns)
      p.usage_legacy_unknown_turns

-- `ProviderAccounting::cost_gaps`
unfoldable pub provider_cost_gaps : ProviderAccounting → ℕ
provider_cost_gaps p =
    saturating_add
      (saturating_add (saturating_add p.cost_incomplete_turns p.cost_unreported_turns)
        p.cost_legacy_unknown_turns)
      (if p.reports_cost then p.cost_not_priced_turns else 0)

pub record AdmissionAccounting : Type 0 where
  pub checked_unix : ℕ
  pub reported_spend_micro_usd : ℕ
  pub providers : OrderedMap ProviderAccounting

-- `AdmissionAccounting::cost_gaps`
unfoldable pub cost_gaps : AdmissionAccounting → ℕ
cost_gaps a =
    foldl (λ total p. saturating_add total (provider_cost_gaps p)) 0 (OrderedMap.values a.providers)

pub data AdmissionState : Type 0 where
  ok warning stopped unobservable unguarded : AdmissionState

-- `AdmissionState::automatic_allowed`
abbrev pub state_automatic_allowed : AdmissionState → Bool
state_automatic_allowed ok = true
state_automatic_allowed warning = true
state_automatic_allowed stopped = false
state_automatic_allowed unobservable = false
state_automatic_allowed unguarded = false

-- `AdmissionState::supervised_override_allowed`
abbrev pub supervised_override_allowed : AdmissionState → Bool
supervised_override_allowed ok = false
supervised_override_allowed warning = false
supervised_override_allowed stopped = false
supervised_override_allowed unobservable = true
supervised_override_allowed unguarded = true

pub record GlobalAdmissionStatus : Type 0 where
  pub reported_spend_micro_usd : ℕ
  pub daily_warn_micro_usd : Option ℕ
  pub daily_stop_micro_usd : Option ℕ
  pub cost_gaps : ℕ
  pub state : AdmissionState

pub data TurnProtectionStatus : Type 0 where
  enforced unbounded unavailable : TurnProtectionStatus

pub record ProviderAdmissionStatus : Type 0 where
  pub accounting : ProviderAccounting
  pub daily_warn_tokens : Option ℕ
  pub daily_stop_tokens : Option ℕ
  pub per_turn_ceiling : Option ℕ
  pub turn_protection : TurnProtectionStatus
  pub turn_ceiling_capability : Option CeilingCapability
  pub state : AdmissionState
  pub automatic_allowed : Bool
  pub detail : Option String

pub record AdmissionReport : Type 0 where
  pub checked_unix : ℕ
  pub global : GlobalAdmissionStatus
  pub providers : List ProviderAdmissionStatus
