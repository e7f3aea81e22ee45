-- ===== src/Admission/Admit.antt =====
-- crates/ciacola-core/src/admission.rs: `admit_turn`, the decision and the queued row under one
-- writer lock. The clock is an argument; the sentences for the operator are left out.
pub mod Fence
pub mod Stops
pub mod Effect
pub mod Execution
use ciacola.Base.{
  ℕ, String, ◌==◌, Bool, true, false, not, ◌&&◌, ◌||◌, Option, none, some, List, if◌then◌else◌, leb,
  eqb, unwrap_or, Result, ok, err, ◌>>=◌, ◌>>◌, refuse_if, ok_or,
}
use ciacola.Base.Text.{trim, is_empty}
use ciacola.Base.Table.{find_where, count_where}
use ciacola.Contract.Intent.{CeilingCapability}
use ciacola.Contract.Registry
use ciacola.Contract.Registry.{Registry, Provider}
use ciacola.Ledger.Rows.{Agent, Ledger}
use ciacola.Ledger.Turns.{get_agent, flies_for, guarded_insert}
use ciacola.Limits.Config.{Limits, provider_limits}
use ciacola.Limits.Accounting.{
  AdmissionState, warning, stopped, GlobalAdmissionStatus, ProviderAdmissionStatus, AdmissionReport,
  total_tokens, usage_gaps,
}
use ciacola.Limits.Protection.{
  AdmissionOverride, AdmissionOverrideKind, TurnProtectionOverride, TurnProtectionSnapshot,
  unbounded_snapshot, enforced_snapshot, override_snapshot, as_str,
}
use ciacola.Admission.Report.{
  AdmissionError, no_agent, retired_agent, unknown_provider, missing_status,
  empty_protection_reason, empty_override_reason, stopped_without_threshold, admission_report_at,
}

pub data AdmissionAuthority : Type 0 where
  automatic : AdmissionAuthority
  supervised : String → AdmissionAuthority

-- What an admission found and froze.
pub record Plan : Type 0 where
  pub provider : String
  pub status : ProviderAdmissionStatus
  pub global : GlobalAdmissionStatus
  pub admission_override : Option AdmissionOverride
  pub turn_protection : TurnProtectionSnapshot
  pub turn_protection_override : Option TurnProtectionOverride

pub data AdmissionDecision : Type 0 where
  admitted : ℕ → Plan → AdmissionDecision
  busy : AdmissionDecision
  over_budget : ℕ → ℕ → AdmissionDecision
  over_tokens : String → ℕ → ℕ → AdmissionDecision
  unobservable unguarded : String → Option String → AdmissionDecision
  protection_unavailable : String → ℕ → AdmissionDecision

-- An early return: an error, or a decision that is not to admit.
pub data Refusal : Type 0 where
  failed : AdmissionError → Refusal
  declined : AdmissionDecision → Refusal

abbrev or_fail : {A : Type 0} → Result AdmissionError A → Result Refusal A
or_fail (ok a) = ok a
or_fail (err e) = err (failed e)

unfoldable pub check_budget : Option ℕ → ℕ → Result Refusal Unit
check_budget none spend = ok tt
check_budget (some stop) spend = refuse_if (leb stop spend) (declined (over_budget spend stop))

unfoldable pub check_tokens : String → Option ℕ → ℕ → Result Refusal Unit
check_tokens provider none used = ok tt
check_tokens provider (some stop) used =
    refuse_if (leb stop used) (declined (over_tokens provider used stop))

abbrev pub Frozen : Type 0
Frozen = TurnProtectionSnapshot × Option TurnProtectionOverride

-- `match (configured_ceiling, ceiling_capability)`
unfoldable pub freeze_protection :
    AdmissionAuthority
    → String
    → String
    → ℕ
    → Option ℕ
    → Option CeilingCapability
    → Result Refusal Frozen
freeze_protection authority provider source now none capability =
    ok (unbounded_snapshot provider, none)
freeze_protection authority provider source now (some limit) (some capability) =
    ok (enforced_snapshot provider limit capability, none)
freeze_protection automatic provider source now (some limit) none =
    err (declined (protection_unavailable provider limit))
freeze_protection (supervised reason) provider source now (some limit) none =
    let audit : TurnProtectionOverride = record {
      reason = trim reason;
      source = source;
      checked_unix = now;
    } in
    do
      refuse_if (is_empty (trim reason)) (failed empty_protection_reason)
      ok (override_snapshot provider limit audit, some audit)

-- what a supervised override records
unfoldable pub override_audit :
    AdmissionOverrideKind
    → String
    → String
    → String
    → ℕ
    → GlobalAdmissionStatus
    → ProviderAdmissionStatus
    → AdmissionOverride
override_audit kind reason source provider now global status = record {
  kind = kind;
  reason = reason;
  source = source;
  provider = provider;
  checked_unix = now;
  reported_spend_micro_usd = global.reported_spend_micro_usd;
  daily_stop_micro_usd = global.daily_stop_micro_usd;
  reported_tokens = total_tokens status.accounting;
  daily_stop_tokens = status.daily_stop_tokens;
  cost_gaps = global.cost_gaps;
  usage_gaps = usage_gaps status.accounting;
}

-- the branch of an overrideable state: `kind` is `AdmissionOverrideKind::from_state` of it
unfoldable pub override_for :
    AdmissionAuthority
    → AdmissionOverrideKind
    → String
    → String
    → ℕ
    → GlobalAdmissionStatus
    → ProviderAdmissionStatus
    → Result Refusal (Option AdmissionOverride)
unfolding override_audit
override_for automatic AdmissionOverrideKind.unobservable provider source now global status =
    err (declined (AdmissionDecision.unobservable provider status.detail))
override_for automatic AdmissionOverrideKind.unguarded provider source now global status =
    err (declined (AdmissionDecision.unguarded provider status.detail))
override_for (supervised reason) kind provider source now global status = do
  refuse_if (is_empty (trim reason)) (failed empty_override_reason)
  ok (some (override_audit kind (trim reason) source provider now global status))

-- `match status.state`
unfoldable pub resolve_override :
    AdmissionState
    → AdmissionAuthority
    → String
    → String
    → ℕ
    → GlobalAdmissionStatus
    → ProviderAdmissionStatus
    → Result Refusal (Option AdmissionOverride)
unfolding override_for
resolve_override AdmissionState.unobservable authority provider source now global status =
    override_for authority AdmissionOverrideKind.unobservable provider source now global status
resolve_override AdmissionState.unguarded authority provider source now global status =
    override_for authority AdmissionOverrideKind.unguarded provider source now global status
resolve_override stopped authority provider source now global status =
    err (failed stopped_without_threshold)
resolve_override AdmissionState.ok authority provider source now global status = ok none
resolve_override warning authority provider source now global status = ok none

-- from the report to the row that is to be written
unfoldable pub plan :
    AdmissionReport
    → Limits
    → AdmissionAuthority
    → String
    → Option CeilingCapability
    → String
    → ℕ
    → Result Refusal Plan
unfolding check_budget check_tokens freeze_protection resolve_override
plan report limits authority provider capability source now = do
  status ←
      ok_or
        (find_where (λ (s : ProviderAdmissionStatus). s.accounting.provider == provider)
          report.providers)
        (failed (missing_status provider))
  check_budget report.global.daily_stop_micro_usd report.global.reported_spend_micro_usd
  check_tokens provider status.daily_stop_tokens (total_tokens status.accounting)
  (protection, protection_override) ←
      freeze_protection authority provider source now
        (provider_limits limits provider).per_turn_ceiling capability
  admission_override ←
      resolve_override status.state authority provider source now report.global status
  ok (record {
    provider = provider;
    status = status;
    global = report.global;
    admission_override = admission_override;
    turn_protection = protection;
    turn_protection_override = protection_override;
  })

unfoldable pub selected : Registry → String → Result Refusal Provider
selected registry key = elim (Registry.get registry key) [
  | ok p ↦ ok p
  | err _ ↦ err (failed (unknown_provider key))
]

-- the decision, before the row is written
unfoldable pub decide :
    Ledger → Limits → AdmissionAuthority → String → String → ℕ → Result Refusal Plan
unfolding selected plan
decide l limits authority agent_id source now = do
  agent ← ok_or (get_agent l agent_id) (failed (no_agent agent_id))
  refuse_if agent.retired (failed (retired_agent agent_id))
  refuse_if (not (eqb (count_where (flies_for agent_id) l.turns) 0)) (declined busy)
  provider ← selected l.providers agent.def.provider
  report ← or_fail (admission_report_at l limits now)
  plan report limits authority agent.def.provider provider.capabilities.turn_ceiling source now

abbrev pub outcome : Refusal → Result AdmissionError AdmissionDecision
outcome (failed e) = err e
outcome (declined d) = ok d

abbrev pub decision_of : Option ℕ → Plan → AdmissionDecision
decision_of none p = busy
decision_of (some seq) p = admitted seq p

-- the end of the transaction: the queued row, or a rollback
unfoldable pub finish :
    Ledger
    → String
    → String
    → ℕ
    → Result Refusal Plan
    → Ledger × Result AdmissionError AdmissionDecision
finish l agent_id prompt now (err refusal) = (l, outcome refusal)
finish l agent_id prompt now (ok p) =
    let (l', seq) =
      guarded_insert l agent_id prompt now p.provider p.admission_override
        (as_str p.turn_protection.state) p.turn_protection in
    (l', ok (decision_of seq p))

-- `admit_turn`
unfoldable pub admit_turn :
    Ledger
    → Limits
    → AdmissionAuthority
    → String
    → String
    → String
    → ℕ
    → Ledger × Result AdmissionError AdmissionDecision
unfolding decide finish
admit_turn l limits authority agent_id prompt source now =
    finish l agent_id prompt now (decide l limits authority agent_id source now)
