-- ===== src/Admission/Tests.antt =====
-- An admission of the sample agent's next turn, by the scheduler and by a person.
use ciacola.Base.{
  saturated_i64, ℕ, ◌+◌, ◌≡◌, refl, ◌<◌, true, false, none, some, List, [], ◌∷◌, ◌++◌, ok, min,
  u64_max,
}
use ciacola.Base.Text.{trim, is_empty}
use ciacola.Base.Table.{sum_of, find_where, count_where, exists_where, update_where, select_where}
use ciacola.Base.OrderedMap
use ciacola.Contract.Registry
use ciacola.Agent.Definition.{resolve_provider}
use ciacola.Ledger.Agents.{insert_agent, bears_token, normalized_def}
use ciacola.Ledger.Transitions.{claimed, completed, old_terminal_provenance}
use ciacola.Ledger.Rows.{Turn, Agent, Ledger, TurnState}
use ciacola.Ledger.Turns.{
  is_turn, is_agent, flies_for, update_turns, get_agent, last_seq, new_turn, may_insert,
  guarded_insert, claim_turn, complete_turn, roll_up_settled_turn, rolled_up,
}
use ciacola.Ledger.Operations.{Op, create, enqueue, claim, complete, apply, IsValid}
use ciacola.Ledger.History.{run, turn_at}
use ciacola.Ledger.Validity.Kept.{reachable-IsValid, fresh}
use ciacola.Limits.Config.{provider_limits, stop_micro_usd, validate}
use ciacola.Limits.Accounting.{
  total_tokens, AdmissionReport, AdmissionState, ProviderAccounting, ProviderAdmissionStatus,
  TurnProtectionStatus, empty_accounting, cost_gaps, provider_cost_gaps, usage_gaps,
}
use ciacola.Limits.Evaluate.{evaluate}
use ciacola.Limits.Evaluate.Breakers.{MayRun}
use ciacola.Limits.Protection.{
  enforced_snapshot, as_str, enforced, unbounded, validate_for_execution,
}
use ciacola.Admission.Window.{load_window_rows, load_active_agent_counts}
use ciacola.Admission.Report.{admission_report_at, ceiling_of}
use ciacola.Admission.Report.Day.{paid_in_day}
use ciacola.Admission.Report.Spend.{admission_report_at-spend}
use ciacola.Admission.Admit.{automatic, Plan, admitted, decide, admit_turn}
use ciacola.Admission.Admit.Stops.{decide-stops, decide-automatic}
use ciacola.Admission.Admit.Effect.{admit_turn-admitted}
use ciacola.Admission.Admit.Execution.{decide-runs, ceiling_for}
use ciacola.Samples.{runtime, registry, definition, exchange, protection, meter, limits}

abbrev history : List Op
history =
    create definition none "a" "s-0" "t-a"
    ∷ enqueue "a" "one" 10 "claude" none "unbounded" protection
    ∷ claim "a" 1 11000
    ∷ complete "a" 1 exchange 12
    ∷ []

abbrev ledger : Ledger
ledger = run history (fresh runtime none registry)

ledger-IsValid : IsValid ledger
ledger-IsValid = reachable-IsValid runtime none registry history

abbrev counted : ProviderAccounting
counted = record (empty_accounting "claude") {
  reports_cost = true;
  reports_token_usage = true;
  active_agents = 1;
  tokens_in = 100;
  tokens_out = 20;
  tokens_cached = 5;
  usage_complete_turns = 1;
  cost_complete_turns = 1;
}

abbrev status : ProviderAdmissionStatus
status = record {
  accounting = counted;
  daily_warn_tokens = some 5000;
  daily_stop_tokens = some 10000;
  per_turn_ceiling = some 800;
  turn_protection = TurnProtectionStatus.enforced;
  turn_ceiling_capability = some meter;
  state = AdmissionState.ok;
  automatic_allowed = true;
  detail = none;
}

abbrev next : Plan
next = record {
  provider = "claude";
  status = status;
  global = record {
    reported_spend_micro_usd = 2500;
    daily_warn_micro_usd = some 4000000;
    daily_stop_micro_usd = some 5000000;
    cost_gaps = 0;
    state = AdmissionState.ok;
  };
  admission_override = none;
  turn_protection = enforced_snapshot "claude" 800 meter;
  turn_protection_override = none;
}

decided : decide ledger limits automatic "a" "schedule" 100 ≡ ok next
unfolding run apply insert_agent bears_token normalized_def resolve_provider exists_where
    guarded_insert may_insert last_seq new_turn claim_turn update_turns update_where is_turn claimed
    old_terminal_provenance complete_turn completed roll_up_settled_turn rolled_up find_where
    count_where flies_for is_agent saturated_i64 get_agent decide admission_report_at Registry.get
    OrderedMap.lookup OrderedMap.insert OrderedMap.values load_window_rows load_active_agent_counts
    select_where evaluate provider_limits cost_gaps provider_cost_gaps total_tokens usage_gaps
    empty_accounting enforced_snapshot
decided = refl

limits-valid : validate limits ≡ ok tt
unfolding validate
limits-valid = refl

source_given : is_empty (trim "schedule") ≡ false
unfolding trim
source_given = refl

decide-stops_example :
    ((s : ℕ) → stop_micro_usd limits ≡ some s → next.global.reported_spend_micro_usd < s)
    × ((s : ℕ)
        → (provider_limits limits "claude").daily_stop_tokens ≡ some s
        → total_tokens counted < s)
decide-stops_example = decide-stops ledger limits automatic "a" "schedule" 100 next decided

decide-automatic_example :
    MayRun (provider_limits limits "claude") (stop_micro_usd limits) 2500 0 counted
    × ((limit : ℕ)
        → (provider_limits limits "claude").per_turn_ceiling ≡ some limit
        → (next.turn_protection.state ≡ enforced)
          × (next.turn_protection.configured_limit ≡ some limit))
    × ((provider_limits limits "claude").per_turn_ceiling ≡ none
        → next.turn_protection.state ≡ unbounded)
    × (next.admission_override ≡ none)
    × (next.turn_protection_override ≡ none)
decide-automatic_example =
    decide-automatic ledger limits automatic "a" "schedule" 100 next decided refl

admit_turn-admitted_example :
    let seq = last_seq "a" ledger.turns + 1 in
    let (l', answer) = admit_turn ledger limits automatic "a" "next" "schedule" 100 in
    (answer ≡ ok (admitted seq next))
    × (turn_at "a" seq ledger.turns ≡ none)
    × (count_where (flies_for "a") ledger.turns ≡ 0)
    × ((a : Agent) × (t : Turn) × (get_agent ledger "a" ≡ some a)
        × (a.retired ≡ false)
        × (l' ≡ record ledger { turns = ledger.turns ++ t ∷ [] })
        × (turn_at "a" seq l'.turns ≡ some t)
        × (t.prompt ≡ "next")
        × (t.state ≡ TurnState.queued)
        × (t.provider ≡ a.def.provider)
        × (t.turn_protection ≡ some next.turn_protection)
        × (t.turn_protection_state ≡ as_str next.turn_protection.state)
        × (t.admission_override ≡ next.admission_override))
admit_turn-admitted_example =
    admit_turn-admitted ledger limits automatic "a" "next" "schedule" 100 next decided

decide-runs_example :
    let capability = ceiling_of ledger.providers "claude" in
    validate_for_execution next.turn_protection
      (as_str next.turn_protection.state)
      "claude"
      capability
    ≡ ok (ceiling_for (provider_limits limits "claude").per_turn_ceiling capability)
decide-runs_example =
    decide-runs ledger limits automatic "a" "schedule" 100 next limits-valid source_given decided

admission_report_at-spend_example :
    (r : AdmissionReport) × (admission_report_at ledger limits 100 ≡ ok r)
    × (r.global.reported_spend_micro_usd ≡ min (sum_of (paid_in_day 100) ledger.turns) u64_max)
admission_report_at-spend_example = admission_report_at-spend ledger limits 100
