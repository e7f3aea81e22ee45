-- ===== src/Admission/Report.antt =====
-- crates/ciacola-core/src/admission.rs: `accounting_from_rows` and the admission report.
pub mod Day
pub mod Spend
use ciacola.Base.{
  ℕ, ◌+◌, String, ◌==◌, Bool, true, false, not, ◌&&◌, ◌||◌, Option, none, some, List, [], ◌∷◌, ◌++◌,
  map, if◌then◌else◌, is_some, is_none, unwrap_or, or_else, saturating_add, Result, ok, err, ◌>>=◌,
}
use ciacola.Base.Int.{ℤ, pos, negsuc, is_zero}
use ciacola.Base.OrderedMap
use ciacola.Base.OrderedMap.{OrderedMap}
use ciacola.Contract.Intent.{CeilingCapability}
use ciacola.Contract.Registry
use ciacola.Contract.Registry.{Registry, Provider}
use ciacola.Ledger.Rows.{
  TurnState, CostState, UsageState, ElapsedState, Ledger, is_running, is_reported_cost,
  is_reported_usage,
}
use ciacola.Limits.Config.{Limits}
use ciacola.Limits.Accounting.{
  ProviderAccounting, empty_accounting, AdmissionAccounting, AdmissionReport,
  ProviderAdmissionStatus, TurnProtectionStatus, enforced, unbounded, unavailable,
  state_automatic_allowed,
}
use ciacola.Limits.Evaluate.{evaluate}
use ciacola.Admission.Window.{WindowRow, is_terminal, load_window_rows, load_active_agent_counts}

pub data AdmissionError : Type 0 where
  negative : String → AdmissionError
  no_agent retired_agent unknown_provider missing_status : String → AdmissionError
  empty_protection_reason empty_override_reason stopped_without_threshold : AdmissionError

unfoldable pub nonnegative : ℤ → String → Result AdmissionError ℕ
nonnegative (pos n) field = ok n
nonnegative (negsuc n) field = err (negative field)

abbrev pub is_attempted : ElapsedState → Bool
is_attempted ElapsedState.measured = true
is_attempted ElapsedState.upper_bound = true
is_attempted ElapsedState.unknown = true
is_attempted ElapsedState.not_attempted = false
is_attempted ElapsedState.legacy = true

abbrev is_legacy : UsageState → Bool
is_legacy UsageState.legacy = true
is_legacy UsageState.reported = false
is_legacy UsageState.unreported = false
is_legacy UsageState.not_tracked = false
is_legacy (UsageState.other _) = false

abbrev pub Tally : Type 0
Tally = ℕ × ProviderAccounting

-- what `match row.cost_state` does for a terminal row
unfoldable pub tally_cost : WindowRow → Bool → CostState → Tally → Result AdmissionError Tally
unfolding nonnegative
tally_cost row attempted CostState.reported (spend, p) = do
  cost ← nonnegative row.cost_micro_usd "cost"
  let spend' = saturating_add spend cost
  ok (
    spend',
    if not attempted
        then p
        else if row.cost_complete
        then record p { cost_complete_turns = p.cost_complete_turns + 1 }
        else record p { cost_incomplete_turns = p.cost_incomplete_turns + 1 },
  )
tally_cost row attempted CostState.legacy (spend, p) =
    let counted =
      if attempted
      then record p { cost_legacy_unknown_turns = p.cost_legacy_unknown_turns + 1 }
      else p in
    let paid = nonnegative row.cost_micro_usd "legacy cost" in
    if is_zero row.cost_micro_usd
    then ok (spend, counted)
    else paid >>= λ cost. ok (saturating_add spend cost, counted)
tally_cost row attempted CostState.unreported (spend, p) = ok (
  spend,
  if attempted then record p { cost_unreported_turns = p.cost_unreported_turns + 1 } else p,
)
tally_cost row attempted CostState.not_priced (spend, p) = ok (
  spend,
  if attempted then record p { cost_not_priced_turns = p.cost_not_priced_turns + 1 } else p,
)
tally_cost row attempted (CostState.other _) tally = ok tally

abbrev pub legacy_has_tokens : WindowRow → Bool
legacy_has_tokens row =
    is_legacy row.usage_state
    && (not (is_zero row.tokens_in)
        || not (is_zero row.tokens_out)
        || not (is_zero row.tokens_cached))

unfoldable pub tally_tokens :
    WindowRow → ProviderAccounting → Result AdmissionError ProviderAccounting
unfolding nonnegative
tally_tokens row p =
    let added = do
      input ← nonnegative row.tokens_in "tokens_in"
      output ← nonnegative row.tokens_out "tokens_out"
      cached ← nonnegative row.tokens_cached "tokens_cached"
      ok (record p {
        tokens_in = saturating_add p.tokens_in input;
        tokens_out = saturating_add p.tokens_out output;
        tokens_cached = saturating_add p.tokens_cached cached;
      })
    in if is_reported_usage row.usage_state || legacy_has_tokens row then added else ok p

unfoldable pub tally_attempted : WindowRow → UsageState → ProviderAccounting → ProviderAccounting
tally_attempted row UsageState.reported p =
    if row.usage_complete
    then record p { usage_complete_turns = p.usage_complete_turns + 1 }
    else record p { usage_incomplete_turns = p.usage_incomplete_turns + 1 }
tally_attempted row UsageState.unreported p = record p {
  usage_unreported_turns = p.usage_unreported_turns + 1;
}
tally_attempted row UsageState.not_tracked p = record p {
  usage_not_tracked_turns = p.usage_not_tracked_turns + 1;
}
tally_attempted row UsageState.legacy p =
    if legacy_has_tokens row
    then record p { usage_complete_turns = p.usage_complete_turns + 1 }
    else record p { usage_legacy_unknown_turns = p.usage_legacy_unknown_turns + 1 }
tally_attempted row (UsageState.other _) p = record p {
  usage_incomplete_turns = p.usage_incomplete_turns + 1;
}

unfoldable pub tally_usage : WindowRow → Bool → ProviderAccounting → ProviderAccounting
unfolding tally_attempted
tally_usage row attempted p =
    if is_running row.state
    then if is_reported_usage row.usage_state && not row.usage_complete
      then record p { running_partial_turns = p.running_partial_turns + 1 }
      else p
    else if not (is_terminal row.state) || not attempted
    then if is_terminal row.state && is_reported_usage row.usage_state && row.usage_complete
      then record p { usage_complete_turns = p.usage_complete_turns + 1 }
      else p
    else tally_attempted row row.usage_state p

-- the body of the loop over the rows
unfoldable pub tally_row : WindowRow → Tally → Result AdmissionError Tally
unfolding tally_cost tally_tokens tally_usage
tally_row row tally =
    let attempted = is_attempted row.elapsed_state in
    do
      (spend, p) ←
          if is_terminal row.state then tally_cost row attempted row.cost_state tally else ok tally
      p' ← tally_tokens row p
      ok (spend, tally_usage row attempted p')

-- `providers.entry(key).or_insert_with(default)`
abbrev pub entry : String → OrderedMap ProviderAccounting → ProviderAccounting
entry key providers = unwrap_or (OrderedMap.lookup key providers) (empty_accounting key)

-- the loop over the rows
unfoldable pub tally_rows :
    List WindowRow
    → ℕ
    → OrderedMap ProviderAccounting
    → Result AdmissionError (ℕ × OrderedMap ProviderAccounting)
unfolding tally_row
tally_rows [] spend providers = ok (spend, providers)
tally_rows (row ∷ rows) spend providers = do
  (spend', p) ← tally_row row (spend, entry row.provider providers)
  tally_rows rows spend' (OrderedMap.insert row.provider p providers)

-- the loop over the registered providers
unfoldable pub registered :
    Registry → OrderedMap ℕ → OrderedMap ProviderAccounting → OrderedMap ProviderAccounting
registered [] active providers = providers
registered ((key, p) ∷ rest) active providers = registered rest active (
    OrderedMap.insert key
      (record (empty_accounting key) {
        reports_cost = p.capabilities.reports_cost;
        reports_token_usage = p.capabilities.reports_token_usage;
        active_agents = unwrap_or (OrderedMap.lookup key active) 0;
      })
      providers)

-- the loop over the counts that no registered provider has taken
unfoldable pub unregistered :
    Registry → OrderedMap ℕ → OrderedMap ProviderAccounting → OrderedMap ProviderAccounting
unregistered registry [] providers = providers
unregistered registry ((key, count) ∷ rest) providers = unregistered registry rest (
    if is_some (OrderedMap.lookup key registry)
    then providers
    else OrderedMap.insert key (record (empty_accounting key) { active_agents = count }) providers)

-- `accounting_from_rows`
unfoldable pub accounting_from_rows :
    Registry → ℕ → List WindowRow → OrderedMap ℕ → Result AdmissionError AdmissionAccounting
unfolding registered unregistered tally_rows
accounting_from_rows registry checked_unix rows active = do
  (spend, providers) ←
      tally_rows rows 0 (unregistered registry active (registered registry active []))
  ok (record {
    checked_unix = checked_unix;
    reported_spend_micro_usd = spend;
    providers = providers;
  })

unfoldable pub ceiling_of : Registry → String → Option CeilingCapability
ceiling_of registry key = elim (Registry.get registry key) [
  | ok p ↦ p.capabilities.turn_ceiling
  | err _ ↦ none
]

-- the body of the loop of `resolve_turn_protection`
unfoldable pub resolve_status : Registry → ProviderAdmissionStatus → ProviderAdmissionStatus
unfolding ceiling_of
resolve_status registry s =
    let capability = ceiling_of registry s.accounting.provider in
    if is_none s.per_turn_ceiling
    then record s {
      turn_protection = unbounded;
      turn_ceiling_capability = capability;
      automatic_allowed = state_automatic_allowed s.state;
    }
    else if is_some capability
    then record s {
      turn_protection = enforced;
      turn_ceiling_capability = capability;
      automatic_allowed = state_automatic_allowed s.state;
    }
    else record s {
      turn_protection = unavailable;
      turn_ceiling_capability = capability;
      automatic_allowed = false;
      detail =
          or_else s.detail
            (some "a per-turn ceiling is configured but this provider cannot enforce it");
    }

unfoldable pub resolve_turn_protection : Registry → AdmissionReport → AdmissionReport
unfolding resolve_status
resolve_turn_protection registry r = record r {
  providers = map (resolve_status registry) r.providers;
}

-- `admission_report_at`, which `admit_turn` computes inside its transaction
unfoldable pub admission_report_at : Ledger → Limits → ℕ → Result AdmissionError AdmissionReport
unfolding accounting_from_rows resolve_turn_protection
admission_report_at l limits checked_unix = do
  accounting ←
      accounting_from_rows l.providers checked_unix (load_window_rows l checked_unix)
        (load_active_agent_counts l)
  ok (resolve_turn_protection l.providers (evaluate limits accounting))
