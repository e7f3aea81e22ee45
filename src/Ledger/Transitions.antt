-- ===== src/Ledger/Transitions.antt =====
-- crates/ciacola-core/src/ledger.rs: the SET clauses of the statements that move one turn, as
-- functions of its row. On the right of a SET every column is read before the write.
use ciacola.Base.{
  ℕ, ◌-◌, max, String, Bool, true, false, not, ◌&&◌, ◌||◌, Option, none, some, if◌then◌else◌,
  is_some, or_else, saturated_i64, ◌==◌, eqb,
}
use ciacola.Agent.Exchange.{Exchange, exchange_cost, exchange_tokens}
use ciacola.Contract.Outcome.{TokenUsage, Cost, Usage}
use ciacola.Ledger.Rows.{
  TurnState, queued, running, ok, Turn, cost_column, usage_column, failure_column, is_queued,
  is_running, is_reported_cost, is_reported_usage, CostState, UsageState, ElapsedState,
  FailureColumn,
}

-- The two words that a caller may settle a turn with when it did not succeed.
pub data Ending : Type 0 where
  failed killed : Ending

abbrev pub ending_state : Ending → TurnState
ending_state Ending.failed = TurnState.failed
ending_state Ending.killed = TurnState.killed

pub data InterruptionTiming : Type 0 where
  live recovery : InterruptionTiming

-- `claim_turn`
unfoldable pub claimed : ℕ → Turn → Turn
claimed now_ms t = record t {
  state = running;
  claimed_unix_ms = some now_ms;
  turn_protection_claim_version = 1;
}

abbrev interrupted_elapsed_state : InterruptionTiming → Turn → ElapsedState
interrupted_elapsed_state recovery t =
    if is_queued t.state
    then ElapsedState.not_attempted
    else if is_some t.claimed_unix_ms
    then ElapsedState.upper_bound
    else ElapsedState.unknown
interrupted_elapsed_state live t =
    if is_queued t.state
    then ElapsedState.not_attempted
    else if is_some t.claimed_unix_ms
    then ElapsedState.measured
    else ElapsedState.unknown

-- MAX(now - claimed_unix_ms, 0) of a claimed running row, else 0
abbrev run_ms : ℕ → Turn → ℕ
run_ms now_ms t = elim t.claimed_unix_ms [
  | none ↦ 0
  | some c ↦ if is_running t.state then now_ms - c else 0
]

-- `settle_interruption`
unfoldable pub interrupted :
    Cost → Usage → Ending → String → InterruptionTiming → ℕ → ℕ → Turn → Turn
interrupted cost usage ending error timing now_ms now t =
    let waiting = is_queued t.state in
    let kept = not waiting && is_reported_usage t.usage_state in
    record t {
      state = ending_state ending;
      error = some error;
      cost_micro_usd = 0;
      cost_state = if waiting then CostState.reported else cost_column cost;
      cost_complete = waiting;
      tokens_in = if kept then t.tokens_in else 0;
      tokens_out = if kept then t.tokens_out else 0;
      tokens_cached = if kept then t.tokens_cached else 0;
      usage_state =
          if waiting
          then UsageState.reported
          else if is_reported_usage t.usage_state
          then UsageState.reported
          else usage_column usage;
      usage_complete = waiting;
      provider_turns = if waiting then some 0 else none;
      failure_kind = if waiting then FailureColumn.not_attempted else FailureColumn.reported;
      elapsed_state = interrupted_elapsed_state timing t;
      elapsed_ms = max t.elapsed_ms (run_ms now_ms t);
      settled_unix = some now;
    }

-- `abort_claimed_turn`
unfoldable pub aborted : String → ℕ → Turn → Turn
aborted error now t = record t {
  state = TurnState.failed;
  error = some error;
  cost_micro_usd = 0;
  cost_state = CostState.reported;
  cost_complete = true;
  tokens_in = 0;
  tokens_out = 0;
  tokens_cached = 0;
  usage_state = UsageState.reported;
  usage_complete = true;
  provider_turns = some 0;
  elapsed_ms = 0;
  elapsed_state = ElapsedState.not_attempted;
  failure_kind = FailureColumn.not_attempted;
  settled_unix = some now;
}

-- whether the tokens of the exchange replace those of the row
abbrev replaces : Exchange → Turn → Bool
replaces x t = is_reported_usage (usage_column x.usage) || not (is_reported_usage t.usage_state)

-- what `complete_turn` and `fail_exchange` write alike
unfoldable pub with_exchange : Exchange → ℕ → Turn → Turn
with_exchange x now t =
    let tokens = exchange_tokens x in
    let new = replaces x t in
    record t {
      cost_micro_usd = saturated_i64 (exchange_cost x);
      cost_state = cost_column x.cost;
      cost_complete = is_reported_cost (cost_column x.cost) && x.cost_complete;
      elapsed_ms = saturated_i64 x.elapsed_ms;
      elapsed_state = ElapsedState.measured;
      tokens_in = if new then saturated_i64 tokens.input else t.tokens_in;
      tokens_out = if new then saturated_i64 tokens.output else t.tokens_out;
      tokens_cached = if new then saturated_i64 tokens.cached_input else t.tokens_cached;
      usage_state = if new then usage_column x.usage else t.usage_state;
      usage_complete = is_reported_usage (usage_column x.usage) && x.usage_complete;
      provider_turns = x.provider_turns;
      provider_session = or_else x.session t.provider_session;
      settled_unix = some now;
    }

-- `complete_turn`
unfoldable pub completed : Exchange → ℕ → Turn → Turn
unfolding with_exchange
completed x now t = record (with_exchange x now t) {
  state = TurnState.ok;
  reply = some x.reply;
  failure_kind = FailureColumn.none;
}

-- `fail_exchange`
unfoldable pub failed_exchange : Ending → String → Exchange → ℕ → Turn → Turn
unfolding with_exchange
failed_exchange ending error x now t = record (with_exchange x now t) {
  state = ending_state ending;
  error = some error;
  reply = if x.reply == "" then t.reply else some x.reply;
  failure_kind = failure_column x.failure_kind;
}

-- `fail_turn`
unfoldable pub failed_scalar :
    Cost → Usage → Ending → String → ℕ → ℕ → Option String → ℕ → Turn → Turn
failed_scalar cost usage ending error cost_micro_usd elapsed_ms session now t =
    let waiting = is_queued t.state in
    record t {
      state = ending_state ending;
      error = some error;
      cost_micro_usd = cost_micro_usd;
      cost_state = if waiting && eqb cost_micro_usd 0 then CostState.reported else cost_column cost;
      cost_complete = waiting;
      elapsed_ms = elapsed_ms;
      elapsed_state = if waiting then ElapsedState.not_attempted else ElapsedState.measured;
      tokens_in = if waiting then 0 else t.tokens_in;
      tokens_out = if waiting then 0 else t.tokens_out;
      tokens_cached = if waiting then 0 else t.tokens_cached;
      usage_state =
          if waiting
          then UsageState.reported
          else if is_reported_usage t.usage_state
          then UsageState.reported
          else usage_column usage;
      usage_complete = waiting;
      provider_turns = if waiting then some 0 else t.provider_turns;
      failure_kind = if waiting then FailureColumn.not_attempted else FailureColumn.reported;
      provider_session = or_else session t.provider_session;
      settled_unix = some now;
    }

-- `record_usage_snapshot`
unfoldable pub observed : TokenUsage → Turn → Turn
observed usage t = record t {
  tokens_in = saturated_i64 usage.input;
  tokens_out = saturated_i64 usage.output;
  tokens_cached = saturated_i64 usage.cached_input;
  usage_state = UsageState.reported;
  usage_complete = false;
}

abbrev is_failed_or_killed : TurnState → Bool
is_failed_or_killed queued = false
is_failed_or_killed running = false
is_failed_or_killed ok = false
is_failed_or_killed TurnState.failed = true
is_failed_or_killed TurnState.killed = true

abbrev is_no_failure : FailureColumn → Bool
is_no_failure FailureColumn.none = true
is_no_failure FailureColumn.limit = false
is_no_failure FailureColumn.reported = false
is_no_failure FailureColumn.not_attempted = false
is_no_failure FailureColumn.legacy = false

-- the trigger `ciacola_turn_old_terminal_provenance`, after an update of the state
unfoldable pub old_terminal_provenance : Turn → Turn
old_terminal_provenance t =
    if is_failed_or_killed t.state
      && is_no_failure t.failure_kind
      && eqb t.turn_protection_claim_version 0
    then record t { failure_kind = FailureColumn.legacy }
    else t
