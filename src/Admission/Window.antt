-- ===== src/Admission/Window.antt =====
-- crates/ciacola-core/src/admission.rs: the rows of the rolling window, and how many agents work for
-- each provider. A counter of rows, which the source keeps in 64 bits, is not cut off here.
use ciacola.Base.{
  ℕ, ◌+◌, String, ◌==◌, Bool, not, ◌&&◌, Option, none, some, List, [], ◌∷◌, ◌++◌, map,
  if◌then◌else◌, is_none, is_some_and, leb, unwrap_or,
}
use ciacola.Base.Int.{ℤ, pos}
use ciacola.Base.OrderedMap
use ciacola.Base.OrderedMap.{OrderedMap}
use ciacola.Base.Table.{select_where}
use ciacola.Ledger.Rows.{
  TurnState, CostState, UsageState, ElapsedState, Turn, Agent, Ledger, is_in_flight, is_running,
}
use ciacola.Ledger.Turns.{get_agent}

pub record WindowRow : Type 0 where
  pub provider : String
  pub state : TurnState
  pub cost_micro_usd : ℤ
  pub cost_state : CostState
  pub cost_complete : Bool
  pub tokens_in : ℤ
  pub tokens_out : ℤ
  pub tokens_cached : ℤ
  pub usage_state : UsageState
  pub usage_complete : Bool
  pub elapsed_state : ElapsedState

abbrev pub rolling_window_secs : ℕ
rolling_window_secs = 86400

-- `time >= checked - window`
abbrev within : ℕ → ℕ → Bool
within checked_unix time = leb checked_unix (time + rolling_window_secs)

-- COALESCE(NULLIF(a, ''), …)
abbrev or_text : String → String → String
or_text a b = if a == "" then b else a

abbrev agent_provider : Option Agent → String
agent_provider none = ""
agent_provider (some a) = a.def.provider

unfoldable pub row_provider : Ledger → Turn → String
row_provider l t = or_text t.provider (or_text (agent_provider (get_agent l t.agent_id)) "claude")

unfoldable pub window_row : Ledger → Turn → WindowRow
unfolding row_provider
window_row l t = record {
  provider = row_provider l t;
  state = t.state;
  cost_micro_usd = pos t.cost_micro_usd;
  cost_state = t.cost_state;
  cost_complete = t.cost_complete;
  tokens_in = pos t.tokens_in;
  tokens_out = pos t.tokens_out;
  tokens_cached = pos t.tokens_cached;
  usage_state = t.usage_state;
  usage_complete = t.usage_complete;
  elapsed_state = t.elapsed_state;
}

-- state IN ('ok', 'failed', 'killed')
abbrev pub is_terminal : TurnState → Bool
is_terminal state = not (is_in_flight state)

unfoldable pub window_turns : ℕ → List Turn → List Turn
window_turns checked_unix turns =
    select_where
      (λ (t : Turn). is_terminal t.state && is_some_and t.settled_unix (within checked_unix)) turns
    ++ (select_where
          (λ (t : Turn).
            is_terminal t.state && is_none t.settled_unix && within checked_unix t.at_unix)
          turns
        ++ select_where (λ (t : Turn). is_running t.state) turns)

-- `load_window_rows`
unfoldable pub load_window_rows : Ledger → ℕ → List WindowRow
unfolding window_turns window_row
load_window_rows l checked_unix = map (window_row l) (window_turns checked_unix l.turns)

-- SELECT provider, COUNT(*) … GROUP BY 1
unfoldable pub count_agents : List Agent → OrderedMap ℕ
count_agents [] = []
count_agents (a ∷ agents) =
    let rest = count_agents agents in
    let key = or_text a.def.provider "claude" in
    if a.retired
    then rest
    else OrderedMap.insert key (unwrap_or (OrderedMap.lookup key rest) 0 + 1) rest

-- `load_active_agent_counts`
unfoldable pub load_active_agent_counts : Ledger → OrderedMap ℕ
unfolding count_agents
load_active_agent_counts l = count_agents l.agents
