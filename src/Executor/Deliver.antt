-- ===== src/Executor/Deliver.antt =====
-- crates/ciacola-core/src/exec.rs: one delivery of a turn, from its claim to its settlement, with nothing
-- in between from others. The clock stands still during a delivery. A database that fails is left out,
-- and so is what is logged and notified.
use ciacola.Base.{ℕ, ◌/◌, String, none, some, List, [], ◌∷◌, if◌then◌else◌, Result, ok, err}
use ciacola.Agent.Exchange.{Exchange}
use ciacola.Agent.Run.{TurnEvent, resume_id, usage_snapshot, Conduct, Launch, finish_exchange}
use ciacola.Ledger.Rows.{Ledger}
use ciacola.Ledger.Transitions.{Ending}
use ciacola.Ledger.Turns.{
  claim_turn, abort_claimed_turn, complete_turn, fail_exchange, record_usage_snapshot,
}
use ciacola.Ledger.Agents.{record_provider_session}
use ciacola.Executor.Load.{Setup, agent_failed, map_err, prepare}

-- `SessionSink`: what the provider reports is written as it comes, and before the settlement
unfoldable pub record_event : String → ℕ → TurnEvent → Ledger → Ledger
unfolding record_provider_session record_usage_snapshot
record_event agent_id seq (resume_id id) l = record_provider_session l agent_id seq id
record_event agent_id seq (usage_snapshot u) l = (record_usage_snapshot l agent_id seq u).0

unfoldable pub record_events : String → ℕ → List TurnEvent → Ledger → Ledger
unfolding record_event
record_events agent_id seq [] l = l
record_events agent_id seq (e ∷ es) l =
    record_events agent_id seq es (record_event agent_id seq e l)

-- the end of `run_claimed_turn`
unfoldable pub settle : String → ℕ → ℕ → Result String Exchange → Ledger → Ledger
unfolding fail_exchange complete_turn abort_claimed_turn
settle agent_id seq now (ok x) l = elim x.error [
  | some error ↦ (fail_exchange l agent_id seq Ending.failed error x now).0
  | none ↦ (complete_turn l agent_id seq x now).0
]
settle agent_id seq now (err error) l = (abort_claimed_turn l agent_id seq error now).0

unfoldable pub outcome_of : Setup → Launch → Conduct → Result String Exchange
unfolding finish_exchange
outcome_of setup x c =
    map_err (λ e. setup.sentence (agent_failed e))
      (finish_exchange setup.world x.provider.capabilities c)

-- the provider's run, and what follows it
unfoldable pub run_provider : Setup → String → ℕ → ℕ → Launch → Ledger → Ledger
unfolding record_events settle outcome_of
run_provider setup agent_id seq now x l =
    let c = setup.world.conduct x.provider.key x.intent in
    settle agent_id seq now (outcome_of setup x c) (record_events agent_id seq c.events l)

unfoldable pub run_claimed_turn : Setup → String → ℕ → String → ℕ → Ledger → Ledger
unfolding prepare run_provider abort_claimed_turn
run_claimed_turn setup agent_id seq next now l =
    let (l', prepared) = prepare setup l agent_id seq next in
    elim prepared [
      | err e ↦ (abort_claimed_turn l' agent_id seq (setup.sentence e) now).0
      | ok x ↦ run_provider setup agent_id seq now x l'
    ]

-- `run_turn`
unfoldable pub run_turn : Setup → String → ℕ → String → ℕ → Ledger → Ledger
unfolding claim_turn run_claimed_turn
run_turn setup agent_id seq next now_ms l =
    let (l', claimed) = claim_turn l agent_id seq now_ms in
    if claimed then run_claimed_turn setup agent_id seq next (now_ms / 1000) l' else l'
