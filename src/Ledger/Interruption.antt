-- ===== src/Ledger/Interruption.antt =====
-- What an interruption leaves of a turn, and an abort of one that was claimed and never ran.
use ciacola.Base.{
  ℕ, ◌-◌, ◌/◌, String, ◌≡◌, ◌≢◌, refl, Bool, true, false, ◌&&◌, none, some, arith, if◌then◌else◌,
  max,
}
use ciacola.Base.Table.{find-update_where, find_where-some, update_where}
use ciacola.Contract.Outcome.{Cost, Usage}
use ciacola.Ledger.Rows.{
  Turn, Ledger, TurnState, CostState, UsageState, ElapsedState, FailureColumn, is_in_flight,
  is_running, is_queued, is_reported_usage,
}
use ciacola.Ledger.Transitions.{
  Ending, ending_state, InterruptionTiming, live, recovery, interrupted, aborted,
  old_terminal_provenance,
}
use ciacola.Ledger.Turns.{
  is_turn, update_turns, interrupt_turn, recover_turn, settle_interruption, abort_claimed_turn,
  reaches, unavailable_telemetry,
}
use ciacola.Ledger.History.{turn_at}

-- The turn never ran, and that is known: it cost nothing and used nothing.
pub record KnownZero (t : Turn) : Type 0 where
  pub cost : t.cost_micro_usd ≡ 0
  pub cost_state : t.cost_state ≡ CostState.reported
  pub cost_complete : t.cost_complete ≡ true
  pub tokens : (t.tokens_in ≡ 0) × (t.tokens_out ≡ 0) × (t.tokens_cached ≡ 0)
  pub usage_state : t.usage_state ≡ UsageState.reported
  pub usage_complete : t.usage_complete ≡ true
  pub rounds : t.provider_turns ≡ some 0
  pub elapsed : t.elapsed_state ≡ ElapsedState.not_attempted
  pub failure : t.failure_kind ≡ FailureColumn.not_attempted

-- The turn ran and was cut off: nothing that is stored of it claims to be the whole.
pub record CutOff (timing : InterruptionTiming) (now_ms : ℕ) (t t' : Turn) : Type 0 where
  pub cost_incomplete : t'.cost_complete ≡ false
  pub usage_incomplete : t'.usage_complete ≡ false
  pub tokens_kept :
      is_reported_usage t.usage_state ≡ true
      → (t'.tokens_in ≡ t.tokens_in)
        × (t'.tokens_out ≡ t.tokens_out)
        × (t'.tokens_cached ≡ t.tokens_cached)
        × (t'.usage_state ≡ UsageState.reported)
  pub rounds_unknown : t'.provider_turns ≡ none
  pub failure : t'.failure_kind ≡ FailureColumn.reported
  pub elapsed :
      (c : ℕ)
      → t.claimed_unix_ms ≡ some c
      → (t'.elapsed_ms ≡ max t.elapsed_ms (now_ms - c))
        × (t'.elapsed_state
            ≡ elim timing [ live ↦ ElapsedState.measured | recovery ↦ ElapsedState.upper_bound ])

module _ (cost : Cost) (usage : Usage) (ending : Ending) (error : String)
    (timing : InterruptionTiming) (now_ms now : ℕ) (t : Turn) where
  abbrev cut : Turn
  cut = old_terminal_provenance (interrupted cost usage ending error timing now_ms now t)

  KnownZero-interrupted : is_queued t.state ≡ true → KnownZero cut
  unfolding interrupted old_terminal_provenance
  KnownZero-interrupted q = ground arith

  CutOff-interrupted : is_running t.state ≡ true → CutOff timing now_ms t cut
  unfolding interrupted old_terminal_provenance
  CutOff-interrupted q = record {
    cost_incomplete = ground arith;
    usage_incomplete = ground arith;
    tokens_kept = λ u. ground arith;
    rounds_unknown = ground arith;
    failure = ground arith;
    elapsed = λ c e. ground arith;
  }

  landed : cut.state ≡ ending_state ending
  unfolding interrupted old_terminal_provenance
  landed = ground arith

module _ (l : Ledger) (agent_id : String) (seq : ℕ) (t : Turn)
    (found : turn_at agent_id seq l.turns ≡ some t) where
  -- The statement's update, seen in the row of its turn.
  pub seen :
      (q : Turn → Bool) (f : Turn → Turn)
      → ((s : Turn) → is_turn agent_id seq (f s) ≡ is_turn agent_id seq s)
      → turn_at agent_id seq (update_where (λ s. is_turn agent_id seq s && q s) f l.turns)
        ≡ some (if q t then f t else t)
  seen q f k = ground (
    arith,
    found,
    find_where-some (is_turn agent_id seq) l.turns t found,
    find-update_where (is_turn agent_id seq) (λ s. is_turn agent_id seq s && q s) f (λ s _. k s)
        l.turns,
  )

  settled_row :
      (ending : Ending) (error : String) (timing : InterruptionTiming) (now_ms : ℕ)
      → let (cost, usage) = unavailable_telemetry l agent_id in
        turn_at agent_id seq (settle_interruption l agent_id seq ending error timing now_ms).0.turns
        ≡ some (
            if reaches timing t.state
            then cut cost usage ending error timing now_ms (now_ms / 1000) t
            else t)
  unfolding settle_interruption update_turns is_turn old_terminal_provenance interrupted
  settled_row ending error timing now_ms = seen (λ s. reaches timing s.state) _ (λ s. ground arith)

  -- An interruption settles a turn in flight in the given state. A turn that was still queued is then
  -- known to have cost and used nothing. Of one that ran, cost and use are marked incomplete, the
  -- tokens that were observed are kept, and the time since its claim is stored as measured. A settled
  -- turn stays as it is.
  pub interrupt_turn-effect :
      (ending : Ending) (error : String) (now_ms : ℕ)
      → (t' : Turn) × (turn_at agent_id seq
            (interrupt_turn l agent_id seq ending error now_ms).0.turns
          ≡ some t')
        × (t.state ≡ TurnState.queued → KnownZero t' × (t'.state ≡ ending_state ending))
        × (t.state ≡ TurnState.running → CutOff live now_ms t t' × (t'.state ≡ ending_state ending))
        × (is_in_flight t.state ≡ false → t' ≡ t)
  unfolding interrupt_turn
  interrupt_turn-effect ending error now_ms =
      let (cost, usage) = unavailable_telemetry l agent_id in
      let flies : t.state ≡ TurnState.queued → is_in_flight t.state ≡ true = λ q. rw q refl in
      let runs : t.state ≡ TurnState.running → is_in_flight t.state ≡ true = λ q. rw q refl in
      let row = cut cost usage ending error live now_ms (now_ms / 1000) t in
      (
        if reaches live t.state then row else t,
        settled_row ending error live now_ms,
        λ q. rw (flies q) (
          KnownZero-interrupted cost usage ending error live now_ms (now_ms / 1000) t (rw q refl),
          landed cost usage ending error live now_ms (now_ms / 1000) t,
        ),
        λ q. rw (runs q) (
          CutOff-interrupted cost usage ending error live now_ms (now_ms / 1000) t (rw q refl),
          landed cost usage ending error live now_ms (now_ms / 1000) t,
        ),
        λ q. rw q refl,
      )

  -- Recovery settles a running turn as failed, with cost and use marked incomplete, the tokens that
  -- were observed kept, and the time since its claim stored as an upper bound. A turn that is queued or
  -- settled stays as it is.
  pub recover_turn-effect :
      (error : String) (now_ms : ℕ)
      → (t' : Turn) × (turn_at agent_id seq (recover_turn l agent_id seq error now_ms).0.turns
          ≡ some t')
        × (t.state ≡ TurnState.running
            → CutOff recovery now_ms t t' × (t'.state ≡ TurnState.failed))
        × (t.state ≢ TurnState.running → t' ≡ t)
  unfolding recover_turn
  recover_turn-effect error now_ms =
      let (cost, usage) = unavailable_telemetry l agent_id in
      let is_running_of : t.state ≡ TurnState.running → is_running t.state ≡ true =
        λ q. rw q refl in
      let row = cut cost usage Ending.failed error recovery now_ms (now_ms / 1000) t in
      (
        if reaches recovery t.state then row else t,
        settled_row Ending.failed error recovery now_ms,
        λ q. rw (is_running_of q) (
          CutOff-interrupted cost usage Ending.failed error recovery now_ms (now_ms / 1000) t
              (rw q refl),
          landed cost usage Ending.failed error recovery now_ms (now_ms / 1000) t,
        ),
        λ q. ground arith,
      )

  -- An abort settles a running turn as failed, and known to have cost and used nothing: the provider
  -- was not called. A turn that is queued or settled stays as it is.
  pub abort_claimed_turn-effect :
      (error : String) (now : ℕ)
      → (t' : Turn) × (turn_at agent_id seq (abort_claimed_turn l agent_id seq error now).0.turns
          ≡ some t')
        × (t.state ≡ TurnState.running → KnownZero t' × (t'.state ≡ TurnState.failed))
        × (t.state ≢ TurnState.running → t' ≡ t)
  unfolding abort_claimed_turn update_turns is_turn aborted old_terminal_provenance
  abort_claimed_turn-effect error now = (
    if is_running t.state then old_terminal_provenance (aborted error now t) else t,
    seen (λ s. is_running s.state) _ (λ s. ground arith),
    λ q. ground arith,
    λ q. ground arith,
  )
