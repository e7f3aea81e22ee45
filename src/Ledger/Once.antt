-- ===== src/Ledger/Once.antt =====
-- What happens only once: a claim, a settlement, and the choice of a provider.
use ciacola.Base.{ℕ, String, ◌≡◌, refl, ◌∙◌, Bool, false, ◌&&◌, some, List, arith, if◌then◌else◌}
use ciacola.Base.Table.{count_where, one_row, count-update_where_self, count-found}
use ciacola.Agent.Exchange.{Exchange}
use ciacola.Ledger.Rows.{Turn, Ledger, TurnState, is_in_flight, is_running, is_queued}
use ciacola.Ledger.Transitions.{
  Ending, InterruptionTiming, claimed, live, recovery, old_terminal_provenance,
}
use ciacola.Ledger.Turns.{
  is_turn, update_turns, claim_turn, interrupt_turn, recover_turn, settle_interruption,
  abort_claimed_turn, complete_turn, fail_exchange, reaches,
}
use ciacola.Ledger.Operations.{Op, IsValid}
use ciacola.Ledger.History.{run, turn_at, run-Frozen}
use ciacola.Ledger.Validity.Kept.{run-IsValid}

-- Only one claim of a turn can succeed: after any claim of it, whether or not that found the turn
-- queued, another finds no row.
pub claim_turn-once :
    (l : Ledger) (agent_id : String) (seq now now' : ℕ)
    → (claim_turn (claim_turn l agent_id seq now).0 agent_id seq now').1 ≡ false
unfolding claim_turn update_turns claimed old_terminal_provenance
claim_turn-once l agent_id seq now now' =
    rw
      (count-update_where_self (λ t. is_turn agent_id seq t && is_queued t.state)
        (λ t. old_terminal_provenance (claimed now t)) (λ t. ground arith) l.turns)
      refl

module _ (l : Ledger) (v : IsValid l) (agent_id : String) (seq : ℕ) (t : Turn)
    (found : turn_at agent_id seq l.turns ≡ some t) where
  -- how many rows a statement that asks for the turn and a state selects
  selects :
      (r : Turn → Bool)
      → count_where (λ s. is_turn agent_id seq s && r s) l.turns ≡ (if r t then 1 else 0)
  selects r = count-found (is_turn agent_id seq) r l.turns t found (v.turns_unique agent_id seq)

  answer : (r : Turn → Bool) → one_row (λ s. is_turn agent_id seq s && r s) l.turns ≡ r t
  answer r = ground (arith, selects r)

  pub claim_turn_answer : (now : ℕ) → (claim_turn l agent_id seq now).1 ≡ is_queued t.state
  unfolding claim_turn update_turns
  claim_turn_answer now = answer (λ s. is_queued s.state)

  pub settle_answer :
      (ending : Ending) (error : String) (timing : InterruptionTiming) (now : ℕ)
      → (settle_interruption l agent_id seq ending error timing now).1 ≡ reaches timing t.state
  unfolding settle_interruption update_turns
  settle_answer ending error timing now = answer (λ s. reaches timing s.state)

  pub abort_answer :
      (error : String) (now : ℕ)
      → (abort_claimed_turn l agent_id seq error now).1 ≡ is_running t.state
  unfolding abort_claimed_turn update_turns
  abort_answer error now = answer (λ s. is_running s.state)

  pub complete_answer :
      (x : Exchange) (now : ℕ) → (complete_turn l agent_id seq x now).1 ≡ is_running t.state
  unfolding complete_turn update_turns
  complete_answer x now = ground (arith, answer (λ s. is_running s.state))

  pub fail_answer :
      (ending : Ending) (error : String) (x : Exchange) (now : ℕ)
      → (fail_exchange l agent_id seq ending error x now).1 ≡ is_in_flight t.state
  unfolding fail_exchange update_turns
  fail_answer ending error x now = ground (arith, answer (λ s. is_in_flight s.state))

  -- Of a turn in a valid ledger, each operation answers true exactly in the states that it is for: a
  -- claim when it is queued; a completion and an abort when it is running; a recovery when it is
  -- running; a failure and an interruption when it is queued or running.
  pub answers :
      (now : ℕ) (error : String) (ending : Ending) (x : Exchange)
      → ((claim_turn l agent_id seq now).1 ≡ is_queued t.state)
        × ((complete_turn l agent_id seq x now).1 ≡ is_running t.state)
        × ((abort_claimed_turn l agent_id seq error now).1 ≡ is_running t.state)
        × ((recover_turn l agent_id seq error now).1 ≡ is_running t.state)
        × ((fail_exchange l agent_id seq ending error x now).1 ≡ is_in_flight t.state)
        × ((interrupt_turn l agent_id seq ending error now).1 ≡ is_in_flight t.state)
  unfolding recover_turn interrupt_turn
  answers now error ending x = (
    claim_turn_answer now,
    complete_answer x now,
    abort_answer error now,
    settle_answer Ending.failed error recovery now,
    fail_answer ending error x now,
    settle_answer ending error live now,
  )

not_running :
    (s : TurnState) → is_in_flight s ≡ false → (is_running s ≡ false) × (is_queued s ≡ false)
not_running s h = ground arith

-- A turn of a valid ledger settles once: when it has settled, then after any run of operations
-- neither a claim nor any settlement of it finds its row.
pub settles-once :
    (l : Ledger) (agent_id : String) (seq : ℕ) (t : Turn) (ops : List Op) (now : ℕ) (error : String)
    (ending : Ending) (x : Exchange)
    → IsValid l
    → turn_at agent_id seq l.turns ≡ some t
    → is_in_flight t.state ≡ false
    → let l' = run ops l in
      ((claim_turn l' agent_id seq now).1 ≡ false)
      × ((complete_turn l' agent_id seq x now).1 ≡ false)
      × ((abort_claimed_turn l' agent_id seq error now).1 ≡ false)
      × ((recover_turn l' agent_id seq error now).1 ≡ false)
      × ((fail_exchange l' agent_id seq ending error x now).1 ≡ false)
      × ((interrupt_turn l' agent_id seq ending error now).1 ≡ false)
settles-once l agent_id seq t ops now error ending x v found h =
    let (t', found', frozen) = run-Frozen agent_id seq ops l t found h in
    let landed : is_in_flight t'.state ≡ false = rw (frozen.state) h in
    let a = answers (run ops l) (run-IsValid ops l v) agent_id seq t' found' now error ending x in
    let n = not_running t'.state landed in
    (a.0 ∙ n.1, a.1 ∙ n.0, a.2 ∙ n.0, a.3 ∙ n.0, a.4 ∙ landed, a.5 ∙ landed)
