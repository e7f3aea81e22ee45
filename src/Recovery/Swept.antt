-- ===== src/Recovery/Swept.antt =====
-- What a recovery establishes: no turn is left running, and each queued one is submitted.
use ciacola.Base.{
  ℕ, ◌+◌, String, ◌≡◌, refl, ◌∙◌, ap, Bool, true, ◌||◌, ◌&&◌, List, [], ◌∷◌, arith, All, eq_iff,
  length,
}
use ciacola.Base.Table.{
  select-update_where_other, length-select_where, count_where, exists_where, select_where,
  All-update_where_to, All-weaken,
}
use ciacola.Ledger.Rows.{Turn, Ledger, is_running, is_queued}
use ciacola.Ledger.Transitions.{interrupted, old_terminal_provenance}
use ciacola.Ledger.Turns.{is_turn, recover_turn, settle_interruption, update_turns}
use ciacola.Ledger.Operations.{apply, IsValid}
use ciacola.Ledger.Operations.{recover as recover_op}
use ciacola.Ledger.Validity.Kept.{apply-IsValid}
use ciacola.Recovery.Orphans.{System}
use ciacola.Recovery.Order.{IsSorted, copies, copies-sort, copies-select, sort_turns-IsSorted}
use ciacola.Recovery.Recover.{
  RecoveryReport, insert_turn, sort_turns, turns_in_state, recover_one, recover_all, recover,
  keys_of, nothing_done,
}

-- whether a row is that of one of the turns
abbrev among : List Turn → Turn → Bool
among ts u = exists_where (λ (t : Turn). is_turn t.agent_id t.seq u) ts

among-insert :
    (t u : Turn) (ts : List Turn)
    → among (insert_turn t ts) u ≡ (is_turn t.agent_id t.seq u || among ts u)
unfolding insert_turn exists_where
among-insert t u [] = refl
among-insert t u (v ∷ ts) = ground (arith, among-insert t u ts)

among-sort : (ts : List Turn) (u : Turn) → among (sort_turns ts) u ≡ among ts u
unfolding sort_turns exists_where
among-sort [] u = refl
among-sort (t ∷ ts) u = ground (arith, among-insert t u (sort_turns ts), among-sort ts u)

-- Each running row is that of one of the turns.
abbrev Pending : List Turn → Turn → Type 0
Pending ts u = is_running u.state ≡ true → among ts u ≡ true

is_turn_self : (t : Turn) → is_turn t.agent_id t.seq t ≡ true
unfolding is_turn
is_turn_self t = ground (arith, eq_iff t.agent_id t.agent_id)

Pending-select :
    (ts : List Turn) → All (Pending (select_where (λ (t : Turn). is_running t.state) ts)) ts
unfolding select_where exists_where
Pending-select [] = tt
Pending-select (t ∷ ts) = (
  λ r. ground (arith, is_turn_self t),
  All-weaken (Pending (select_where (λ (t : Turn). is_running t.state) ts)) _
      (λ u h r. ground (arith, h r)) ts (Pending-select ts),
)

Pending-sort : (ts us : List Turn) → All (Pending ts) us → All (Pending (sort_turns ts)) us
Pending-sort ts us =
    All-weaken (Pending ts) (Pending (sort_turns ts)) (λ u h r. rw (among-sort ts u) (h r)) us

-- One recovery takes its turn off the list, and leaves the queued turns alone.
module _ (l : Ledger) (t : Turn) (error : String) (now_ms : ℕ) where
  Pending-step :
      (ts : List Turn)
      → All (Pending (t ∷ ts)) l.turns
      → All (Pending ts) (recover_turn l t.agent_id t.seq error now_ms).0.turns
  unfolding recover_turn settle_interruption update_turns exists_where interrupted
      old_terminal_provenance
  Pending-step ts =
      All-update_where_to (Pending (t ∷ ts)) (Pending ts) _ _ (λ u h e r. ground arith)
        (λ u h e r. ground (arith, h r)) l.turns

  queued_step :
      select_where
        (λ (u : Turn). is_queued u.state)
        (recover_turn l t.agent_id t.seq error now_ms).0.turns
      ≡ select_where (λ (u : Turn). is_queued u.state) l.turns
  unfolding recover_turn settle_interruption update_turns interrupted old_terminal_provenance
  queued_step =
      select-update_where_other (λ (u : Turn). is_queued u.state) _ _
        (λ u e. (ground arith, ground arith)) l.turns

module _ (sys : System) (now_ms : ℕ) where
  swept-All :
      (ts : List Turn) (s : Ledger × RecoveryReport)
      → All (Pending ts) s.0.turns
      → All (Pending []) (recover_all sys now_ms ts s).0.turns
  unfolding recover_all recover_one
  swept-All [] s h = h
  swept-All (t ∷ ts) s h =
      swept-All ts (recover_one sys now_ms t s) (Pending-step s.0 t _ now_ms ts h)

  queued_all :
      (ts : List Turn) (s : Ledger × RecoveryReport)
      → select_where (λ (u : Turn). is_queued u.state) (recover_all sys now_ms ts s).0.turns
        ≡ select_where (λ (u : Turn). is_queued u.state) s.0.turns
  unfolding recover_all recover_one
  queued_all [] s = refl
  queued_all (t ∷ ts) s = queued_all ts (recover_one sys now_ms t s) ∙ queued_step s.0 t _ now_ms

  IsValid-all :
      (ts : List Turn) (s : Ledger × RecoveryReport)
      → IsValid s.0
      → IsValid (recover_all sys now_ms ts s).0
  unfolding recover_all recover_one apply
  IsValid-all [] s v = v
  IsValid-all (t ∷ ts) s v =
      IsValid-all ts (recover_one sys now_ms t s)
        (apply-IsValid (recover_op t.agent_id t.seq _ now_ms) s.0 v)

  orphaned_all :
      (ts : List Turn) (s : Ledger × RecoveryReport)
      → (recover_all sys now_ms ts s).1.orphaned ≡ s.1.orphaned + length ts
  unfolding recover_all recover_one
  orphaned_all [] s = omega arith
  orphaned_all (t ∷ ts) s = omega (arith, orphaned_all ts (recover_one sys now_ms t s))

none-Pending :
    (ts : List Turn) → All (Pending []) ts → count_where (λ (t : Turn). is_running t.state) ts ≡ 0
unfolding count_where exists_where
none-Pending [] h = refl
none-Pending (t ∷ ts) h = ground (arith, h.0, none-Pending ts h.1)

length-insert : (t : Turn) (ts : List Turn) → length (insert_turn t ts) ≡ length ts + 1
unfolding insert_turn
length-insert t [] = omega arith
length-insert t (u ∷ ts) = ground (arith, length-insert t ts)

length-sort : (ts : List Turn) → length (sort_turns ts) ≡ length ts
unfolding sort_turns
length-sort [] = refl
length-sort (t ∷ ts) = omega (arith, length-insert t (sort_turns ts), length-sort ts)

-- After a recovery no turn is left running, however the processes were found; each turn that ran is
-- counted as orphaned; the turns that were queued still are, unchanged, and exactly these are
-- submitted, by agent and then by number; and a valid ledger stays valid.
pub recover-swept :
    (sys : System) (now_ms : ℕ) (l : Ledger)
    → let (l', submitted, report) = recover sys now_ms l in
      (count_where (λ (t : Turn). is_running t.state) l'.turns ≡ 0)
      × (report.orphaned ≡ count_where (λ (t : Turn). is_running t.state) l.turns)
      × (select_where (λ (t : Turn). is_queued t.state) l'.turns
          ≡ select_where (λ (t : Turn). is_queued t.state) l.turns)
      × ((agent_id : String) (seq : ℕ)
          → copies agent_id seq submitted
            ≡ count_where (λ (t : Turn). is_queued t.state && is_turn agent_id seq t) l.turns)
      × IsSorted submitted
      × (report.resubmitted ≡ count_where (λ (t : Turn). is_queued t.state) l.turns)
      × (IsValid l → IsValid l')
unfolding recover turns_in_state
recover-swept sys now_ms l =
    let running = select_where (λ (t : Turn). is_running t.state) l.turns in
    let queued = queued_all sys now_ms (sort_turns running) (l, nothing_done) in
    (
      none-Pending _ (
          swept-All sys now_ms (sort_turns running) (l, nothing_done)
            (Pending-sort running l.turns (Pending-select l.turns))),
      omega (
        arith,
        orphaned_all sys now_ms (sort_turns running) (l, nothing_done),
        length-sort running,
        length-select_where (λ (t : Turn). is_running t.state) l.turns,
      ),
      queued,
      λ agent_id seq.
          copies-sort agent_id seq _
          ∙ ap (λ (ts : List Turn). copies agent_id seq (keys_of ts)) queued
          ∙ copies-select agent_id seq is_queued l.turns,
      sort_turns-IsSorted (
          select_where (λ (t : Turn). is_queued t.state)
            (recover_all sys now_ms (sort_turns running) (l, nothing_done)).0.turns),
      ap (λ (ts : List Turn). length (sort_turns ts)) queued
          ∙ length-sort _
          ∙ length-select_where (λ (t : Turn). is_queued t.state) l.turns,
      IsValid-all sys now_ms (sort_turns running) (l, nothing_done),
    )
