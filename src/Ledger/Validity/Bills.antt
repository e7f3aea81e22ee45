-- ===== src/Ledger/Validity/Bills.antt =====
-- What each operation does to an agent's bill: the sum of the costs of its turns.
use ciacola.Base.{
  ℕ, ◌+◌, ◌≤◌, String, ◌≡◌, refl, Bool, true, ◌&&◌, List, [], ◌∷◌, ◌++◌, arith, Bool-cases, inl,
  inr, All, ◌==◌, if◌then◌else◌,
}
use ciacola.Base.Table.{
  update_where, count_where, one_row, sum_of, sum-append, sum-update_where, sum-update_where_same,
}
use ciacola.Contract.Outcome.{TokenUsage}
use ciacola.Ledger.Rows.{Turn, Ledger}
use ciacola.Ledger.Transitions.{
  Ending, InterruptionTiming, claimed, interrupted, aborted, observed, old_terminal_provenance,
}
use ciacola.Ledger.Turns.{
  update_turns, claim_turn, settle_interruption, abort_claimed_turn, record_usage_snapshot,
}
use ciacola.Ledger.Prune.{prune_turns, blanked}
use ciacola.Ledger.Agents.{record_provider_session}
use ciacola.Ledger.Operations.{RowOk, bill_of}

-- A row of the turn that costs what it cost before.
pub record SameCost (t t' : Turn) : Type 0 where
  pub agent : t'.agent_id ≡ t.agent_id
  pub cost : t'.cost_micro_usd ≡ t.cost_micro_usd

pub bill_same :
    (p : Turn → Bool) (f : Turn → Turn) (agent_id : String) (ts : List Turn)
    → ((t : Turn) → RowOk t → p t ≡ true → SameCost t (f t))
    → All RowOk ts
    → sum_of (bill_of agent_id) (update_where p f ts) ≡ sum_of (bill_of agent_id) ts
bill_same p f agent_id ts h =
    sum-update_where_same RowOk p f (bill_of agent_id)
      (λ t r e. rw ((h t r e).agent, (h t r e).cost) refl) ts

module _ (l : Ledger) (ok : All RowOk l.turns) (id agent_id : String) (seq : ℕ) where
  pub bill-claim :
      (now : ℕ)
      → sum_of (bill_of id) (claim_turn l agent_id seq now).0.turns ≡ sum_of (bill_of id) l.turns
  unfolding claim_turn update_turns claimed old_terminal_provenance
  bill-claim now = bill_same _ _ id l.turns (λ t r e. record { agent = refl; cost = refl }) ok

  pub bill-settle :
      (ending : Ending) (error : String) (timing : InterruptionTiming) (now_ms : ℕ)
      → sum_of (bill_of id) (settle_interruption l agent_id seq ending error timing now_ms).0.turns
        ≡ sum_of (bill_of id) l.turns
  unfolding settle_interruption update_turns interrupted old_terminal_provenance
  bill-settle ending error timing now_ms =
      bill_same _ _ id l.turns
        (λ t r e. record { agent = ground arith; cost = ground (arith, r.pending) }) ok

  pub bill-abort :
      (error : String) (now : ℕ)
      → sum_of (bill_of id) (abort_claimed_turn l agent_id seq error now).0.turns
        ≡ sum_of (bill_of id) l.turns
  unfolding abort_claimed_turn update_turns aborted old_terminal_provenance
  bill-abort error now =
      bill_same _ _ id l.turns
        (λ t r e. record { agent = ground arith; cost = ground (arith, r.pending) }) ok

  pub bill-snapshot :
      (usage : TokenUsage)
      → sum_of (bill_of id) (record_usage_snapshot l agent_id seq usage).0.turns
        ≡ sum_of (bill_of id) l.turns
  unfolding record_usage_snapshot observed
  bill-snapshot usage = bill_same _ _ id l.turns (λ t r e. record { agent = refl; cost = refl }) ok

  pub bill-session :
      (session : String)
      → sum_of (bill_of id) (record_provider_session l agent_id seq session).turns
        ≡ sum_of (bill_of id) l.turns
  unfolding record_provider_session
  bill-session session = bill_same _ _ id l.turns (λ t r e. record { agent = refl; cost = refl }) ok

pub bill-append :
    (agent_id : String) (ts : List Turn) (t : Turn)
    → t.cost_micro_usd ≡ 0
    → sum_of (bill_of agent_id) (ts ++ t ∷ []) ≡ sum_of (bill_of agent_id) ts
unfolding sum_of
bill-append agent_id ts t h = ground (arith, sum-append (bill_of agent_id) ts (t ∷ []))

-- The settlement of the one row in flight adds its cost to its agent's bill and to no other.
pub bill-settled :
    (p : Turn → Bool) (f : Turn → Turn) (id agent_id : String) (cost : ℕ) (ts : List Turn)
    → ((t : Turn)
        → RowOk t
        → p t ≡ true
        → (t.agent_id ≡ agent_id)
          × (t.cost_micro_usd ≡ 0)
          × ((f t).agent_id ≡ agent_id)
          × ((f t).cost_micro_usd ≡ cost))
    → All RowOk ts
    → count_where p ts ≤ 1
    → sum_of (bill_of id) (update_where p f ts)
      ≡ sum_of (bill_of id) ts + (if one_row p ts && (agent_id == id) then cost else 0)
bill-settled p f id agent_id cost ts h ok one =
    let sum =
      sum-update_where RowOk p f (bill_of id) (if agent_id == id then cost else 0)
        (λ t r e. ground (arith, h t r e)) ts ok in
    elim (Bool-cases (one_row p ts)) [ inl e ↦ ground (arith, sum) | inr e ↦ ground (arith, sum) ]

pub bill-prune :
    (l : Ledger) (ok : All RowOk l.turns) (id : String) (cutoff : ℕ)
    → sum_of (bill_of id) (prune_turns l cutoff).0.turns ≡ sum_of (bill_of id) l.turns
unfolding prune_turns blanked
bill-prune l ok id cutoff =
    bill_same _ _ id l.turns (λ t r e. record { agent = refl; cost = refl }) ok
