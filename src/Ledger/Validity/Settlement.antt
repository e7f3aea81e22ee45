-- ===== src/Ledger/Validity/Settlement.antt =====
-- `complete_turn` and `fail_exchange` write the row of the turn and the row of its agent together.
use ciacola.Base.{
  ℕ, ◌≤◌, String, ◌≡◌, refl, sym, Bool, true, false, ◌&&◌, ◌||◌, Option, arith, Bool-cases, inl,
  inr, All, eq_iff, ◌==◌, i64_max, if◌then◌else◌, ltb, is_some, saturated_i64,
}
use ciacola.Base.Table.{update_where, count_where, one_row, count_mono}
use ciacola.Agent.Exchange.{Exchange, exchange_cost}
use ciacola.Ledger.Rows.{Turn, Ledger, is_in_flight, is_running}
use ciacola.Ledger.Transitions.{Ending, completed, failed_exchange, old_terminal_provenance}
use ciacola.Ledger.Turns.{
  is_turn, is_agent, update_turns, rolled_up, roll_up_settled_turn, complete_turn, fail_exchange,
}
use ciacola.Ledger.Operations.{AgentOk, RowOk, IsValid}
use ciacola.Ledger.Writes.{Advances}
use ciacola.Ledger.Trace.{Advances-complete, Advances-fail}
use ciacola.Ledger.Validity.Turns.{flight-Write_le}
use ciacola.Ledger.Validity.Bills.{bill-settled}
use ciacola.Ledger.Validity.Accounts.{accounts-settled}

abbrev cost_of : Exchange → ℕ
cost_of x = saturated_i64 (exchange_cost x)

fits : (x : Exchange) → cost_of x ≤ i64_max
unfolding saturated_i64
fits x = ground arith

abbrev charge : Bool → Bool → Exchange → ℕ
charge recorded same x = if recorded && same then cost_of x else 0

-- The row of a turn of the agent, which has cost nothing, comes to cost what is given.
abbrev Charged : String → ℕ → Turn → Turn → Type 0
Charged agent_id cost t t' =
    (t.agent_id ≡ agent_id)
    × (t.cost_micro_usd ≡ 0)
    × (t'.agent_id ≡ agent_id)
    × (t'.cost_micro_usd ≡ cost)

module _ (agent_id : String) (seq : ℕ) (x : Exchange) (now : ℕ) (t : Turn) (r : RowOk t) where
  Charged-completed :
      is_turn agent_id seq t && is_running t.state ≡ true
      → Charged agent_id (cost_of x) t (old_terminal_provenance (completed x now t))
  unfolding completed old_terminal_provenance is_turn
  Charged-completed e = ground (arith, r.pending, eq_iff t.agent_id agent_id)

  Charged-failed :
      (ending : Ending) (error : String)
      → is_turn agent_id seq t && is_in_flight t.state ≡ true
      → Charged agent_id
          (cost_of x)
          t
          (old_terminal_provenance (failed_exchange ending error x now t))
  unfolding failed_exchange old_terminal_provenance is_turn
  Charged-failed ending error e = ground (arith, r.pending, eq_iff t.agent_id agent_id)

module _ (l : Ledger) (v : IsValid l) (agent_id : String) (seq : ℕ) where
  at_most_one : (q : Turn → Bool) → count_where (λ t. is_turn agent_id seq t && q t) l.turns ≤ 1
  at_most_one q = ground (
    arith,
    v.turns_unique agent_id seq,
    count_mono (λ t. is_turn agent_id seq t && q t) (is_turn agent_id seq) (λ t e. ground arith)
        l.turns,
  )

  -- The accounts after the row of the turn is charged, and its agent's rolled up if one row was.
  accounts_paid :
      (q : Turn → Bool) (f : Turn → Turn) (session : Option String) (x : Exchange) (recorded : Bool)
      → ((t : Turn) → is_turn agent_id seq t && q t ≡ true → Advances 0 t (f t))
      → ((t : Turn)
          → RowOk t
          → is_turn agent_id seq t && q t ≡ true
          → Charged agent_id (cost_of x) t (f t))
      → ((id : String)
          → charge (one_row (λ t. is_turn agent_id seq t && q t) l.turns) (agent_id == id) x
            ≡ charge recorded (agent_id == id) x)
      → All (AgentOk (update_where (λ t. is_turn agent_id seq t && q t) f l.turns)) (
          if recorded
          then update_where (is_agent agent_id) (rolled_up session (cost_of x) seq) l.agents
          else l.agents)
  accounts_paid q f session x recorded a c e =
      accounts-settled agent_id session seq (cost_of x) (fits x) l.turns
        (update_where (λ t. is_turn agent_id seq t && q t) f l.turns) l.agents recorded
        (flight-Write_le l _ f a)
        (λ id.
          rw (sym (e id))
            (bill-settled _ f id agent_id (cost_of x) l.turns c v.rows (at_most_one q)))
        v.agents_ok

  pub accounts_complete :
      (x : Exchange) (now : ℕ)
      → let l' = (complete_turn l agent_id seq x now).0 in All (AgentOk l'.turns) l'.agents
  unfolding complete_turn update_turns roll_up_settled_turn
  accounts_complete x now =
      let ok = accounts_paid (λ t. is_running t.state) _ x.session x in
      elim (Bool-cases
        (one_row (λ (t : Turn). is_turn agent_id seq t && is_running t.state) l.turns)) [
          | inl e ↦ rw e (
              ok true (Advances-complete l agent_id seq x now)
                (Charged-completed agent_id seq x now) (λ id. rw e refl))
          | inr e ↦ rw e (
              ok false (Advances-complete l agent_id seq x now)
                (Charged-completed agent_id seq x now) (λ id. rw e refl))
        ]

  pub accounts-fail :
      (ending : Ending) (error : String) (x : Exchange) (now : ℕ)
      → let l' = (fail_exchange l agent_id seq ending error x now).0 in
        All (AgentOk l'.turns) l'.agents
  unfolding fail_exchange update_turns roll_up_settled_turn
  accounts-fail ending error x now =
      let ok = accounts_paid (λ t. is_in_flight t.state) _ x.session x in
      elim (Bool-cases (
        one_row (λ (t : Turn). is_turn agent_id seq t && is_in_flight t.state) l.turns
        && (ltb 0 (cost_of x) || is_some x.session))) [
          | inl e ↦ rw e (
              ok true (Advances-fail l agent_id seq ending error x now)
                (λ t r. Charged-failed agent_id seq x now t r ending error) (λ id. ground arith))
          | inr e ↦ rw e (
              ok false (Advances-fail l agent_id seq ending error x now)
                (λ t r. Charged-failed agent_id seq x now t r ending error) (λ id. ground arith))
        ]
