-- ===== src/Ledger/Validity/Turns.antt =====
-- The parts of the invariant that speak of the turns alone, kept by any write.
use ciacola.Base.{
  ℕ, ◌≤◌, ◌<◌, String, ◌≡◌, refl, Bool, true, List, [], ◌∷◌, arith, All, All-append, eq_iff,
}
use ciacola.Base.Table.{
  update_where, count_where, All-update_where, count-update_where_other, count-update_where_le,
  count-append, exists_where-false,
}
use ciacola.Ledger.Rows.{Turn, Ledger}
use ciacola.Ledger.Turns.{is_turn, flies_for, last_seq, may_insert}
use ciacola.Ledger.Operations.{RowOk}
use ciacola.Ledger.Writes.{Advances}
use ciacola.Ledger.History.{is_turn_of_Advances}
use ciacola.Ledger.Trace.{Write, nothing, one_more, updated, Update, row_update}

pub rows-Write :
    {cutoff : ℕ}
    → (l : Ledger) (ts : List Turn) → Write cutoff l ts
    → All RowOk l.turns
    → All RowOk ts
rows-Write l ts nothing h = h
rows-Write l ts (one_more t _ _ _ r) h = All-append RowOk l.turns (t ∷ []) h (r, tt)
rows-Write l ts (updated _ (row_update p f a)) h =
    All-update_where RowOk p f (λ t r e. (a t e).sound r) l.turns h

pub beyond_last :
    (agent_id : String) (seq : ℕ) (ts : List Turn)
    → last_seq agent_id ts < seq
    → count_where (is_turn agent_id seq) ts ≡ 0
unfolding last_seq count_where is_turn
beyond_last agent_id seq [] h = refl
beyond_last agent_id seq (t ∷ ts) h = ground (arith, beyond_last agent_id seq ts)

pub turns_unique-Write :
    {cutoff : ℕ}
    → (l : Ledger) (ts : List Turn) → Write cutoff l ts
    → (agent_id : String) (seq : ℕ) → count_where (is_turn agent_id seq) l.turns ≤ 1
    → count_where (is_turn agent_id seq) ts ≤ 1
unfolding count_where is_turn
turns_unique-Write l ts nothing agent_id seq h = h
turns_unique-Write l ts (one_more t _ s _ _) agent_id seq h = ground (
  arith,
  count-append (is_turn agent_id seq) l.turns (t ∷ []),
  eq_iff t.agent_id agent_id,
  beyond_last t.agent_id seq l.turns,
)
turns_unique-Write l ts (updated _ (row_update p f a)) agent_id seq h =
    rw
      (count-update_where_other p f (is_turn agent_id seq)
        (λ t e. is_turn_of_Advances agent_id seq t (f t) (a t e)) l.turns)
      h

flies_before :
    {cutoff : ℕ}
    → (agent_id : String) (t t' : Turn) → Advances cutoff t t'
    → flies_for agent_id t' ≡ true
    → flies_for agent_id t ≡ true
unfolding flies_for
flies_before agent_id t t' a h = ground (arith, a.same_agent, a.forward)

pub flight-Write_le :
    {cutoff : ℕ}
    → (l : Ledger) (p : Turn → Bool) (f : Turn → Turn)
    → ((t : Turn) → p t ≡ true → Advances cutoff t (f t))
    → (agent_id : String)
    → count_where (flies_for agent_id) (update_where p f l.turns)
      ≤ count_where (flies_for agent_id) l.turns
flight-Write_le l p f a agent_id =
    count-update_where_le p f (flies_for agent_id) (λ t e. flies_before agent_id t (f t) (a t e))
      l.turns

pub idle_of_may_insert :
    (l : Ledger) (agent_id : String)
    → may_insert l agent_id ≡ true
    → count_where (flies_for agent_id) l.turns ≡ 0
unfolding may_insert
idle_of_may_insert l agent_id h = ground (arith, exists_where-false (flies_for agent_id) l.turns)

pub single_flight-Write :
    {cutoff : ℕ}
    → (l : Ledger) (ts : List Turn) → Write cutoff l ts
    → (agent_id : String) → count_where (flies_for agent_id) l.turns ≤ 1
    → count_where (flies_for agent_id) ts ≤ 1
unfolding count_where flies_for
single_flight-Write l ts nothing agent_id h = h
single_flight-Write l ts (one_more t m _ _ _) agent_id h = ground (
  arith,
  count-append (flies_for agent_id) l.turns (t ∷ []),
  eq_iff t.agent_id agent_id,
  idle_of_may_insert l t.agent_id m,
)
single_flight-Write l ts (updated _ (row_update p f a)) agent_id h =
    ground (arith, flight-Write_le l p f a agent_id)

-- An update puts no turn in flight.
pub flight-Update :
    {cutoff : ℕ}
    → (l : Ledger) (ts : List Turn) → Update cutoff l ts
    → (agent_id : String)
    → count_where (flies_for agent_id) ts ≤ count_where (flies_for agent_id) l.turns
flight-Update l ts (row_update p f a) agent_id = flight-Write_le l p f a agent_id
