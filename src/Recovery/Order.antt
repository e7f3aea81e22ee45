-- ===== src/Recovery/Order.antt =====
-- The order of the keys of the turns that a recovery works through and submits: by agent, then by
-- number.
use Prim.Native.Nat.{Ordering}
use Prim.Native.String.{compare}
use text.Mathlib.Text.{is_lt}
use text.Mathlib.TextEquality.{path_by_compare}
use ciacola.Base.{
  ℕ, ◌≤◌, ◌≡◌, refl, sym, ◌∙◌, ap, String, Bool, true, false, ◌⊎◌, inl, inr, List, [], ◌∷◌, arith,
  Bool-cases, eq_iff, ◌==◌, eqb, ◌&&◌,
}
use ciacola.Base.Table.{count_where, select_where}
use ciacola.Base.TextOrder.{reversed, reversed-texts}
use ciacola.Ledger.Rows.{Turn, TurnState}
use ciacola.Ledger.Turns.{is_turn}
use ciacola.Recovery.Recover.{before, insert_turn, sort_turns, keys_of}

-- the first key comes before the second one, or is the same
abbrev pub InOrder : String × ℕ → String × ℕ → Type 0
InOrder a b = (compare a.0 b.0 ≡ Ordering.lt) ⊎ ((a.0 ≡ b.0) × (a.1 ≤ b.1))

abbrev pub Leads : String × ℕ → List (String × ℕ) → Type 0
Leads k [] = Unit
Leads k (j ∷ ks) = InOrder k j

abbrev pub IsSorted : List (String × ℕ) → Type 0
IsSorted [] = Unit
IsSorted (k ∷ ks) = Leads k ks × IsSorted ks

-- the keys of two turns
abbrev key : Turn → String × ℕ
key t = (t.agent_id, t.seq)

InOrder-before : (t u : Turn) → before t u ≡ true → InOrder (key t) (key u)
unfolding before
InOrder-before t u h = elim (Bool-cases (is_lt (compare t.agent_id u.agent_id))) [
  | inl e ↦ inl (ground arith)
  | inr e ↦ inr (ground (arith, eq_iff t.agent_id u.agent_id), ground arith)
]

-- three answers of a comparison
by_answer :
    (t u : Turn) (o : Ordering)
    → compare t.agent_id u.agent_id ≡ o
    → before t u ≡ false
    → InOrder (key u) (key t)
unfolding before
by_answer t u Ordering.lt e h = absurd (ground arith)
by_answer t u Ordering.eq e h =
    let same = path_by_compare t.agent_id u.agent_id e in
    inr (sym same, ground (arith, eq_iff t.agent_id u.agent_id))
by_answer t u Ordering.gt e h = inl (reversed-texts t.agent_id u.agent_id ∙ ap reversed e)

Leads-insert :
    (k : String × ℕ) (t : Turn) (ts : List Turn)
    → InOrder k (key t)
    → Leads k (keys_of ts)
    → Leads k (keys_of (insert_turn t ts))
unfolding insert_turn
Leads-insert k t [] h g = h
Leads-insert k t (u ∷ us) h g = elim (Bool-cases (before t u)) [ inl e ↦ rw e h | inr e ↦ rw e g ]

IsSorted-insert :
    (t : Turn) (ts : List Turn) → IsSorted (keys_of ts) → IsSorted (keys_of (insert_turn t ts))
unfolding insert_turn
IsSorted-insert t [] h = (tt, tt)
IsSorted-insert t (u ∷ us) h = elim (Bool-cases (before t u)) [
  | inl e ↦ rw e (InOrder-before t u e, h)
  | inr e ↦ rw e (Leads-insert (key u) t us (by_answer t u _ refl e) h.0, IsSorted-insert t us h.1)
]

pub sort_turns-IsSorted : (ts : List Turn) → IsSorted (keys_of (sort_turns ts))
unfolding sort_turns
sort_turns-IsSorted [] = tt
sort_turns-IsSorted (t ∷ ts) = IsSorted-insert t (sort_turns ts) (sort_turns-IsSorted ts)

-- how often the keys have the one given
unfoldable pub copies : String → ℕ → List (String × ℕ) → ℕ
copies agent_id seq ks = count_where (λ (k : String × ℕ). k.0 == agent_id && eqb k.1 seq) ks

copies-insert :
    (agent_id : String) (seq : ℕ) (t : Turn) (ts : List Turn)
    → copies agent_id seq (keys_of (insert_turn t ts)) ≡ copies agent_id seq (key t ∷ keys_of ts)
unfolding insert_turn copies count_where
copies-insert agent_id seq t [] = refl
copies-insert agent_id seq t (u ∷ us) = ground (arith, copies-insert agent_id seq t us)

-- Sorting keeps every turn.
pub copies-sort :
    (agent_id : String) (seq : ℕ) (ts : List Turn)
    → copies agent_id seq (keys_of (sort_turns ts)) ≡ copies agent_id seq (keys_of ts)
unfolding sort_turns copies count_where
copies-sort agent_id seq [] = refl
copies-sort agent_id seq (t ∷ ts) =
    copies-insert agent_id seq t (sort_turns ts) ∙ ground (arith, copies-sort agent_id seq ts)

pub copies-select :
    (agent_id : String) (seq : ℕ) (q : TurnState → Bool) (ts : List Turn)
    → copies agent_id seq (keys_of (select_where (λ (t : Turn). q t.state) ts))
      ≡ count_where (λ (t : Turn). q t.state && is_turn agent_id seq t) ts
unfolding copies count_where select_where is_turn
copies-select agent_id seq q [] = refl
copies-select agent_id seq q (t ∷ ts) = ground (arith, copies-select agent_id seq q ts)
