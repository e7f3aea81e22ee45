-- ===== src/Ledger/History.antt =====
-- The history of the turns: rows are added at the end, move forward, and once they have settled only
-- lose their text, to a pruning.
use ciacola.Base.{
  none, ap, max, ℕ, String, ◌≡◌, refl, subst, ◌∙◌, Bool, true, false, Option, some, List, [], ◌∷◌,
  ◌++◌, arith, Bool-cases, inl, inr,
}
use ciacola.Base.Table.{update_where, find_where}
use ciacola.Ledger.Rows.{Turn, Ledger, TurnState, is_in_flight}
use ciacola.Ledger.Turns.{is_turn}
use ciacola.Ledger.Prune.{blank_reply}
use ciacola.Ledger.Operations.{Op, apply}
use ciacola.Ledger.Writes.{Advances, Advances-refl, Frozen, Frozen-refl}
use ciacola.Ledger.Trace.{Write, nothing, one_more, updated, row_update, apply-Write, pruned_before}

pub data Evolves (cutoff : ℕ) : List Turn → List Turn → Type 0 where
  ended : Evolves cutoff [] []
  opened : (t : Turn) → t.state ≡ TurnState.queued → Evolves cutoff [] (t ∷ [])
  kept :
      (t t' : Turn) (ts ts' : List Turn)
      → Advances cutoff t t'
      → Evolves cutoff ts ts'
      → Evolves cutoff (t ∷ ts) (t' ∷ ts')

Evolves-refl : {cutoff : ℕ} → (ts : List Turn) → Evolves cutoff ts ts
Evolves-refl [] = ended
Evolves-refl (t ∷ ts) = kept t t ts ts (Advances-refl t) (Evolves-refl ts)

Evolves-append :
    {cutoff : ℕ}
    → (ts : List Turn) (t : Turn) → t.state ≡ TurnState.queued
    → Evolves cutoff ts (ts ++ t ∷ [])
Evolves-append [] t q = opened t q
Evolves-append (s ∷ ts) t q = kept s s ts (ts ++ t ∷ []) (Advances-refl s) (Evolves-append ts t q)

module _ {cutoff : ℕ} (p : Turn → Bool) (f : Turn → Turn)
    (h : (t : Turn) → p t ≡ true → Advances cutoff t (f t)) where
  Evolves-update_where : (ts : List Turn) → Evolves cutoff ts (update_where p f ts)
  unfolding update_where
  Evolves-update_where [] = ended
  Evolves-update_where (t ∷ ts) = elim (Bool-cases (p t)) [
    | inl e ↦ rw e (kept _ _ _ _ (h t e) (Evolves-update_where ts))
    | inr e ↦ rw e (kept _ _ _ _ (Advances-refl t) (Evolves-update_where ts))
  ]

Evolves-Write :
    {cutoff : ℕ} → (l : Ledger) (ts : List Turn) → Write cutoff l ts → Evolves cutoff l.turns ts
Evolves-Write l ts nothing = Evolves-refl l.turns
Evolves-Write l ts (one_more t _ _ q _) = Evolves-append l.turns t q
Evolves-Write l ts (updated _ (row_update p f h)) = Evolves-update_where p f h l.turns

pub apply-Evolves : (op : Op) (l : Ledger) → Evolves (pruned_before op) l.turns (apply op l).turns
apply-Evolves op l = Evolves-Write l (apply op l).turns (apply-Write op l)

-- a run of operations, the first of the list first
unfoldable pub run : List Op → Ledger → Ledger
run [] l = l
run (op ∷ ops) l = run ops (apply op l)

abbrev pub turn_at : String → ℕ → List Turn → Option Turn
turn_at agent_id seq ts = find_where (is_turn agent_id seq) ts

-- before when a turn has to be written for one of the operations to blank it
unfoldable pub all_pruned_before : List Op → ℕ
unfolding pruned_before
all_pruned_before [] = 0
all_pruned_before (op ∷ ops) = max (pruned_before op) (all_pruned_before ops)

blank_twice : (o : Option String) → blank_reply (blank_reply o) ≡ blank_reply o
blank_twice none = refl
blank_twice (some r) = refl

Frozen-trans : {a b : ℕ} → (r s t : Turn) → Frozen a r s → Frozen b s t → Frozen (max a b) r t
Frozen-trans {a} {b} r s t x y = record {
  state = y.state ∙ x.state;
  cost = y.cost ∙ x.cost;
  cost_state = y.cost_state ∙ x.cost_state;
  error = y.error ∙ x.error;
  settled = y.settled ∙ x.settled;
  failure = y.failure ∙ x.failure;
  written = y.written ∙ x.written;
  text = elim x.text [
    | inl (p, q) ↦ elim y.text [
      | inl (p', q') ↦ inl (p' ∙ p, q' ∙ q)
      | inr (old, p', q') ↦ inr (ground (arith, x.written), p', q' ∙ ap blank_reply q)
    ]
    | inr (old, p, q) ↦ elim y.text [
      | inl (p', q') ↦ inr (ground arith, p' ∙ p, q' ∙ q)
      | inr (old', p', q') ↦ inr (ground arith, p', q' ∙ ap blank_reply q ∙ blank_twice r.reply)
    ]
  ];
}

module _ (agent_id : String) (seq : ℕ) where
  pub is_turn_of_Advances :
      {cutoff : ℕ}
      → (t t' : Turn) → Advances cutoff t t'
      → is_turn agent_id seq t' ≡ is_turn agent_id seq t
  unfolding is_turn
  is_turn_of_Advances t t' a = rw (a.same_agent, a.same_seq) refl

  turn_at-Evolves :
      {cutoff : ℕ}
      → (ts ts' : List Turn) (t : Turn) → Evolves cutoff ts ts'
      → turn_at agent_id seq ts ≡ some t
      → is_in_flight t.state ≡ false
      → (t' : Turn) × (turn_at agent_id seq ts' ≡ some t') × Frozen cutoff t t'
  unfolding find_where
  turn_at-Evolves ts ts' t ended h k = cc
  turn_at-Evolves ts ts' t (opened _ _) h k = cc
  turn_at-Evolves {cutoff} ts ts' t (kept r r' rs rs' a e) h k =
      elim (Bool-cases (is_turn agent_id seq r)) [
        | inl x ↦
            let same : r ≡ t = ground arith in
            (
              r',
              ground (arith, is_turn_of_Advances r r' a),
              subst (λ s. Frozen cutoff s r') same (a.frozen (ground arith)),
            )
        | inr x ↦
            let (t', found, frozen) = turn_at-Evolves rs rs' t e (ground arith) k in
            (t', ground (arith, is_turn_of_Advances r r' a), frozen)
      ]

  pub run-Frozen :
      (ops : List Op) (l : Ledger) (t : Turn)
      → turn_at agent_id seq l.turns ≡ some t
      → is_in_flight t.state ≡ false
      → (t' : Turn) × (turn_at agent_id seq (run ops l).turns ≡ some t')
        × Frozen (all_pruned_before ops) t t'
  unfolding run all_pruned_before
  run-Frozen [] l t h k = (t, h, Frozen-refl t)
  run-Frozen (op ∷ ops) l t h k =
      let (s, at, a) = turn_at-Evolves l.turns (apply op l).turns t (apply-Evolves op l) h k in
      let (u, at', b) = run-Frozen ops (apply op l) s at (ground (arith, a.state)) in
      (u, at', Frozen-trans t s u a b)
