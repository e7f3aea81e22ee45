-- ===== src/Executor/System/Taken.antt =====
-- A turn that has been claimed stays so, and its claim is not won again.
use ciacola.Base.{
  ℕ, ◌≤◌, String, ◌≡◌, sym, ◌∙◌, subst, Bool, true, false, some, List, [], ◌∷◌, arith, Bool-cases,
  inl, inr, Option-cases,
}
use ciacola.Base.Table.{find_where, find_where-none, no_more}
use ciacola.Ledger.Rows.{Turn, Ledger, TurnState, is_queued, is_in_flight}
use ciacola.Ledger.Turns.{is_turn, claim_turn, update_turns}
use ciacola.Ledger.Operations.{Op, apply, IsValid}
use ciacola.Ledger.Writes.{Advances, rank}
use ciacola.Ledger.History.{
  Evolves, ended, opened, kept, apply-Evolves, run, turn_at, is_turn_of_Advances,
}
use ciacola.Ledger.Once.{claim_turn_answer}
use ciacola.Ledger.Validity.Kept.{run-IsValid}
use ciacola.Executor.Settled.{Ran}
use ciacola.Executor.Landed.{Stands, Stands-claim}
use ciacola.Executor.System.{Key}

-- the turn is in the ledger, in a state that is not of the kind
unfoldable pub Past : (TurnState → Bool) → Key → Ledger → Type 0
Past p k l = (t : Turn) × (turn_at k.0 k.1 l.turns ≡ some t) × (p t.state ≡ false)

abbrev pub Taken : Key → Ledger → Type 0
Taken = Past is_queued

-- it has settled
abbrev pub Over : Key → Ledger → Type 0
Over = Past is_in_flight

module _ (agent_id : String) (seq : ℕ) where
  found-Evolves :
      {cutoff : ℕ}
      → (ts ts' : List Turn) (t : Turn) → Evolves cutoff ts ts'
      → turn_at agent_id seq ts ≡ some t
      → (t' : Turn) × (turn_at agent_id seq ts' ≡ some t') × Advances cutoff t t'
  unfolding find_where
  found-Evolves ts ts' t ended h = cc
  found-Evolves ts ts' t (opened _ _) h = cc
  found-Evolves {cutoff} ts ts' t (kept r r' rs rs' a e) h =
      elim (Bool-cases (is_turn agent_id seq r)) [
        | inl x ↦
            let same : r ≡ t = ground arith in
            (
              r',
              ground (arith, is_turn_of_Advances agent_id seq r r' a),
              subst (λ s. Advances cutoff s r') same a,
            )
        | inr x ↦
            let (t', found, b) = found-Evolves rs rs' t e (ground arith) in
            (t', ground (arith, is_turn_of_Advances agent_id seq r r' a), b)
      ]

-- a kind that a turn does not come back to
module _ (p : TurnState → Bool)
    (later : (s s' : TurnState) → rank s ≤ rank s' → p s ≡ false → p s' ≡ false) where
  Past-run : (k : Key) (ops : List Op) (l : Ledger) → Past p k l → Past p k (run ops l)
  unfolding run Past
  Past-run k [] l h = h
  Past-run k (op ∷ ops) l (t, found, q) =
      let (t', found', a) =
        found-Evolves k.0 k.1 l.turns (apply op l).turns t (apply-Evolves op l) found in
      Past-run k ops (apply op l) (t', found', later t.state t'.state a.forward q)

  Past-Ran : (k : Key) (l l' : Ledger) → Ran l l' → Past p k l → Past p k l'
  Past-Ran k l l' (ops, e) h = subst (Past p k) (sym e) (Past-run k ops l h)

pub Taken-Ran : (k : Key) (l l' : Ledger) → Ran l l' → Taken k l → Taken k l'
Taken-Ran = Past-Ran is_queued (λ s s' h q. ground arith)

pub Over-Ran : (k : Key) (l l' : Ledger) → Ran l l' → Over k l → Over k l'
Over-Ran = Past-Ran is_in_flight (λ s s' h q. ground arith)

pub IsValid-Ran : (l l' : Ledger) → Ran l l' → IsValid l → IsValid l'
IsValid-Ran l l' (ops, e) v = subst IsValid (sym e) (run-IsValid ops l v)

module _ (k : Key) (l : Ledger) (v : IsValid l) (now_ms : ℕ)
    (won : (claim_turn l k.0 k.1 now_ms).1 ≡ true) where
  -- a claim that is won was not won before
  pub not-Taken : ¬ (Taken k l)
  unfolding Past
  not-Taken (t, found, q) = let a = claim_turn_answer l v k.0 k.1 t found now_ms in cc

  pub Taken-win : Taken k (claim_turn l k.0 k.1 now_ms).0
  unfolding Past claim_turn update_turns Stands
  Taken-win = elim (Option-cases (turn_at k.0 k.1 l.turns)) [
    | inl e ↦ absurd (
        ground (
          arith,
          find_where-none (is_turn k.0 k.1) l.turns e,
          no_more (is_turn k.0 k.1) (λ t. is_queued t.state) l.turns,
        ))
    | inr (t, found) ↦
        let q = sym (claim_turn_answer l v k.0 k.1 t found now_ms) ∙ won in
        let (t', found', r) = Stands-claim k.0 k.1 now_ms l t found q in (t', found', ground arith)
  ]
