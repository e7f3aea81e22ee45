-- ===== src/Admission/Admit/Effect.antt =====
-- What `admit_turn` leaves in the ledger, and what execution then makes of it.
use ciacola.Base.{
  ℕ, ◌+◌, String, ◌≡◌, refl, ◌∙◌, true, false, not, ◌&&◌, none, some, List, [], ◌∷◌, ◌++◌, arith,
  inl, inr, Bool-cases, Option-cases, Result, ok, err, ap, ==_self,
}
use ciacola.Base.Table.{
  find_where, exists_where, find-append, count_of_found, count_where, exists_where-false,
}
use ciacola.Ledger.Rows.{Turn, Agent, Ledger, TurnState}
use ciacola.Ledger.Turns.{
  get_agent, is_agent, is_turn, flies_for, last_seq, may_insert, new_turn, guarded_insert,
}
use ciacola.Ledger.History.{turn_at}
use ciacola.Ledger.Validity.Turns.{beyond_last}
use ciacola.Limits.Config.{Limits}
use ciacola.Limits.Protection.{as_str}
use ciacola.Admission.Report.{AdmissionError}
use ciacola.Admission.Admit.{
  AdmissionAuthority, AdmissionDecision, admitted, Plan, Refusal, outcome, finish, decide,
  admit_turn,
}
use ciacola.Admission.Admit.Fence.{decide-Reached}

-- a working agent that is found is one that may take a turn
works_of_found :
    (id : String) (agents : List Agent) (a : Agent)
    → find_where (is_agent id) agents ≡ some a
    → a.retired ≡ false
    → exists_where (λ (b : Agent). is_agent id b && not b.retired) agents ≡ true
unfolding find_where exists_where
works_of_found id [] a f r = cc
works_of_found id (b ∷ agents) a f r = elim (Bool-cases (is_agent id b)) [
  | inl e ↦
      let same : b ≡ a = ground arith in
      let works : b.retired ≡ false = ap (λ (x : Agent). x.retired) same ∙ r in ground arith
  | inr e ↦ ground (arith, works_of_found id agents a)
]

module _ (l : Ledger) (limits : Limits) (authority : AdmissionAuthority)
    (agent_id prompt source : String) (now : ℕ) where
  may_insert_of_decide :
      (p : Plan)
      → decide l limits authority agent_id source now ≡ ok p
      → may_insert l agent_id ≡ true
  unfolding may_insert get_agent
  may_insert_of_decide p h =
      let r = decide-Reached l limits authority agent_id source now p h in
      ground (
        arith,
        works_of_found agent_id l.agents r.agent r.listed r.working,
        exists_where-false (flies_for agent_id) l.turns,
        r.idle,
      )

  -- A decision that refuses, or fails, leaves the ledger as it was, and is returned.
  pub admit_turn-refused :
      (r : Refusal)
      → decide l limits authority agent_id source now ≡ err r
      → admit_turn l limits authority agent_id prompt source now ≡ (l, outcome r)
  unfolding admit_turn finish
  admit_turn-refused r h = ap (finish l agent_id prompt now) h

  finished :
      (p : Plan)
      → may_insert l agent_id ≡ true
      → finish l agent_id prompt now (ok p) ≡ (
        record l {
          turns =
              l.turns
              ++ new_turn agent_id
                  (last_seq agent_id l.turns + 1)
                  prompt
                  now
                  p.provider
                  p.admission_override
                  (as_str p.turn_protection.state)
                  p.turn_protection
                ∷ [];
        },
        ok (admitted (last_seq agent_id l.turns + 1) p),
      )
  unfolding finish guarded_insert
  finished p m = rw m refl

  inserted :
      (p : Plan)
      → decide l limits authority agent_id source now ≡ ok p
      → admit_turn l limits authority agent_id prompt source now ≡ (
        record l {
          turns =
              l.turns
              ++ new_turn agent_id
                  (last_seq agent_id l.turns + 1)
                  prompt
                  now
                  p.provider
                  p.admission_override
                  (as_str p.turn_protection.state)
                  p.turn_protection
                ∷ [];
        },
        ok (admitted (last_seq agent_id l.turns + 1) p),
      )
  unfolding admit_turn
  inserted p h = ap (finish l agent_id prompt now) h ∙ finished p (may_insert_of_decide p h)

  nothing_beyond : (ts : List Turn) → turn_at agent_id (last_seq agent_id ts + 1) ts ≡ none
  nothing_beyond ts = elim (Option-cases (turn_at agent_id (last_seq agent_id ts + 1) ts)) [
    | inl e ↦ e
    | inr (t, e) ↦ absurd (
        omega (
          arith,
          count_of_found (is_turn agent_id (last_seq agent_id ts + 1)) ts t e,
          beyond_last agent_id (last_seq agent_id ts + 1) ts (omega arith),
        ))
  ]

  at_end :
      (ts : List Turn) (t : Turn)
      → turn_at agent_id (last_seq agent_id l.turns + 1) ts ≡ none
      → is_turn agent_id (last_seq agent_id l.turns + 1) t ≡ true
      → turn_at agent_id (last_seq agent_id l.turns + 1) (ts ++ t ∷ []) ≡ some t
  unfolding find_where
  at_end ts t e k =
      ground (arith, find-append (is_turn agent_id (last_seq agent_id l.turns + 1)) ts (t ∷ []))

  -- A decision to admit always writes the turn, and nothing else: its agent, which works and had no turn
  -- in flight, gets one more, at the end and under the next number, that is queued with the prompt and
  -- carries the agent's provider and the protection and the exception that the decision froze; and
  -- `admit_turn` returns that number and the decision.
  pub admit_turn-admitted :
      (p : Plan)
      → decide l limits authority agent_id source now ≡ ok p
      → let seq = last_seq agent_id l.turns + 1 in
        let (l', answer) = admit_turn l limits authority agent_id prompt source now in
        (answer ≡ ok (admitted seq p))
        × (turn_at agent_id seq l.turns ≡ none)
        × (count_where (flies_for agent_id) l.turns ≡ 0)
        × ((a : Agent) × (t : Turn) × (get_agent l agent_id ≡ some a)
            × (a.retired ≡ false)
            × (l' ≡ record l { turns = l.turns ++ t ∷ [] })
            × (turn_at agent_id seq l'.turns ≡ some t)
            × (t.prompt ≡ prompt)
            × (t.state ≡ TurnState.queued)
            × (t.provider ≡ a.def.provider)
            × (t.turn_protection ≡ some p.turn_protection)
            × (t.turn_protection_state ≡ as_str p.turn_protection.state)
            × (t.admission_override ≡ p.admission_override))
  unfolding new_turn is_turn
  admit_turn-admitted p h =
      let e = inserted p h in
      let r = decide-Reached l limits authority agent_id source now p h in
      let free = nothing_beyond l.turns in
      let t =
        new_turn agent_id (last_seq agent_id l.turns + 1) prompt now p.provider p.admission_override
          (as_str p.turn_protection.state) p.turn_protection in
      (
        ap (λ (r : Ledger × Result AdmissionError AdmissionDecision). r.1) e,
        free,
        r.idle,
        (
          r.agent,
          t,
          r.listed,
          r.working,
          ap (λ (r : Ledger × Result AdmissionError AdmissionDecision). r.0) e,
          ap
                (λ (r : Ledger × Result AdmissionError AdmissionDecision).
                  turn_at agent_id (last_seq agent_id l.turns + 1) r.0.turns)
                e
              ∙ at_end l.turns t free (ground (arith, ==_self agent_id)),
          refl,
          refl,
          r.for_provider,
          refl,
          refl,
          refl,
        ),
      )
