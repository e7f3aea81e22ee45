-- ===== src/Executor/Landed.antt =====
-- Every delivery of a claimed turn ends with the turn settled, whatever the checks, the provider and its
-- answer are.
use ciacola.Base.{
  ℕ, ◌/◌, String, ◌≡◌, refl, sym, subst, ◌∙◌, Bool, true, false, ◌&&◌, not, Option, none, some,
  List, [], ◌∷◌, if◌then◌else◌, Result, ok, err, arith, Bool-cases, inl, inr,
}
use ciacola.Base.Table.{update_where, find-update_where, find_where-some}
use ciacola.Agent.Exchange.{Exchange}
use ciacola.Agent.Run.{TurnEvent, resume_id, usage_snapshot, Launch}
use ciacola.Ledger.Rows.{Turn, Ledger, TurnState, is_in_flight, is_running, is_queued}
use ciacola.Ledger.Transitions.{
  Ending, old_terminal_provenance, completed, failed_exchange, aborted, observed, claimed,
}
use ciacola.Ledger.Turns.{
  is_turn, update_turns, claim_turn, abort_claimed_turn, complete_turn, fail_exchange,
  record_usage_snapshot, roll_up_settled_turn,
}
use ciacola.Ledger.Agents.{record_provider_session, assign_session}
use ciacola.Ledger.Operations.{Op, IsValid}
use ciacola.Ledger.History.{run, turn_at}
use ciacola.Ledger.Interruption.{seen}
use ciacola.Ledger.Once.{claim_turn_answer}
use ciacola.Ledger.Validity.Kept.{run-IsValid}
use ciacola.Executor.Load.{
  Setup, DispatchError, Loaded, Reads, load, read_all, open_session, is_rotating, prepare,
}
use ciacola.Executor.Deliver.{
  record_event, record_events, settle, outcome_of, run_provider, run_claimed_turn, run_turn,
}
use ciacola.Executor.Settled.{Ran-trans, Ran-claim, Ran-run_claimed_turn}

module _ (agent_id : String) (seq : ℕ) where
  -- the turn is in the ledger, in a state of the kind
  unfoldable pub Stands : (TurnState → Bool) → List Turn → Type 0
  Stands p ts = (t : Turn) × (turn_at agent_id seq ts ≡ some t) × (p t.state ≡ true)

  abbrev landed : TurnState → Bool
  landed s = not (is_in_flight s)

  updated_state :
      (q : Turn → Bool) (f : Turn → Turn) (p : TurnState → Bool) (l : Ledger) (ts : List Turn)
      (t : Turn)
      → ts ≡ update_where (λ s. is_turn agent_id seq s && q s) f l.turns
      → ((s : Turn) → is_turn agent_id seq (f s) ≡ is_turn agent_id seq s)
      → turn_at agent_id seq l.turns ≡ some t
      → p (if q t then f t else t).state ≡ true
      → Stands p ts
  unfolding Stands
  updated_state q f p l ts t e k found h =
      (if q t then f t else t, rw e (seen l agent_id seq t found q f k), h)

  Stands-record_event :
      (e : TurnEvent) (l : Ledger)
      → Stands is_running l.turns
      → Stands is_running (record_event agent_id seq e l).turns
  unfolding Stands record_event record_provider_session record_usage_snapshot observed is_turn
  Stands-record_event (resume_id id) l (t, found, r) = (
    record t { provider_session = some id },
    ground (
      arith,
      found,
      find_where-some (is_turn agent_id seq) l.turns t found,
      find-update_where (is_turn agent_id seq) (is_turn agent_id seq)
          (λ (s : Turn). record s { provider_session = some id }) (λ s _. refl) l.turns,
    ),
    r,
  )
  Stands-record_event (usage_snapshot u) l (t, found, r) =
      updated_state _ _ is_running l _ t refl (λ s. refl) found (ground arith)

  Stands-record_events :
      (es : List TurnEvent) (l : Ledger)
      → Stands is_running l.turns
      → Stands is_running (record_events agent_id seq es l).turns
  unfolding record_events
  Stands-record_events [] l h = h
  Stands-record_events (e ∷ es) l h =
      Stands-record_events es (record_event agent_id seq e l) (Stands-record_event e l h)

  Stands-complete :
      (x : Exchange) (now : ℕ) (l : Ledger)
      → Stands is_running l.turns
      → Stands landed (complete_turn l agent_id seq x now).0.turns
  unfolding Stands complete_turn update_turns roll_up_settled_turn completed old_terminal_provenance
      is_turn
  Stands-complete x now l (t, found, r) =
      updated_state (λ s. is_running s.state) (λ s. old_terminal_provenance (completed x now s))
        landed l _ t (ground arith) (λ s. ground arith) found (ground arith)

  Stands-fail :
      (error : String) (x : Exchange) (now : ℕ) (l : Ledger)
      → Stands is_running l.turns
      → Stands landed (fail_exchange l agent_id seq Ending.failed error x now).0.turns
  unfolding Stands fail_exchange update_turns roll_up_settled_turn failed_exchange
      old_terminal_provenance is_turn
  Stands-fail error x now l (t, found, r) =
      updated_state (λ s. is_in_flight s.state)
        (λ s. old_terminal_provenance (failed_exchange Ending.failed error x now s)) landed l _ t
        (ground arith) (λ s. ground arith) found (ground arith)

  Stands-abort :
      (error : String) (now : ℕ) (l : Ledger)
      → Stands is_running l.turns
      → Stands landed (abort_claimed_turn l agent_id seq error now).0.turns
  unfolding Stands abort_claimed_turn update_turns aborted old_terminal_provenance is_turn
  Stands-abort error now l (t, found, r) =
      updated_state (λ s. is_running s.state) _ landed l _ t refl (λ s. ground arith) found
        (ground arith)

  Stands-settle :
      (now : ℕ) (r : Result String Exchange) (l : Ledger)
      → Stands is_running l.turns
      → Stands landed (settle agent_id seq now r l).turns
  unfolding settle
  Stands-settle now (err e) l h = Stands-abort e now l h
  Stands-settle now (ok x) l h = by_error x.error
    where
      by_error :
          (o : Option String)
          → Stands landed (
              (elim o as (λ o'. Ledger) [
                | some error ↦ (fail_exchange l agent_id seq Ending.failed error x now).0
                | none ↦ (complete_turn l agent_id seq x now).0
              ]).turns)
      by_error none = Stands-complete x now l h
      by_error (some e) = Stands-fail e x now l h

  turns-open_session :
      (next : String) (r : Reads) (l : Ledger)
      → (open_session l agent_id seq next r.agent r.turn r.mcp r.ceiling).0.turns ≡ l.turns
  unfolding open_session assign_session
  turns-open_session next r l = elim (Bool-cases (is_rotating r.agent seq)) [
    | inl e ↦ rw e refl
    | inr e ↦ rw e refl
  ]

  turns-load :
      (setup : Setup) (next : String) (l : Ledger)
      → (load setup l agent_id seq next).0.turns ≡ l.turns
  unfolding load
  turns-load setup next l = read (read_all setup l agent_id seq)
    where
      read :
          (o : Result DispatchError Reads)
          → (elim o as (λ o'. Ledger × Result DispatchError Loaded) [
            | err e ↦ (l, err e)
            | ok r ↦ open_session l agent_id seq next r.agent r.turn r.mcp r.ceiling
          ]).0.turns
            ≡ l.turns
      read (err e) = refl
      read (ok r) = turns-open_session next r l

  Stands-run_provider :
      (setup : Setup) (now : ℕ) (x : Launch) (l : Ledger)
      → Stands is_running l.turns
      → Stands landed (run_provider setup agent_id seq now x l).turns
  unfolding run_provider
  Stands-run_provider setup now x l h =
      let c = setup.world.conduct x.provider.key x.intent in
      Stands-settle now (outcome_of setup x c) (record_events agent_id seq c.events l)
        (Stands-record_events c.events l h)

  Stands-run_claimed_turn :
      (setup : Setup) (next : String) (now : ℕ) (l : Ledger)
      → Stands is_running l.turns
      → Stands landed (run_claimed_turn setup agent_id seq next now l).turns
  unfolding run_claimed_turn prepare
  Stands-run_claimed_turn setup next now l h = after (prepare setup l agent_id seq next).1
    where
      l' : Ledger
      l' = (prepare setup l agent_id seq next).0

      h' : Stands is_running l'.turns
      h' = subst (Stands is_running) (sym (turns-load setup next l)) h

      after :
          (o : Result DispatchError Launch)
          → Stands landed (
              (elim o as (λ o'. Ledger) [
                | err e ↦ (abort_claimed_turn l' agent_id seq (setup.sentence e) now).0
                | ok x ↦ run_provider setup agent_id seq now x l'
              ]).turns)
      after (err e) = Stands-abort (setup.sentence e) now l' h'
      after (ok x) = Stands-run_provider setup now x l' h'

  pub Stands-claim :
      (now_ms : ℕ) (l : Ledger) (t : Turn)
      → turn_at agent_id seq l.turns ≡ some t
      → is_queued t.state ≡ true
      → Stands is_running (claim_turn l agent_id seq now_ms).0.turns
  unfolding claim_turn update_turns claimed old_terminal_provenance is_turn
  Stands-claim now_ms l t found q =
      updated_state (λ s. is_queued s.state) (λ s. old_terminal_provenance (claimed now_ms s))
        is_running l _ t refl (λ s. ground arith) found (ground arith)

  -- A turn that is queued in a valid ledger has settled after a delivery that nobody interferes with,
  -- whether the checks refuse it, the provider answers, fails or fails with an account, and whatever it
  -- reports on the way. The delivery is a run of ledger operations, so the ledger stays valid.
  pub run_turn-settles :
      (setup : Setup) (next : String) (now_ms : ℕ) (l : Ledger) (t : Turn)
      → IsValid l
      → turn_at agent_id seq l.turns ≡ some t
      → is_queued t.state ≡ true
      → let l' = run_turn setup agent_id seq next now_ms l in
        ((ops : List Op) × (l' ≡ run ops l))
        × IsValid l'
        × ((t' : Turn) × (turn_at agent_id seq l'.turns ≡ some t')
            × (is_in_flight t'.state ≡ false))
  unfolding run_turn Stands
  run_turn-settles setup next now_ms l t v found q =
      let answer : (claim_turn l agent_id seq now_ms).1 ≡ true =
        claim_turn_answer l v agent_id seq t found now_ms ∙ q in
      let l1 = (claim_turn l agent_id seq now_ms).0 in
      let l2 = run_claimed_turn setup agent_id seq next (now_ms / 1000) l1 in
      let (ops, e) =
        Ran-trans l l1 l2 (Ran-claim agent_id seq now_ms l)
          (Ran-run_claimed_turn agent_id seq setup next (now_ms / 1000) l1) in
      let (t', found', h) =
        Stands-run_claimed_turn setup next (now_ms / 1000) l1 (Stands-claim now_ms l t found q) in
      rw answer ((ops, e), subst IsValid (sym e) (run-IsValid ops l v), (t', found', ground arith))
