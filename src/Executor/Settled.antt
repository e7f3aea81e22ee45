-- ===== src/Executor/Settled.antt =====
-- A delivery is a run of ledger operations, and leaves no turn running.
use ciacola.Base.{
  ℕ, String, ◌≡◌, refl, sym, ◌∙◌, ap, Option, none, some, List, [], ◌∷◌, ◌++◌, Result, ok, err,
  Bool-cases, inl, inr,
}
use ciacola.Agent.Exchange.{Exchange}
use ciacola.Agent.Run.{TurnEvent, resume_id, usage_snapshot, Launch}
use ciacola.Ledger.Rows.{Ledger}
use ciacola.Ledger.Transitions.{Ending}
use ciacola.Ledger.Turns.{claim_turn, abort_claimed_turn, complete_turn, fail_exchange}
use ciacola.Ledger.Operations.{
  Op, apply, claim, complete, fail, abort, snapshot, learn_session, assign,
}
use ciacola.Ledger.History.{run}
use ciacola.Executor.Load.{
  Setup, DispatchError, Loaded, load, open_session, Reads, read_all, is_rotating, prepare,
}
use ciacola.Executor.Deliver.{
  record_event, record_events, settle, outcome_of, run_provider, run_claimed_turn,
}

-- what a run of operations makes of a ledger
abbrev pub Ran : Ledger → Ledger → Type 0
Ran l l' = (ops : List Op) × (l' ≡ run ops l)

run-append : (a b : List Op) (l : Ledger) → run (a ++ b) l ≡ run b (run a l)
unfolding run
run-append [] b l = refl
run-append (op ∷ a) b l = run-append a b (apply op l)

pub Ran-refl : (l : Ledger) → Ran l l
unfolding run
Ran-refl l = ([], refl)

pub Ran-one : (op : Op) (l : Ledger) → Ran l (apply op l)
unfolding run
Ran-one op l = (op ∷ [], refl)

pub Ran-trans : (k l m : Ledger) → Ran k l → Ran l m → Ran k m
Ran-trans k l m (a, e) (b, f) = (a ++ b, f ∙ (ap (run b) e ∙ sym (run-append a b k)))

module _ (agent_id : String) (seq : ℕ) where
  pub Ran-record_event : (e : TurnEvent) (l : Ledger) → Ran l (record_event agent_id seq e l)
  unfolding record_event apply run
  Ran-record_event (resume_id id) l = (learn_session agent_id seq id ∷ [], refl)
  Ran-record_event (usage_snapshot u) l = (snapshot agent_id seq u ∷ [], refl)

  Ran-record_events : (es : List TurnEvent) (l : Ledger) → Ran l (record_events agent_id seq es l)
  unfolding record_events
  Ran-record_events [] l = Ran-refl l
  Ran-record_events (e ∷ es) l =
      Ran-trans l _ _ (Ran-record_event e l) (Ran-record_events es (record_event agent_id seq e l))

  pub Ran-settle :
      (now : ℕ) (r : Result String Exchange) (l : Ledger) → Ran l (settle agent_id seq now r l)
  unfolding settle apply run
  Ran-settle now (err e) l = (abort agent_id seq e now ∷ [], refl)
  Ran-settle now (ok x) l = settled x.error
    where
      settled :
          (o : Option String)
          → Ran l (elim o [
            | some error ↦ (fail_exchange l agent_id seq Ending.failed error x now).0
            | none ↦ (complete_turn l agent_id seq x now).0
          ])
      settled none = (complete agent_id seq x now ∷ [], refl)
      settled (some e) = (fail agent_id seq Ending.failed e x now ∷ [], refl)

  Ran-open_session :
      (next : String) (r : Reads) (l : Ledger)
      → Ran l (open_session l agent_id seq next r.agent r.turn r.mcp r.ceiling).0
  unfolding open_session apply run
  Ran-open_session next r l = elim (Bool-cases (is_rotating r.agent seq)) [
    | inl e ↦ rw e (assign agent_id next ∷ [], refl)
    | inr e ↦ rw e (Ran-refl l)
  ]

  pub Ran-load :
      (setup : Setup) (next : String) (l : Ledger) → Ran l (load setup l agent_id seq next).0
  unfolding load
  Ran-load setup next l = read (read_all setup l agent_id seq)
    where
      read :
          (o : Result DispatchError Reads)
          → Ran l
              (elim o as (λ o'. Ledger × Result DispatchError Loaded) [
                | err e ↦ (l, err e)
                | ok r ↦ open_session l agent_id seq next r.agent r.turn r.mcp r.ceiling
              ]).0
      read (err e) = Ran-refl l
      read (ok r) = Ran-open_session next r l

  pub Ran-prepare :
      (setup : Setup) (next : String) (l : Ledger) → Ran l (prepare setup l agent_id seq next).0
  unfolding prepare
  Ran-prepare setup next l = Ran-load setup next l

  pub Ran-run_provider :
      (setup : Setup) (now : ℕ) (x : Launch) (l : Ledger)
      → Ran l (run_provider setup agent_id seq now x l)
  unfolding run_provider
  Ran-run_provider setup now x l =
      let c = setup.world.conduct x.provider.key x.intent in
      Ran-trans l _ _ (Ran-record_events c.events l) (Ran-settle now (outcome_of setup x c) _)

  pub Ran-run_claimed_turn :
      (setup : Setup) (next : String) (now : ℕ) (l : Ledger)
      → Ran l (run_claimed_turn setup agent_id seq next now l)
  unfolding run_claimed_turn apply run
  Ran-run_claimed_turn setup next now l =
      Ran-trans l _ _ (Ran-prepare setup next l) (after (prepare setup l agent_id seq next).1)
    where
      l' : Ledger
      l' = (prepare setup l agent_id seq next).0

      after :
          (o : Result DispatchError Launch)
          → Ran l' (elim o as (λ o'. Ledger) [
            | err e ↦ (abort_claimed_turn l' agent_id seq (setup.sentence e) now).0
            | ok x ↦ run_provider setup agent_id seq now x l'
          ])
      after (err e) = (abort agent_id seq (setup.sentence e) now ∷ [], refl)
      after (ok x) = Ran-run_provider setup now x l'

  pub Ran-claim : (now_ms : ℕ) (l : Ledger) → Ran l (claim_turn l agent_id seq now_ms).0
  unfolding apply run
  Ran-claim now_ms l = (claim agent_id seq now_ms ∷ [], refl)

  pub Ran-abort :
      (error : String) (now : ℕ) (l : Ledger)
      → Ran l (abort_claimed_turn l agent_id seq error now).0
  unfolding apply run
  Ran-abort error now l = (abort agent_id seq error now ∷ [], refl)
