-- ===== src/RepoWorker/Journey/Steps.antt =====
-- The move that each statement makes.
use ciacola.Base.{ℕ, String, ◌≡◌, refl, ◌||◌, Bool, true, Option, arith, inl, inr, ok, not}
use ciacola.RepoWorker.Assignment.{
  AssignmentState, preparing, active, finishing, retained, completed, stale, Assignment,
}
use ciacola.RepoWorker.Statements.{
  Table, is_owner, is_preparing, is_finishing, set_base, set_phase, set_base_head, activate,
  mark_stale, terminal,
}
use ciacola.RepoWorker.Finish.{
  state_eq, may_finish, restore_after_busy, begin_publication, record_branch_pushed,
  publication_failed, GhPr, record_pr_observation,
}
use ciacola.RepoWorker.Journey.{
  may_become, may_become_refl, preparing_of, Granted, Granted-update_one,
}

-- a test of states that all may become the one given
abbrev Leads : (AssignmentState → Bool) → AssignmentState → Type 0
Leads q to = (s : AssignmentState) → (not (q s) || may_become s to) ≡ true

preparing_active : Leads is_preparing active
unfolding may_become
preparing_active preparing = refl
preparing_active active = refl
preparing_active finishing = refl
preparing_active retained = refl
preparing_active completed = refl
preparing_active stale = refl

owner_stale : Leads is_owner stale
unfolding may_become
owner_stale preparing = refl
owner_stale active = refl
owner_stale finishing = refl
owner_stale retained = refl
owner_stale completed = refl
owner_stale stale = refl

finishing_on : (to : AssignmentState) → may_become finishing to ≡ true → Leads is_finishing to
finishing_on to h preparing = refl
finishing_on to h active = refl
finishing_on to h finishing = h
finishing_on to h retained = refl
finishing_on to h completed = refl
finishing_on to h stale = refl

pub state_eq-true : (s t : AssignmentState) → state_eq s t ≡ true → s ≡ t
state_eq-true preparing preparing h = refl
state_eq-true active active h = refl
state_eq-true finishing finishing h = refl
state_eq-true retained retained h = refl
state_eq-true completed completed h = refl
state_eq-true stale stale h = refl
state_eq-true _ _ h = cc

may_finish-startable :
    (s : AssignmentState)
    → state_eq s active || state_eq s retained || state_eq s stale ≡ true
    → may_become s finishing ≡ true
unfolding may_become
may_finish-startable preparing h = cc
may_finish-startable active h = refl
may_finish-startable finishing h = refl
may_finish-startable retained h = refl
may_finish-startable completed h = cc
may_finish-startable stale h = refl

pub startable :
    (a : Assignment) (keep : Bool) → may_finish a keep ≡ true → may_become a.state finishing ≡ true
unfolding may_finish
startable a keep h = may_finish-startable a.state (ground arith)

module _ (t t' : Table) where
  pub Granted-set_base :
      (id base : String) (now : ℕ) → set_base id base now t ≡ ok t' → Granted t t'
  unfolding set_base
  Granted-set_base id base now =
      Granted-update_one _ _ t t'
        (λ a h. record { state = may_become_refl a.state; same = refl; agent = inr refl })

  pub Granted-set_phase :
      (id phase : String) (now : ℕ) → set_phase id phase now t ≡ ok t' → Granted t t'
  unfolding set_phase
  Granted-set_phase id phase now =
      Granted-update_one _ _ t t'
        (λ a h. record { state = may_become_refl a.state; same = refl; agent = inr refl })

  pub Granted-set_base_head :
      (id head : String) (now : ℕ) → set_base_head id head now t ≡ ok t' → Granted t t'
  unfolding set_base_head
  Granted-set_base_head id head now =
      Granted-update_one _ _ t t'
        (λ a h. record { state = may_become_refl a.state; same = refl; agent = inr refl })

  pub Granted-activate :
      (id agent_id head : String) (now : ℕ) → activate id agent_id head now t ≡ ok t' → Granted t t'
  unfolding activate
  Granted-activate id agent_id head now = Granted-update_one _ _ t t' (λ a h. record {
    state = ground (arith, preparing_active a.state);
    same = refl;
    agent = inl (preparing_of a.state (ground arith), refl, λ e. cc);
  })

  pub Granted-mark_stale :
      (id phase error : String) (now : ℕ) → mark_stale id phase error now t ≡ ok t' → Granted t t'
  unfolding mark_stale
  Granted-mark_stale id phase error now =
      Granted-update_one _ _ t t' (λ a h. record {
        state = ground (arith, owner_stale a.state);
        same = refl;
        agent = inr refl;
      })

  pub Granted-terminal :
      (id : String) (to : AssignmentState) (phase : String) (error : Option String) (now : ℕ)
      → may_become finishing to ≡ true
      → terminal id to phase error now t ≡ ok t'
      → Granted t t'
  unfolding terminal
  Granted-terminal id to phase error now m = Granted-update_one _ _ t t' (λ a h. record {
    state = ground (arith, finishing_on to m a.state);
    same = refl;
    agent = inr refl;
  })

  pub Granted-restore :
      (b : Assignment) (now : ℕ)
      → may_become finishing b.state ≡ true
      → restore_after_busy b now t ≡ ok t'
      → Granted t t'
  unfolding restore_after_busy
  Granted-restore b now m = Granted-update_one _ _ t t' (λ a h. record {
    state = ground (arith, finishing_on b.state m a.state);
    same = refl;
    agent = inr refl;
  })

  pub Granted-begin_publication :
      (id head : String) (now : ℕ) → begin_publication id head now t ≡ ok t' → Granted t t'
  unfolding begin_publication
  Granted-begin_publication id head now =
      Granted-update_one _ _ t t'
        (λ a h. record { state = may_become_refl a.state; same = refl; agent = inr refl })

  pub Granted-record_branch_pushed :
      (id head : String) (now : ℕ) → record_branch_pushed id head now t ≡ ok t' → Granted t t'
  unfolding record_branch_pushed
  Granted-record_branch_pushed id head now =
      Granted-update_one _ _ t t'
        (λ a h. record { state = may_become_refl a.state; same = refl; agent = inr refl })

  pub Granted-publication_failed :
      (id error : String) (now : ℕ) → publication_failed id error now t ≡ ok t' → Granted t t'
  unfolding publication_failed
  Granted-publication_failed id error now =
      Granted-update_one _ _ t t'
        (λ a h. record { state = may_become_refl a.state; same = refl; agent = inr refl })

  pub Granted-record_pr_observation :
      (id : String) (pr : GhPr) (problem : Option String) (now : ℕ)
      → record_pr_observation id pr problem now t ≡ ok t'
      → Granted t t'
  unfolding record_pr_observation
  Granted-record_pr_observation id pr problem now =
      Granted-update_one _ _ t t'
        (λ a h. record { state = may_become_refl a.state; same = refl; agent = inr refl })
