-- ===== src/RepoWorker/Delegation/Eligible.antt =====
-- The preflight answers exactly where the durable facts hold that it is meant to establish.
use ciacola.Base.{
  ℕ, String, ◌==◌, ◌≡◌, refl, subst, Bool, true, false, some, Result, ok, err, Bool-cases,
  Option-cases, inl, inr, ◌⊎◌,
}
use ciacola.Base.Table.{find_where}
use ciacola.Ledger.Rows.{Agent, Ledger}
use ciacola.Ledger.Turns.{get_agent}
use ciacola.RepoWorker.Assignment.{Assignment}
use ciacola.RepoWorker.Statements.{Table}
use ciacola.RepoWorker.Delegation.Policy.{DelegationPolicy, policy_contains}
use ciacola.RepoWorker.Delegation.Lineage.{delegated_lineage_hops}
use ciacola.RepoWorker.Delegation.Preflight.{
  DelegatedAssignmentRequest, action_of, assignment_of, DelegatedAssignmentEligibility,
  DelegatedLineageSubject, DelegatedAssignmentRefusal, assignment_creator, assignment_owner,
  lineage, sort, dedup, is_only, hops_of, check_assignment, preflight_delegated_assignment,
}
use ciacola.RepoWorker.Delegation.Ancestors.{Descends}
use ciacola.RepoWorker.Delegation.Descent.{delegated_lineage_hops-Descends}
use ciacola.RepoWorker.Delegation.Owners.{Only, sorted-Only}

-- What holds of an assignment, its manager and the policy, with the distances.
pub record Eligible (l : Ledger) (assignments : Table) (manager : String)
    (policy : DelegationPolicy) (request : DelegatedAssignmentRequest)
    (e : DelegatedAssignmentEligibility) : Type 0 where
  pub granted : policy_contains policy (action_of request) ≡ true
  pub agent : Agent
  pub known : get_agent l manager ≡ some agent
  pub at_work : agent.retired ≡ false
  pub row : Assignment
  pub found :
      find_where (λ (a : Assignment). a.assignment_id == assignment_of request) assignments
      ≡ some row
  pub creator : String
  pub created : row.spawned_by ≡ some creator
  pub below : Descends l creator manager true e.creator_hops
  pub owned : row.agent_id ≡ some e.owner_agent_id
  pub alone : Only e.owner_agent_id row.related_agent_ids
  pub under : Descends l e.owner_agent_id manager false e.owner_hops
  pub for_manager : e.manager_agent_id ≡ manager
  pub for_assignment : e.assignment_id ≡ assignment_of request
  pub for_action : e.action ≡ action_of request

Result-cases : {E A : Type 0} (r : Result E A) → ((e : E) × (r ≡ err e)) ⊎ ((a : A) × (r ≡ ok a))
Result-cases (ok a) = inr (a, refl)
Result-cases (err e) = inl (e, refl)

answer :
    (a b : DelegatedAssignmentEligibility)
    → ◌≡◌ {A = Result DelegatedAssignmentRefusal DelegatedAssignmentEligibility} (ok a) (ok b)
    → a ≡ b
answer a b h = cc

hops_of-cases :
    (l : Ledger) (subject : DelegatedLineageSubject) (id manager : String) (allow : Bool)
    → ((x : DelegatedAssignmentRefusal) × (hops_of l subject id manager allow ≡ err x))
      ⊎ ((n : ℕ) × (hops_of l subject id manager allow ≡ ok n) × Descends l id manager allow n)
unfolding hops_of
hops_of-cases l subject id manager allow =
    elim (Result-cases (delegated_lineage_hops l id manager allow)) [
      | inl (x, h) ↦ inl (lineage subject x, rw (hops_of, h) refl)
      | inr (n, h) ↦
          inr (n, rw (hops_of, h) refl, (delegated_lineage_hops-Descends l id manager allow n).0 h)
    ]

Descends-hops_of :
    (l : Ledger) (subject : DelegatedLineageSubject) (id manager : String) (allow : Bool) (n : ℕ)
    → Descends l id manager allow n
    → hops_of l subject id manager allow ≡ ok n
unfolding hops_of
Descends-hops_of l subject id manager allow n d =
    rw (hops_of, (delegated_lineage_hops-Descends l id manager allow n).1 d) refl

module _ (l : Ledger) (assignments : Table) (manager : String) (policy : DelegationPolicy)
    (request : DelegatedAssignmentRequest) (e : DelegatedAssignmentEligibility) where
  complete :
      Eligible l assignments manager policy request e
      → preflight_delegated_assignment (some (l, assignments)) manager policy request ≡ ok e
  unfolding preflight_delegated_assignment check_assignment
  complete x =
      let only = (sorted-Only e.owner_agent_id x.row.related_agent_ids).1 x.alone in
      rw
        (
          x.granted,
          x.known,
          x.at_work,
          x.found,
          x.created,
          Descends-hops_of l assignment_creator x.creator manager true e.creator_hops x.below,
          x.owned,
          only,
          Descends-hops_of l assignment_owner e.owner_agent_id manager false e.owner_hops x.under,
        )
        (rw (← x.for_manager, ← x.for_assignment, ← x.for_action) refl)

  -- what is read of the assignment
  module _ (g : policy_contains policy (action_of request) ≡ true) (a : Agent)
      (k : get_agent l manager ≡ some a) (w : a.retired ≡ false) (row : Assignment)
      (f : find_where (λ (a : Assignment). a.assignment_id == assignment_of request) assignments
        ≡ some row) where
    established :
        check_assignment l manager request row ≡ ok e
        → Eligible l assignments manager policy request e
    unfolding check_assignment
    established h = elim (Option-cases row.spawned_by) [
      | inl c ↦ let z = rw c at h in cc
      | inr (creator, c) ↦ elim (hops_of-cases l assignment_creator creator manager true) [
        | inl (x, n) ↦ let z = rw (c, n) at h in cc
        | inr (up, n, d) ↦ elim (Option-cases row.agent_id) [
          | inl o ↦ let z = rw (c, n, o) at h in cc
          | inr (owner, o) ↦
              elim (Bool-cases (is_only owner (dedup (sort row.related_agent_ids)))) [
                | inr i ↦ let z = rw (c, n, o, i) at h in cc
                | inl i ↦ elim (hops_of-cases l assignment_owner owner manager false) [
                  | inl (x, m) ↦ let z = rw (c, n, o, i, m) at h in cc
                  | inr (down, m, d') ↦
                      let z = rw (c, n, o, i, m) at h in
                      subst (Eligible l assignments manager policy request) (answer _ e z) (record {
                        granted = g;
                        agent = a;
                        known = k;
                        at_work = w;
                        row = row;
                        found = f;
                        creator = creator;
                        created = c;
                        below = d;
                        owned = o;
                        alone = (sorted-Only owner row.related_agent_ids).0 i;
                        under = d';
                        for_manager = refl;
                        for_assignment = refl;
                        for_action = refl;
                      })
                ]
              ]
        ]
      ]
    ]

  sound :
      preflight_delegated_assignment (some (l, assignments)) manager policy request ≡ ok e
      → Eligible l assignments manager policy request e
  unfolding preflight_delegated_assignment
  sound h = elim (Bool-cases (policy_contains policy (action_of request))) [
    | inr g ↦ let z = rw g at h in cc
    | inl g ↦ elim (Option-cases (get_agent l manager)) [
      | inl k ↦ let z = rw (g, k) at h in cc
      | inr (a, k) ↦ elim (Bool-cases a.retired) [
        | inl w ↦ let z = rw (g, k, w) at h in cc
        | inr w ↦
            elim (Option-cases (
              find_where (λ (a : Assignment). a.assignment_id == assignment_of request)
                assignments)) [
                  | inl f ↦ let z = rw (g, k, w, f) at h in cc
                  | inr (row, f) ↦ established g a k w row f (rw (g, k, w, f) at h)
                ]
      ]
    ]
  ]

-- A manager may be delegated an action on an assignment exactly where its policy grants the action, it is
-- there and not retired, the assignment is there, its creator descends from the manager or is the manager,
-- its owner, which no other agent is recorded beside, descends from the manager and is another agent, and
-- both lineages are whole and not deeper than 64. The answer then names them and both distances.
pub preflight_delegated_assignment-Eligible :
    (l : Ledger) (assignments : Table) (manager : String) (policy : DelegationPolicy)
    (request : DelegatedAssignmentRequest) (e : DelegatedAssignmentEligibility)
    → (preflight_delegated_assignment (some (l, assignments)) manager policy request ≡ ok e
        → Eligible l assignments manager policy request e)
      × (Eligible l assignments manager policy request e
          → preflight_delegated_assignment (some (l, assignments)) manager policy request ≡ ok e)
preflight_delegated_assignment-Eligible l assignments manager policy request e =
    (sound l assignments manager policy request e, complete l assignments manager policy request e)
