-- ===== src/RepoWorker/Delegation/Preflight.antt =====
-- crates/ciacola-repo-worker/src/delegation.rs: requests, refusals and `preflight_delegated_assignment`.
-- A database that fails is left out.
use Prim.Native.String.{compare}
use text.Mathlib.Text.{is_lt}
use ciacola.Base.{
  ℕ, String, ◌==◌, Bool, true, false, not, Option, List, [], ◌∷◌, ◌++◌, if◌then◌else◌, contains,
  Result, ok, err, ◌>>=◌, ◌>>◌, refuse_if, ok_or,
}
use ciacola.Base.Table.{find_where}
use ciacola.Ledger.Rows.{Ledger}
use ciacola.Ledger.Turns.{get_agent}
use ciacola.RepoWorker.Assignment.{Assignment}
use ciacola.RepoWorker.Statements.{Table}
use ciacola.RepoWorker.Delegation.Policy.{
  DelegatableAction, repo_worker_open_pr, repo_worker_finish_issue, DelegationPolicy,
  policy_contains,
}
use ciacola.RepoWorker.Delegation.Lineage.{DelegatedLineageRefusal, delegated_lineage_hops}

pub record DelegatedOpenPrRequest : Type 0 where
  pub assignment_id : String
  pub expected_head : String
  pub title : String
  pub body : String

pub data DelegatedFinishDisposition : Type 0 where
  retain remove_if_merged_or_unchanged : DelegatedFinishDisposition

pub record DelegatedFinishIssueRequest : Type 0 where
  pub assignment_id : String
  pub disposition : DelegatedFinishDisposition

pub data DelegatedAssignmentRequest : Type 0 where
  open_pr : DelegatedOpenPrRequest → DelegatedAssignmentRequest
  finish_issue : DelegatedFinishIssueRequest → DelegatedAssignmentRequest

abbrev pub action_of : DelegatedAssignmentRequest → DelegatableAction
action_of (open_pr _) = repo_worker_open_pr
action_of (finish_issue _) = repo_worker_finish_issue

abbrev pub assignment_of : DelegatedAssignmentRequest → String
assignment_of (open_pr request) = request.assignment_id
assignment_of (finish_issue request) = request.assignment_id

pub record DelegatedAssignmentEligibility : Type 0 where
  pub manager_agent_id : String
  pub assignment_id : String
  pub owner_agent_id : String
  pub action : DelegatableAction
  pub creator_hops : ℕ
  pub owner_hops : ℕ

pub data DelegatedLineageSubject : Type 0 where
  assignment_creator assignment_owner : DelegatedLineageSubject

pub data DelegatedAssignmentRefusal : Type 0 where
  plugin_unavailable : DelegatedAssignmentRefusal
  action_not_granted : DelegatableAction → DelegatedAssignmentRefusal
  manager_not_found manager_retired : String → DelegatedAssignmentRefusal
  assignment_not_found assignment_creator_missing assignment_owner_missing :
      String → DelegatedAssignmentRefusal
  ambiguous_owners : String → List String → DelegatedAssignmentRefusal
  lineage : DelegatedLineageSubject → DelegatedLineageRefusal → DelegatedAssignmentRefusal

-- `Vec::sort` and `Vec::dedup`
unfoldable pub insert_text : String → List String → List String
insert_text x [] = x ∷ []
insert_text x (y ∷ ys) =
    let rest = insert_text x ys in if is_lt (compare y x) then y ∷ rest else x ∷ y ∷ ys

unfoldable pub sort : List String → List String
unfolding insert_text
sort [] = []
sort (x ∷ xs) = insert_text x (sort xs)

unfoldable pub dedup : List String → List String
dedup [] = []
dedup (x ∷ []) = x ∷ []
dedup (x ∷ y ∷ ys) = let rest = dedup (y ∷ ys) in if x == y then rest else x ∷ rest

-- exactly the owner
abbrev pub is_only : String → List String → Bool
is_only owner [] = false
is_only owner (x ∷ []) = x == owner
is_only owner (_ ∷ _ ∷ _) = false

unfoldable pub all_owners : String → List String → List String
unfolding sort contains
all_owners owner related = if contains related owner then related else sort (related ++ owner ∷ [])

unfoldable pub hops_of :
    Ledger → DelegatedLineageSubject → String → String → Bool → Result DelegatedAssignmentRefusal ℕ
hops_of l subject agent_id manager_agent_id allow =
    elim (delegated_lineage_hops l agent_id manager_agent_id allow) [
      | ok hops ↦ ok hops
      | err reason ↦ err (lineage subject reason)
    ]

-- what is checked of the assignment: its creator first, and then its owner
unfoldable pub check_assignment :
    Ledger
    → String
    → DelegatedAssignmentRequest
    → Assignment
    → Result DelegatedAssignmentRefusal DelegatedAssignmentEligibility
check_assignment l manager_agent_id request assignment = do
  let id = assignment_of request
  creator ← ok_or assignment.spawned_by (assignment_creator_missing id)
  creator_hops ← hops_of l assignment_creator creator manager_agent_id true
  owner ← ok_or assignment.agent_id (assignment_owner_missing id)
  let related = dedup (sort assignment.related_agent_ids)
  refuse_if (not (is_only owner related)) (ambiguous_owners id (all_owners owner related))
  owner_hops ← hops_of l assignment_owner owner manager_agent_id false
  ok (record {
    manager_agent_id = manager_agent_id;
    assignment_id = id;
    owner_agent_id = owner;
    action = action_of request;
    creator_hops = creator_hops;
    owner_hops = owner_hops;
  })

-- The plugin that is not set up has no context: `none`.
unfoldable pub preflight_delegated_assignment :
    Option (Ledger × Table)
    → String
    → DelegationPolicy
    → DelegatedAssignmentRequest
    → Result DelegatedAssignmentRefusal DelegatedAssignmentEligibility
preflight_delegated_assignment ctx manager_agent_id policy request = do
  (l, assignments) ← ok_or ctx plugin_unavailable
  refuse_if (not (policy_contains policy (action_of request)))
      (action_not_granted (action_of request))
  manager ← ok_or (get_agent l manager_agent_id) (manager_not_found manager_agent_id)
  refuse_if manager.retired (manager_retired manager_agent_id)
  let id = assignment_of request
  assignment ←
      ok_or (find_where (λ (a : Assignment). a.assignment_id == id) assignments)
        (assignment_not_found id)
  check_assignment l manager_agent_id request assignment
