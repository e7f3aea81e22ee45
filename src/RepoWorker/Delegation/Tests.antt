-- ===== src/RepoWorker/Delegation/Tests.antt =====
-- A manager, the agent that it spawned, and the assignment of that agent.
use ciacola.Base.{◌≡◌, none, some, [], ◌∷◌, false, Result, ok}
use ciacola.Ledger.Rows.{Ledger}
use ciacola.Ledger.Operations.{create}
use ciacola.Ledger.History.{run}
use ciacola.Ledger.Validity.Kept.{fresh}
use ciacola.RepoWorker.Assignment.{Assignment, active, PublicationState, CleanupState}
use ciacola.RepoWorker.Delegation.Policy.{
  DelegationPolicy, repo_worker_open_pr, descendant_assignments,
}
use ciacola.RepoWorker.Delegation.Lineage.{delegated_lineage_hops}
use ciacola.RepoWorker.Delegation.Preflight.{
  DelegatedAssignmentRequest, DelegatedAssignmentRefusal, open_pr, DelegatedAssignmentEligibility,
  preflight_delegated_assignment,
}
use ciacola.RepoWorker.Delegation.Ancestors.{Descends}
use ciacola.RepoWorker.Delegation.Descent.{delegated_lineage_hops-Descends}
use ciacola.RepoWorker.Delegation.Eligible.{Eligible, preflight_delegated_assignment-Eligible}
use ciacola.Samples.{runtime, registry, definition}

abbrev ledger : Ledger
ledger =
    run (create definition none "m" "s-0" "t-m" ∷ create definition (some "m") "c" "s-1" "t-c" ∷ [])
      (fresh runtime none registry)

abbrev assignment : Assignment
assignment = record {
  assignment_id = "w-1";
  repo = "ciacola/ciacola";
  issue = 12;
  state = active;
  phase = "ready";
  base = some "main";
  base_head = some "0a1b";
  slug = "fix-window";
  branch = "issue-12";
  branch_policy = "owned";
  worktree = "/work/issue-12";
  bare_path = "/bare/ciacola";
  agent_id = some "c";
  related_agent_ids = "c" ∷ "c" ∷ [];
  spawned_by = some "m";
  expected_head = none;
  pushed_head = none;
  publication_state = PublicationState.unpublished;
  pr = none;
  pr_url = none;
  pr_state = none;
  pr_draft = none;
  pr_head = none;
  pr_base = none;
  pr_checked_unix = none;
  cleanup_state = CleanupState.nothing;
  cleanup_head = none;
  cleanup_reason = none;
  last_error = none;
  created_unix = 100;
  updated_unix = 200;
  terminal_unix = none;
}

abbrev policy : DelegationPolicy
policy = record { actions = repo_worker_open_pr ∷ []; scope = descendant_assignments }

abbrev request : DelegatedAssignmentRequest
request =
    open_pr (record {
      assignment_id = "w-1";
      expected_head = "0a1b";
      title = "Fix the window";
      body = "";
    })

abbrev eligibility : DelegatedAssignmentEligibility
eligibility = record {
  manager_agent_id = "m";
  assignment_id = "w-1";
  owner_agent_id = "c";
  action = repo_worker_open_pr;
  creator_hops = 0;
  owner_hops = 1;
}

delegated_lineage_hops-Descends_example :
    (delegated_lineage_hops ledger "c" "m" false ≡ ok 1 → Descends ledger "c" "m" false 1)
    × (Descends ledger "c" "m" false 1 → delegated_lineage_hops ledger "c" "m" false ≡ ok 1)
delegated_lineage_hops-Descends_example = delegated_lineage_hops-Descends ledger "c" "m" false 1

preflight_delegated_assignment-Eligible_example :
    (preflight_delegated_assignment (some (ledger, assignment ∷ [])) "m" policy request
        ≡ ok eligibility
      → Eligible ledger (assignment ∷ []) "m" policy request eligibility)
    × (Eligible ledger (assignment ∷ []) "m" policy request eligibility
        → preflight_delegated_assignment (some (ledger, assignment ∷ [])) "m" policy request
          ≡ ok eligibility)
preflight_delegated_assignment-Eligible_example =
    preflight_delegated_assignment-Eligible ledger (assignment ∷ []) "m" policy request eligibility

abbrev answered : Result DelegatedAssignmentRefusal DelegatedAssignmentEligibility
answered = preflight_delegated_assignment (some (ledger, assignment ∷ [])) "m" policy request
