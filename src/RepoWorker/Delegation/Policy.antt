-- ===== src/RepoWorker/Delegation/Policy.antt =====
-- crates/ciacola-core/src/delegation.rs: the closed vocabulary of actions, and a policy, whose set of
-- actions is the list of them in the order that they are declared in. The JSON around it is left out.
use ciacola.Base.{
  ℕ, String, ◌==◌, Bool, true, false, ◌||◌, Option, none, some, List, [], ◌∷◌, if◌then◌else◌, ltb,
  Result, ok, err, ◌>>=◌,
}

pub data DelegatableAction : Type 0 where
  repo_worker_open_pr repo_worker_finish_issue : DelegatableAction

unfoldable pub action_as_str : DelegatableAction → String
action_as_str repo_worker_open_pr = "repo-worker/open_pr"
action_as_str repo_worker_finish_issue = "repo-worker/finish_issue"

-- the names that deserialization knows
unfoldable pub parse_action : String → Option DelegatableAction
parse_action name =
    if name == "repo-worker/open_pr"
    then some repo_worker_open_pr
    else if name == "repo-worker/finish_issue"
    then some repo_worker_finish_issue
    else none

pub data DelegationScope : Type 0 where
  descendant_assignments : DelegationScope

-- the derived order
abbrev pub order_of : DelegatableAction → ℕ
order_of repo_worker_open_pr = 0
order_of repo_worker_finish_issue = 1

abbrev pub same_action : DelegatableAction → DelegatableAction → Bool
same_action repo_worker_open_pr repo_worker_open_pr = true
same_action repo_worker_open_pr repo_worker_finish_issue = false
same_action repo_worker_finish_issue repo_worker_open_pr = false
same_action repo_worker_finish_issue repo_worker_finish_issue = true

pub record DelegationPolicy : Type 0 where
  pub actions : List DelegatableAction
  pub scope : DelegationScope

pub data DelegationPolicyError : Type 0 where
  empty_actions : DelegationPolicyError
  duplicate_action : DelegatableAction → DelegationPolicyError

unfoldable pub has_action : DelegatableAction → List DelegatableAction → Bool
has_action action [] = false
has_action action (a ∷ set) = same_action a action || has_action action set

-- `DelegationPolicy::contains`
unfoldable pub policy_contains : DelegationPolicy → DelegatableAction → Bool
unfolding has_action
policy_contains policy action = has_action action policy.actions

-- `BTreeSet::insert` of an action that is not there
unfoldable pub insert_action : DelegatableAction → List DelegatableAction → List DelegatableAction
insert_action action [] = action ∷ []
insert_action action (a ∷ set) =
    let rest = insert_action action set in
    if ltb (order_of action) (order_of a) then action ∷ a ∷ set else a ∷ rest

unfoldable pub normalize :
    List DelegatableAction
    → List DelegatableAction
    → Result DelegationPolicyError (List DelegatableAction)
unfolding has_action insert_action
normalize [] set = ok set
normalize (action ∷ actions) set =
    let rest = normalize actions (insert_action action set) in
    if has_action action set then err (duplicate_action action) else rest

unfoldable pub scoped_policy :
    List DelegatableAction → DelegationScope → Result DelegationPolicyError DelegationPolicy
unfolding normalize
scoped_policy actions scope = normalize actions [] >>= λ set. elim set [
  | [] ↦ err empty_actions
  | a ∷ rest ↦ ok (record { actions = a ∷ rest; scope = scope })
]
