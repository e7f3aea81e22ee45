-- ===== src/Grants/Tests.antt =====
-- A lead that may run git, and a worker that it was granted a part of it for.
use ciacola.Base.{String, ◌≡◌, refl, false, none, some, List, [], ◌∷◌, ok, All}
use ciacola.Base.Table.{find_where}
use ciacola.Ledger.Rows.{Agent, Ledger}
use ciacola.Ledger.Turns.{get_agent, is_agent}
use ciacola.Grants.{
  ChildToolGrant, tool_covers, strip_prefix, strip_suffix, rest_is, grant_child_tools,
}
use ciacola.Recovery.Orphans.{starts_with, contains_text}
use ciacola.Grants.Ceiling.{Split, Covered, here, there, grant_child_tools-ceiling}
use ciacola.Grants.Chain.{grant_child_tools-Covered}
use ciacola.Samples.{runtime, registry, definition}

abbrev lead : Agent
lead = record {
  agent_id = "lead";
  name = "lead";
  def = record definition { allowed_tools = "Read" ∷ "Bash(git:*)" ∷ "mcp__ciacola" ∷ [] };
  session = none;
  cost_micro_usd = 0;
  spawned_by = none;
  retired = false;
  session_started_seq = 0;
  token = none;
}

abbrev worker : Agent
worker = record lead {
  agent_id = "worker";
  name = "worker";
  def = record definition { allowed_tools = "Bash(git log:*)" ∷ "mcp__ciacola__ask" ∷ [] };
  spawned_by = some "lead";
}

abbrev ledger : Ledger
ledger = record {
  agents = lead ∷ worker ∷ [];
  turns = [];
  runtime = runtime;
  house_rules = none;
  providers = registry;
}

abbrev requested : List String
requested = "Bash(git log:--oneline)" ∷ "Write" ∷ []

lead_found : get_agent ledger "lead" ≡ some lead
unfolding get_agent find_where is_agent
lead_found = refl

worker_found : get_agent ledger "worker" ≡ some worker
unfolding get_agent find_where is_agent
worker_found = refl

worker-Covered : All (λ t. Covered t lead.def.allowed_tools) worker.def.allowed_tools
unfolding tool_covers strip_prefix strip_suffix rest_is starts_with contains_text
worker-Covered = (there _ _ (here _ _ refl), (there _ _ (there _ _ (here _ _ refl)), tt))

grant_child_tools-ceiling_example :
    (g : ChildToolGrant) × (grant_child_tools ledger (some "lead") requested ≡ ok g)
    × Split g.granted g.denied requested
    × All (λ t. Covered t lead.def.allowed_tools) g.granted
    × All (λ t. All (λ h. tool_covers h t ≡ false) lead.def.allowed_tools) g.denied
grant_child_tools-ceiling_example =
    grant_child_tools-ceiling ledger "lead" lead requested lead_found

grant_child_tools-Covered_example :
    (g : ChildToolGrant) × (grant_child_tools ledger (some "worker") requested ≡ ok g)
    × All (λ t. Covered t lead.def.allowed_tools) g.granted
grant_child_tools-Covered_example =
    grant_child_tools-Covered ledger "worker" lead worker requested worker_found worker-Covered

-- the worker may hand on what it may run itself, and nothing else
worker_grant :
    grant_child_tools ledger (some "worker") requested
    ≡ ok (record { granted = "Bash(git log:--oneline)" ∷ []; denied = "Write" ∷ [] })
unfolding grant_child_tools get_agent find_where is_agent tool_covers strip_prefix strip_suffix
    rest_is starts_with contains_text
worker_grant = refl
