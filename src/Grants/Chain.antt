-- ===== src/Grants/Chain.antt =====
-- What a child of a child can be granted.
use ciacola.Base.{String, ◌≡◌, true, some, List, ok, All}
use ciacola.Base.Table.{All-weaken}
use ciacola.Ledger.Rows.{Agent, Ledger}
use ciacola.Ledger.Turns.{get_agent}
use ciacola.Grants.{ChildToolGrant, tool_covers, grant_child_tools}
use ciacola.Grants.Ceiling.{Covered, here, there, grant_child_tools-ceiling}
use ciacola.Grants.Covers.{tool_covers_trans}

Covered-cover :
    (t u : String) (us : List String) → tool_covers u t ≡ true → Covered u us → Covered t us
Covered-cover t u us h (here v vs k) = here v vs (tool_covers_trans v u t k h)
Covered-cover t u us h (there v vs k) = there v vs (Covered-cover t u vs h k)

Covered-All :
    (t : String) (ts us : List String) → All (λ u. Covered u us) ts → Covered t ts → Covered t us
Covered-All t ts us h (here v vs k) = Covered-cover t v us k h.0
Covered-All t ts us h (there v vs k) = Covered-All t vs us h.1 k

-- The ceiling holds along a chain: when a caller's agent holds only tools that some tool of an ancestor
-- covers, each tool that it is granted for a child is covered by a tool of that ancestor.
pub grant_child_tools-Covered :
    (l : Ledger) (parent_id : String) (ancestor parent : Agent) (requested : List String)
    → get_agent l parent_id ≡ some parent
    → All (λ t. Covered t ancestor.def.allowed_tools) parent.def.allowed_tools
    → (g : ChildToolGrant) × (grant_child_tools l (some parent_id) requested ≡ ok g)
      × All (λ t. Covered t ancestor.def.allowed_tools) g.granted
grant_child_tools-Covered l parent_id ancestor parent requested e h =
    let (g, answer, s, covered, d) = grant_child_tools-ceiling l parent_id parent requested e in
    (
      g,
      answer,
      All-weaken _ _ (λ t k. Covered-All t parent.def.allowed_tools ancestor.def.allowed_tools h k)
          _ covered,
    )
