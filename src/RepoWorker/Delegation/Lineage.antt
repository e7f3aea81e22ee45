-- ===== src/RepoWorker/Delegation/Lineage.antt =====
-- crates/ciacola-repo-worker/src/delegation.rs: `delegated_lineage_hops`. A ledger that fails is left out.
use ciacola.Base.{
  ℕ, zero, suc, ◌+◌, String, ◌==◌, Bool, ◌&&◌, ◌||◌, Option, none, some, List, [], ◌∷◌,
  if◌then◌else◌, ltb, contains, Result, err, ◌>>=◌, ◌>>◌, refuse_if, ok_or,
}
use ciacola.Ledger.Rows.{Ledger}
use ciacola.Ledger.Turns.{get_agent}

pub data DelegatedLineageRefusal : Type 0 where
  missing_agent : String → DelegatedLineageRefusal
  outside_manager : String → String → DelegatedLineageRefusal
  cycle : String → DelegatedLineageRefusal
  too_deep : DelegatedLineageRefusal

module _ (l : Ledger) (agent_id manager_agent_id : String) (allow_manager_itself : Bool) where
  -- the manager is at `current`, at a distance that counts
  abbrev pub seen_at : String → ℕ → Option ℕ → Option ℕ
  seen_at current hops found =
      if (current == manager_agent_id) && (ltb 0 hops || allow_manager_itself)
      then some hops
      else found

  -- the loop: `rounds` of it are left
  unfoldable pub lineage_from :
      ℕ → ℕ → List String → Option ℕ → String → Result DelegatedLineageRefusal ℕ
  lineage_from zero hops visited found current = err too_deep
  lineage_from (suc rounds) hops visited found current =
      refuse_if (contains visited current) (cycle current)
      >> (ok_or (get_agent l current) (missing_agent current) >>= λ row. elim row.spawned_by [
        | none ↦ ok_or (seen_at current hops found) (outside_manager agent_id manager_agent_id)
        | some parent ↦
            lineage_from rounds (hops + 1) (current ∷ visited) (seen_at current hops found) parent
      ])

  -- `for hops in 0..=64`
  unfoldable pub delegated_lineage_hops : Result DelegatedLineageRefusal ℕ
  delegated_lineage_hops = lineage_from 65 0 [] none agent_id
