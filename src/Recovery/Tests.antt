-- ===== src/Recovery/Tests.antt =====
-- A restart that finds one turn running.
use ciacola.Base.{ℕ, String, ◌≡◌, true, none, some, List, [], ◌∷◌, ◌==◌, ◌&&◌}
use ciacola.Base.Table.{count_where, select_where}
use ciacola.Ledger.Rows.{Turn, Ledger, is_running, is_queued}
use ciacola.Ledger.Operations.{create, enqueue, claim, IsValid}
use ciacola.Ledger.History.{run}
use ciacola.Ledger.Validity.Kept.{fresh}
use ciacola.Recovery.Orphans.{System}
use ciacola.Recovery.Recover.{recover}
use ciacola.Recovery.Order.{IsSorted, copies}
use ciacola.Ledger.Turns.{is_turn}
use ciacola.Recovery.Swept.{recover-swept}
use ciacola.Samples.{runtime, registry, definition, protection}

abbrev system : System
system = record {
  processes = some ("  71 claude -p Summarize the open issues" ∷ "  72 vim notes.txt" ∷ []);
  owns_process = λ provider line. provider == "claude";
  kill = λ pid. true;
}

abbrev ledger : Ledger
ledger =
    run
      (create definition none "a" "s-0" "t-a"
        ∷ enqueue "a" "Summarize the open issues" 10 "claude" none "unbounded" protection
        ∷ claim "a" 1 11000
        ∷ [])
      (fresh runtime none registry)

recover-swept_example :
    let (l', submitted, report) = recover system 20000 ledger in
    (count_where (λ (t : Turn). is_running t.state) l'.turns ≡ 0)
    × (report.orphaned ≡ count_where (λ (t : Turn). is_running t.state) ledger.turns)
    × (select_where (λ (t : Turn). is_queued t.state) l'.turns
        ≡ select_where (λ (t : Turn). is_queued t.state) ledger.turns)
    × ((agent_id : String) (seq : ℕ)
        → copies agent_id seq submitted
          ≡ count_where (λ (t : Turn). is_queued t.state && is_turn agent_id seq t) ledger.turns)
    × IsSorted submitted
    × (report.resubmitted ≡ count_where (λ (t : Turn). is_queued t.state) ledger.turns)
    × (IsValid ledger → IsValid l')
recover-swept_example = recover-swept system 20000 ledger

abbrev answer : List (String × ℕ)
answer = (recover system 20000 ledger).1
