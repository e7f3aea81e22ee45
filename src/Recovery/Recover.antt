-- ===== src/Recovery/Recover.antt =====
-- crates/ciacola-core/src/recover.rs: `recover`. What it hands back to the executor is a list of turns.
use Prim.Native.String.{compare}
use ciacola.Base.{
  ℕ, ◌+◌, String, ◌==◌, Bool, true, false, ◌&&◌, ◌||◌, Option, none, some, List, [], ◌∷◌, map,
  length, if◌then◌else◌, is_some, ltb, ok, err,
}
use ciacola.Base.Table.{select_where}
use text.Mathlib.Text.{is_lt}
use ciacola.Contract.Registry
use ciacola.Contract.Registry.{Provider}
use ciacola.Ledger.Rows.{Turn, Agent, Ledger, TurnState, is_running, is_queued}
use ciacola.Ledger.Turns.{get_agent, recover_turn}
use ciacola.Recovery.Orphans.{System, kill_orphans}

pub record RecoveryReport : Type 0 where
  pub resubmitted : ℕ
  pub orphaned : ℕ
  pub orphans_killed : ℕ
  pub orphans_unverified : ℕ

abbrev pub nothing_done : RecoveryReport
nothing_done = record { resubmitted = 0; orphaned = 0; orphans_killed = 0; orphans_unverified = 0 }

-- ORDER BY agent_id, seq
unfoldable pub before : Turn → Turn → Bool
before t u = is_lt (compare t.agent_id u.agent_id) || (t.agent_id == u.agent_id && ltb t.seq u.seq)

unfoldable pub insert_turn : Turn → List Turn → List Turn
unfolding before
insert_turn t [] = t ∷ []
insert_turn t (u ∷ us) = let rest = insert_turn t us in if before t u then t ∷ u ∷ us else u ∷ rest

unfoldable pub sort_turns : List Turn → List Turn
unfolding insert_turn
sort_turns [] = []
sort_turns (t ∷ ts) = insert_turn t (sort_turns ts)

-- `turns_in_state`
unfoldable pub turns_in_state : (TurnState → Bool) → Ledger → List Turn
unfolding sort_turns
turns_in_state p l = sort_turns (select_where (λ (t : Turn). p t.state) l.turns)

-- the sentence that a recovered turn keeps as its error
unfoldable pub orphan_error : Bool → Bool → String
orphan_error true true = "orphaned by server crash; session kept, send again to resume"
orphan_error true false = "orphaned by server crash; no session recorded, send again to start over"
orphan_error false true =
    "orphaned by server crash; provider process could NOT be verified dead, check by hand; session kept"
orphan_error false false =
    "orphaned by server crash; provider process could NOT be verified dead, check by hand; no session recorded"

abbrev resumable : Option Agent → Bool
resumable none = false
resumable (some a) = is_some a.session

-- the search for the process of a turn, whose provider may not be linked in
unfoldable pub search : System → Ledger → Turn → ℕ × Bool
search sys l t = elim (get_agent l t.agent_id) [
  | none ↦ (0, false)
  | some a ↦ elim (Registry.get l.providers a.def.provider) [
    | ok p ↦ kill_orphans sys p.key t.prompt
    | err _ ↦ (0, false)
  ]
]

-- the body of the loop over the running turns
unfoldable pub recover_one : System → ℕ → Turn → Ledger × RecoveryReport → Ledger × RecoveryReport
unfolding search orphan_error
recover_one sys now_ms t (l, report) =
    let (killed, searched) = search sys l t in
    (
      (recover_turn l t.agent_id t.seq (orphan_error searched (resumable (get_agent l t.agent_id)))
          now_ms).0,
      record report {
        orphaned = report.orphaned + 1;
        orphans_killed = report.orphans_killed + killed;
        orphans_unverified = report.orphans_unverified + (if searched then 0 else 1);
      },
    )

unfoldable pub recover_all :
    System → ℕ → List Turn → Ledger × RecoveryReport → Ledger × RecoveryReport
unfolding recover_one
recover_all sys now_ms [] state = state
recover_all sys now_ms (t ∷ ts) state = recover_all sys now_ms ts (recover_one sys now_ms t state)

-- the turns that are submitted, and their number
abbrev pub keys_of : List Turn → List (String × ℕ)
keys_of ts = map (λ (t : Turn). (t.agent_id, t.seq)) ts

-- `recover`: the ledger, what is submitted to the executor, and the report
unfoldable pub recover : System → ℕ → Ledger → Ledger × List (String × ℕ) × RecoveryReport
unfolding recover_all turns_in_state
recover sys now_ms l =
    let (l', report) = recover_all sys now_ms (turns_in_state is_running l) (l, nothing_done) in
    let queued = turns_in_state is_queued l' in
    (l', keys_of queued, record report { resubmitted = length queued })
