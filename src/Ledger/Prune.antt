-- ===== src/Ledger/Prune.antt =====
-- crates/ciacola-core/src/health.rs: `Health::prune`, as far as it writes to the turns.
use ciacola.Base.{
  String, ℕ, ◌-◌, ◌*◌, ◌==◌, Bool, not, ◌&&◌, ◌||◌, Option, none, some, max, ltb, is_some_and,
}
use ciacola.Base.Table.{update_where, count_where}
use ciacola.Ledger.Rows.{Turn, Ledger, is_in_flight}

-- `DAY_SECS` and `MIN_PRUNE_DAYS`
abbrev day_secs : ℕ
day_secs = 86400

abbrev min_prune_days : ℕ
min_prune_days = 1

-- `cutoff`. The source's may be negative, where this one is 0: no turn is older than either.
unfoldable pub prune_cutoff : ℕ → ℕ → ℕ
prune_cutoff now older_than_days = now - max older_than_days min_prune_days * day_secs

-- CASE WHEN reply IS NULL THEN NULL ELSE '' END
abbrev pub blank_reply : Option String → Option String
blank_reply none = none
blank_reply (some _) = some ""

-- SET prompt = '', reply = …
unfoldable pub blanked : Turn → Turn
blanked t = record t { prompt = ""; reply = blank_reply t.reply }

-- the WHERE clause
unfoldable pub is_prunable : ℕ → Turn → Bool
is_prunable cutoff t =
    ltb 0 t.at_unix
    && ltb t.at_unix cutoff
    && not (is_in_flight t.state)
    && (not (t.prompt == "") || is_some_and t.reply (λ r. not (r == "")))

-- the table of turns, and how many were blanked
unfoldable pub prune_turns : Ledger → ℕ → Ledger × ℕ
unfolding is_prunable blanked
prune_turns l cutoff = (
  record l { turns = update_where (is_prunable cutoff) blanked l.turns },
  count_where (is_prunable cutoff) l.turns,
)
