-- ===== src/Admission/Report/Day.antt =====
-- What the turns of the rolling window have cost, as one sum over the table.
use ciacola.Base.{
  ◌&&◌, leb, is_none, is_some_and, unwrap_or, Option-cases, ℕ, ◌+◌, ◌≡◌, refl, ◌∙◌, Bool, List, [],
  ◌∷◌, arith, inl, inr, Bool-cases, if◌then◌else◌, ap,
}
use ciacola.Base.Table.{sum_of, sum-append, select_where}
use ciacola.Ledger.Rows.{Turn, CostState, is_running}
use ciacola.Admission.Window.{window_turns, is_terminal, rolling_window_secs}

-- A cost that is known to have been paid.
unfoldable pub paid : Turn → ℕ
paid t =
    if is_terminal t.state
    then elim t.cost_state [
      | CostState.reported ↦ t.cost_micro_usd
      | CostState.legacy ↦ t.cost_micro_usd
      | _ ↦ 0
    ]
    else 0

-- What a turn adds to the spend of the day that ends now: it has settled, and not more than 86,400
-- seconds ago, where one without a settling time counts from when it was written.
unfoldable pub paid_in_day : ℕ → Turn → ℕ
paid_in_day now t =
    if is_terminal t.state && leb now (unwrap_or t.settled_unix t.at_unix + 86400)
    then paid t
    else 0

-- the three parts of the window
module _ (now : ℕ) where
  abbrev settled_in : Turn → Bool
  settled_in t =
      is_terminal t.state
      && is_some_and t.settled_unix (λ time. leb now (time + rolling_window_secs))

  abbrev written_in : Turn → Bool
  written_in t =
      is_terminal t.state && is_none t.settled_unix && leb now (t.at_unix + rolling_window_secs)

  abbrev runs : Turn → Bool
  runs t = is_running t.state

  parts_of_turn :
      (t : Turn)
      → (if settled_in t then paid t else 0)
          + ((if written_in t then paid t else 0) + (if runs t then paid t else 0))
        ≡ paid_in_day now t
  unfolding paid_in_day paid
  parts_of_turn t = elim (Option-cases t.settled_unix) [
    | inl e ↦ rw e (ground arith)
    | inr (s, e) ↦ rw e (ground arith)
  ]

  sum-select_where :
      (q : Turn → Bool) (t : Turn) (ts : List Turn)
      → sum_of paid (select_where q (t ∷ ts))
        ≡ (if q t then paid t else 0) + sum_of paid (select_where q ts)
  unfolding select_where sum_of
  sum-select_where q t ts = elim (Bool-cases (q t)) [
    | inl e ↦ rw e refl
    | inr e ↦ rw e (omega arith)
  ]

  sum-parts :
      (ts : List Turn)
      → sum_of paid (select_where settled_in ts)
          + (sum_of paid (select_where written_in ts) + sum_of paid (select_where runs ts))
        ≡ sum_of (paid_in_day now) ts
  unfolding sum_of select_where
  sum-parts [] = refl
  sum-parts (t ∷ ts) = omega (
    arith,
    sum-select_where settled_in t ts,
    sum-select_where written_in t ts,
    sum-select_where runs t ts,
    parts_of_turn t,
    sum-parts ts,
  )

  pub sum-window_turns :
      (ts : List Turn) → sum_of paid (window_turns now ts) ≡ sum_of (paid_in_day now) ts
  unfolding window_turns
  sum-window_turns ts =
      sum-append paid (select_where settled_in ts) _
      ∙ ap (λ n. sum_of paid (select_where settled_in ts) + n)
          (sum-append paid (select_where written_in ts) _)
      ∙ sum-parts ts
