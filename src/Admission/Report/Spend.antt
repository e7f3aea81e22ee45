-- ===== src/Admission/Report/Spend.antt =====
-- The spend that the admission report is computed from.
use ciacola.Base.{
  ℕ, ◌+◌, ◌≤◌, ◌≡◌, refl, ◌∙◌, Bool, ◌||◌, List, [], ◌∷◌, map, arith, inl, inr, Bool-cases, Result,
  ok, bind_ok, ◌>>=◌, min, u64_max, saturating_add, if◌then◌else◌, ap,
}
use ciacola.Base.Table.{sum_of}
use ciacola.Base.OrderedMap
use ciacola.Base.OrderedMap.{OrderedMap}
use ciacola.Ledger.Rows.{Turn, Ledger, CostState, is_reported_usage}
use ciacola.Admission.Report.Day.{paid, paid_in_day, sum-window_turns}
use ciacola.Limits.Config.{Limits}
use ciacola.Limits.Accounting.{ProviderAccounting, AdmissionAccounting, AdmissionReport}
use ciacola.Limits.Evaluate.{evaluate}
use ciacola.Admission.Window.{
  window_row, window_turns, load_window_rows, load_active_agent_counts, is_terminal,
}
use ciacola.Admission.Report.{
  AdmissionError, nonnegative, Tally, tally_cost, tally_tokens, tally_usage, tally_row, tally_rows,
  entry, accounting_from_rows, admission_report_at, is_attempted, legacy_has_tokens,
  resolve_turn_protection, registered, unregistered,
}

-- The three steps for one row, each of which succeeds.
steps :
    (r : Result AdmissionError Tally) (s : ℕ) (q q' : ProviderAccounting)
    (tokens : ProviderAccounting → Result AdmissionError ProviderAccounting)
    (usage : ProviderAccounting → ProviderAccounting)
    → r ≡ ok (s, q)
    → tokens q ≡ ok q'
    → ◌>>=◌ {B = Tally} r (λ (x : Tally). ◌>>=◌ {B = Tally} (tokens x.1) (λ p'. ok (x.0, usage p')))
      ≡ ok (s, usage q')
steps r s q q' tokens usage h k = rw (h, k) refl

module _ (l : Ledger) (t : Turn) where
  tally_cost-ok :
      (attempted : Bool) (state : CostState) (spend : ℕ) (p : ProviderAccounting)
      → spend ≤ u64_max
      → (p' : ProviderAccounting) × (tally_cost (window_row l t) attempted state (spend, p)
          ≡ ok (
            saturating_add spend (elim state [
              | CostState.reported ↦ t.cost_micro_usd
              | CostState.legacy ↦ t.cost_micro_usd
              | _ ↦ 0
            ]),
            p',
          ))
  unfolding tally_cost nonnegative window_row
  tally_cost-ok attempted CostState.reported spend p f = (_, refl)
  tally_cost-ok attempted CostState.legacy spend p f = (
    if attempted
        then record p { cost_legacy_unknown_turns = p.cost_legacy_unknown_turns + 1 }
        else p,
    ground arith,
  )
  tally_cost-ok attempted CostState.unreported spend p f = (
    if attempted then record p { cost_unreported_turns = p.cost_unreported_turns + 1 } else p,
    ground arith,
  )
  tally_cost-ok attempted CostState.not_priced spend p f = (
    if attempted then record p { cost_not_priced_turns = p.cost_not_priced_turns + 1 } else p,
    ground arith,
  )
  tally_cost-ok attempted (CostState.other _) spend p f = (p, ground arith)

  tally_tokens-ok :
      (p : ProviderAccounting)
      → (p' : ProviderAccounting) × (tally_tokens (window_row l t) p ≡ ok p')
  unfolding tally_tokens nonnegative window_row
  tally_tokens-ok p =
      elim (Bool-cases (is_reported_usage t.usage_state || legacy_has_tokens (window_row l t))) [
        | inl e ↦ rw e (_, refl)
        | inr e ↦ rw e (p, refl)
      ]

  tally_row-ok :
      (spend : ℕ) (p : ProviderAccounting)
      → spend ≤ u64_max
      → (p' : ProviderAccounting) × (tally_row (window_row l t) (spend, p)
          ≡ ok (saturating_add spend (paid t), p'))
  unfolding tally_row window_row paid
  tally_row-ok spend p f =
      let attempted = is_attempted t.elapsed_state in
      elim (Bool-cases (is_terminal t.state)) [
        | inl e ↦
            let (q, h) = tally_cost-ok attempted t.cost_state spend p f in
            let (r, k) = tally_tokens-ok q in
            (
              tally_usage (window_row l t) attempted r,
              steps _ _ q r (tally_tokens (window_row l t)) (tally_usage (window_row l t) attempted)
                  (rw e h) k,
            )
        | inr e ↦
            let (r, k) = tally_tokens-ok p in
            (
              tally_usage (window_row l t) attempted r,
              steps _ _ p r (tally_tokens (window_row l t)) (tally_usage (window_row l t) attempted)
                  (rw e (ground arith)) k,
            )
      ]

added : (a b c : ℕ) → min (saturating_add a b + c) u64_max ≡ min (a + (b + c)) u64_max
added a b c = ground arith

-- the loop over the rows, and what it adds to the spend
tally_rows-ok :
    (l : Ledger) (ts : List Turn) (spend : ℕ) (providers : OrderedMap ProviderAccounting)
    → spend ≤ u64_max
    → (m : OrderedMap ProviderAccounting) × (tally_rows (map (window_row l) ts) spend providers
        ≡ ok (min (spend + sum_of paid ts) u64_max, m))
unfolding tally_rows sum_of
tally_rows-ok l [] spend providers f = (providers, ground arith)
tally_rows-ok l (t ∷ ts) spend providers f =
    let key = (window_row l t).provider in
    let (p, h) = tally_row-ok l t spend (entry key providers) f in
    let (m, k) =
      tally_rows-ok l ts (saturating_add spend (paid t)) (OrderedMap.insert key p providers)
        (omega arith) in
    (m, rw h (k ∙ ap (λ n. ok (n, m)) (added spend (paid t) (sum_of paid ts))))

accounting-ok :
    (l : Ledger) (now : ℕ)
    → (a : AdmissionAccounting) × (accounting_from_rows l.providers now
          (load_window_rows l now)
          (load_active_agent_counts l)
        ≡ ok a)
      × (a.reported_spend_micro_usd ≡ min (sum_of paid (window_turns now l.turns)) u64_max)
unfolding accounting_from_rows load_window_rows
accounting-ok l now =
    let (m, h) =
      tally_rows-ok l (window_turns now l.turns) 0
        (unregistered l.providers (load_active_agent_counts l)
          (registered l.providers (load_active_agent_counts l) []))
        (omega arith) in
    (
      record {
        checked_unix = now;
        reported_spend_micro_usd = min (0 + sum_of paid (window_turns now l.turns)) u64_max;
        providers = m;
      },
      bind_ok _ _ _ h,
      omega arith,
    )

-- Of a ledger whose stored costs and tokens are natural numbers, there is an admission report, and the
-- spend that it is computed from is the sum, cut off at u64::MAX, of what the turns that settled in the
-- last 86,400 seconds have reported to cost, those from before costs had a state included; a settled
-- turn without a settling time counts from when it was written.
pub admission_report_at-spend :
    (l : Ledger) (limits : Limits) (now : ℕ)
    → (r : AdmissionReport) × (admission_report_at l limits now ≡ ok r)
      × (r.global.reported_spend_micro_usd ≡ min (sum_of (paid_in_day now) l.turns) u64_max)
unfolding admission_report_at resolve_turn_protection evaluate
admission_report_at-spend l limits now =
    let (a, h, spend) = accounting-ok l now in
    (
      resolve_turn_protection l.providers (evaluate limits a),
      bind_ok _ _ _ h,
      rw (sum-window_turns now l.turns) at spend,
    )
