-- ===== src/Limits/Config/Validated.antt =====
-- What `Limits::validate` establishes of the configuration that the rest of the program reads.
use ciacola.Base.{
  ℕ, ◌≤◌, ◌<◌, String, ◌≡◌, false, Option, none, some, [], ◌∷◌, arith, i64_max, ok, inl, inr,
  unwrap_or, Bool-cases, ◌==◌,
}
use ciacola.Base.Int.{is_negative}
use ciacola.Base.OrderedMap
use ciacola.Base.OrderedMap.{OrderedMap}
use ciacola.Limits.Config.{
  ProviderLimits, no_limits, Limits, provider_limits, stop_micro_usd, warn_micro_usd,
  validate_provider, validate_each, validate, out_of_range, warn_above_stop,
}

abbrev pub InRange : Option ℕ → Type 0
InRange o = (v : ℕ) → o ≡ some v → (0 < v) × (v ≤ i64_max)

abbrev pub Ordered : Option ℕ → Option ℕ → Type 0
Ordered warn stop = (w s : ℕ) → warn ≡ some w → stop ≡ some s → w ≤ s

pub record IsSound (l : ProviderLimits) : Type 0 where
  pub warn_range : InRange l.daily_warn_tokens
  pub stop_range : InRange l.daily_stop_tokens
  pub ceiling_range : InRange l.per_turn_ceiling
  pub ordered : Ordered l.daily_warn_tokens l.daily_stop_tokens

out_of_range-false : (o : Option ℕ) → out_of_range o ≡ false → InRange o
out_of_range-false none h v e = ground arith
out_of_range-false (some w) h v e = (ground arith, ground arith)

warn_above_stop-false : (a b : Option ℕ) → warn_above_stop a b ≡ false → Ordered a b
warn_above_stop-false (some x) (some y) h w s p q = ground arith
warn_above_stop-false none b h w s p q = cc
warn_above_stop-false (some x) none h w s p q = cc

tests_of_validate_provider :
    (k : String) (l : ProviderLimits)
    → validate_provider k l ≡ ok tt
    → (out_of_range l.daily_warn_tokens ≡ false)
      × (out_of_range l.daily_stop_tokens ≡ false)
      × (out_of_range l.per_turn_ceiling ≡ false)
      × (warn_above_stop l.daily_warn_tokens l.daily_stop_tokens ≡ false)
unfolding validate_provider
tests_of_validate_provider k l h = ground arith

validate_provider-IsSound :
    (k : String) (l : ProviderLimits) → validate_provider k l ≡ ok tt → IsSound l
validate_provider-IsSound k l h =
    let t = tests_of_validate_provider k l h in
    record {
      warn_range = out_of_range-false l.daily_warn_tokens t.0;
      stop_range = out_of_range-false l.daily_stop_tokens t.1;
      ceiling_range = out_of_range-false l.per_turn_ceiling t.2;
      ordered = warn_above_stop-false l.daily_warn_tokens l.daily_stop_tokens t.3;
    }

no_limits-IsSound : IsSound no_limits
no_limits-IsSound = record {
  warn_range = λ v e. cc;
  stop_range = λ v e. cc;
  ceiling_range = λ v e. cc;
  ordered = λ w s p q. cc;
}

validate_each-IsSound :
    (m : OrderedMap ProviderLimits) (key : String)
    → validate_each m ≡ ok tt
    → IsSound (unwrap_or (OrderedMap.lookup key m) no_limits)
unfolding validate_each OrderedMap.lookup
validate_each-IsSound [] key h = no_limits-IsSound
validate_each-IsSound ((k, l) ∷ rest) key h =
    let h1 : validate_provider k l ≡ ok tt = ground arith in
    let h2 : validate_each rest ≡ ok tt = ground arith in
    elim (Bool-cases (k == key)) [
      | inl e ↦ rw e (validate_provider-IsSound k l h1)
      | inr e ↦ rw e (validate_each-IsSound rest key h2)
    ]

-- A validated configuration gives every provider, listed or not, limits in the range of 1 to
-- i64::MAX with the warning at or below the stop; the dollar warning is at or below the dollar
-- stop, and the spawn depth is not negative.
pub validate-IsSound :
    (l : Limits)
    → validate l ≡ ok tt
    → ((key : String) → IsSound (provider_limits l key))
      × Ordered (warn_micro_usd l) (stop_micro_usd l)
      × (is_negative l.max_spawn_depth ≡ false)
unfolding validate provider_limits
validate-IsSound l h =
    let each : validate_each l.providers ≡ ok tt = ground arith in
    let money : warn_above_stop (warn_micro_usd l) (stop_micro_usd l) ≡ false = ground arith in
    (
      λ key. validate_each-IsSound l.providers key each,
      warn_above_stop-false (warn_micro_usd l) (stop_micro_usd l) money,
      ground arith,
    )
