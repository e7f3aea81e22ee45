-- ===== src/Limits/Protection/Execution.antt =====
-- When the protection that admission froze is still good at execution.
use ciacola.Base.{
  ℕ, ◌≤◌, ◌<◌, String, ◌≡◌, refl, ◌≢◌, ◌↔◌, false, Option, none, some, arith, i64_max, ok, eq_iff,
}
use ciacola.Base.Text.{trim, is_empty}
use ciacola.Contract.Intent.{CeilingCapability, TurnCeiling}
use ciacola.Contract.Capability.Fence.{capability_eq_iff}
use ciacola.Limits.Protection.{
  TurnProtectionState, enforced, unbounded, override_unavailable, legacy, as_str,
  TurnProtectionOverride, TurnProtectionSnapshot, validate_for_execution, validate_enforced,
  validate_unbounded, validate_override, validate_state, drifted, snapshot_version,
}

-- The snapshot agrees with the columns that were written beside it.
pub record Matches (s : TurnProtectionSnapshot) (state_column provider_column : String)
    : Type 0 where
  pub version : s.version ≡ snapshot_version
  pub provider : s.provider ≡ provider_column
  pub state : as_str s.state ≡ state_column

drifted-false :
    (live : Option CeilingCapability) (c : CeilingCapability)
    → (drifted live c ≡ false) ↔ (live ≡ some c)
drifted-false none c = ground arith
drifted-false (some l) c = ground (arith, capability_eq_iff l c)

-- An enforced ceiling, whole: what was configured, in range, on the capability that is live.
pub record Enforces (s : TurnProtectionSnapshot) (live : Option CeilingCapability) (c : TurnCeiling)
    : Type 0 where
  pub limit : s.configured_limit ≡ some c.limit
  pub positive : 0 < c.limit
  pub in_range : c.limit ≤ i64_max
  pub capability : s.capability ≡ some c.capability
  pub no_override : s.unavailable_override ≡ none
  pub unchanged : live ≡ some c.capability

validate_enforced_iff :
    (s : TurnProtectionSnapshot) (live : Option CeilingCapability) (c : TurnCeiling)
    → (validate_enforced s live ≡ ok (some c)) ↔ Enforces s live c
unfolding validate_enforced
validate_enforced_iff s live c = ground (arith, drifted-false live c.capability)

-- Nothing is handed on: no limit is configured, or an operator has accepted that none is enforced.
pub data Unlimited (s : TurnProtectionSnapshot) (live : Option CeilingCapability) : Type 0 where
  never_configured :
      s.state ≡ unbounded
      → s.configured_limit ≡ none
      → s.capability ≡ none
      → s.unavailable_override ≡ none
      → Unlimited s live
  accepted :
      (limit : ℕ) (audit : TurnProtectionOverride)
      → s.state ≡ override_unavailable
      → s.configured_limit ≡ some limit
      → s.unavailable_override ≡ some audit
      → is_empty (trim audit.reason) ≡ false
      → is_empty (trim audit.source) ≡ false
      → live ≡ none
      → Unlimited s live

columns_iff :
    (s : TurnProtectionSnapshot) (state provider : String) (live : Option CeilingCapability)
    (r : Option TurnCeiling)
    → (validate_for_execution s state provider live ≡ ok r)
      ↔ (Matches s state provider × (validate_state s live s.state ≡ ok r))
unfolding validate_for_execution
columns_iff s state provider live r =
    ground (arith, eq_iff s.provider provider, eq_iff (as_str s.state) state)

module _ (s : TurnProtectionSnapshot) (live : Option CeilingCapability) (c : TurnCeiling) where
  unbounded_never : validate_unbounded s live ≢ ok (some c)
  unfolding validate_unbounded
  unbounded_never h = ground arith

  override_never : validate_override s live ≢ ok (some c)
  unfolding validate_override
  override_never h = ground arith

  state_some :
      (st : TurnProtectionState)
      → (validate_state s live st ≡ ok (some c)) ↔ ((st ≡ enforced) × Enforces s live c)
  unfolding validate_state
  state_some enforced = (
    λ h. (refl, (validate_enforced_iff s live c).0 h),
    λ h. (validate_enforced_iff s live c).1 h.1,
  )
  state_some unbounded = (λ h. absurd (unbounded_never h), λ h. cc (h.0))
  state_some override_unavailable = (λ h. absurd (override_never h), λ h. cc (h.0))
  state_some legacy = (λ h. cc, λ h. cc (h.0))

  -- Execution hands the provider a ceiling exactly if the columns agree with the snapshot, the
  -- snapshot is an enforced one, its limit is in the range of 1 to i64::MAX, and the adapter still
  -- has the very capability that admission saw.
  pub execution_ceiling_iff :
      (state_column provider_column : String)
      → (validate_for_execution s state_column provider_column live ≡ ok (some c))
        ↔ (Matches s state_column provider_column × (s.state ≡ enforced) × Enforces s live c)
  execution_ceiling_iff state_column provider_column = (
    λ h.
        let p = (columns_iff s state_column provider_column live (some c)).0 h in
        let q = (state_some s.state).0 p.1 in (p.0, q.0, q.1),
    λ k.
        (columns_iff s state_column provider_column live (some c)).1
          (k.0, (state_some s.state).1 (k.1, k.2)),
  )

module _ (s : TurnProtectionSnapshot) (live : Option CeilingCapability) where
  enforced_never_none : validate_enforced s live ≢ ok none
  unfolding validate_enforced
  enforced_never_none h = ground arith

  unbounded_none :
      validate_unbounded s live ≡ ok none
      → (s.configured_limit ≡ none) × (s.capability ≡ none) × (s.unavailable_override ≡ none)
  unfolding validate_unbounded
  unbounded_none h = ground arith

  override_none :
      validate_override s live ≡ ok none
      → (l : ℕ) × (audit : TurnProtectionOverride) × (s.configured_limit ≡ some l)
        × (s.unavailable_override ≡ some audit)
        × (is_empty (trim audit.reason) ≡ false)
        × (is_empty (trim audit.source) ≡ false)
        × (live ≡ none)
  unfolding validate_override
  override_none h = ground arith

  state_none :
      (st : TurnProtectionState)
      → s.state ≡ st
      → validate_state s live st ≡ ok none
      → Unlimited s live
  unfolding validate_state
  state_none enforced e h = absurd (enforced_never_none h)
  state_none unbounded e h = let u = unbounded_none h in never_configured e u.0 u.1 u.2
  state_none override_unavailable e h =
      let (l, audit, a, b, c, d, f) = override_none h in accepted l audit e a b c d f
  state_none legacy e h = cc

  -- Execution runs a turn without a ceiling only if none was configured, or an operator accepted,
  -- with a reason and a source that are not blank, that the provider cannot enforce the one that was.
  pub execution_unlimited :
      (state_column provider_column : String)
      → validate_for_execution s state_column provider_column live ≡ ok none
      → Unlimited s live
  execution_unlimited state_column provider_column h =
      state_none s.state refl ((columns_iff s state_column provider_column live none).0 h).1
