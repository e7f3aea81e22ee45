-- ===== src/Limits/Protection.antt =====
-- crates/ciacola-core/src/limits.rs: the per-turn protection, frozen at admission and checked again
-- before the provider runs.
pub mod Execution
use ciacola.Base.{
  ℕ, String, Bool, true, false, not, ◌&&◌, ◌||◌, Option, none, some, if◌then◌else◌, is_some, eqb,
  ltb, i64_max, Result, ok, err, ◌>>=◌, ◌>>◌, refuse_if, ok_or, ◌==◌,
}
use ciacola.Base.Text.{trim, is_empty}
use ciacola.Contract.Intent.{CeilingCapability, TurnCeiling}
use ciacola.Contract.Capability.{capability_eq}
use ciacola.Limits.Accounting.{AdmissionState, ok as state_ok, warning, stopped}

pub data AdmissionOverrideKind : Type 0 where
  unguarded unobservable : AdmissionOverrideKind

-- `AdmissionOverrideKind::from_state`
abbrev pub from_state : AdmissionState → Option AdmissionOverrideKind
from_state AdmissionState.unguarded = some AdmissionOverrideKind.unguarded
from_state AdmissionState.unobservable = some AdmissionOverrideKind.unobservable
from_state state_ok = none
from_state warning = none
from_state stopped = none

pub record AdmissionOverride : Type 0 where
  pub kind : AdmissionOverrideKind
  pub reason : String
  pub source : String
  pub provider : String
  pub checked_unix : ℕ
  pub reported_spend_micro_usd : ℕ
  pub daily_stop_micro_usd : Option ℕ
  pub reported_tokens : ℕ
  pub daily_stop_tokens : Option ℕ
  pub cost_gaps : ℕ
  pub usage_gaps : ℕ

pub data TurnProtectionState : Type 0 where
  enforced unbounded override_unavailable legacy : TurnProtectionState

unfoldable pub as_str : TurnProtectionState → String
as_str enforced = "enforced"
as_str unbounded = "unbounded"
as_str override_unavailable = "override_unavailable"
as_str legacy = "legacy"

pub record TurnProtectionOverride : Type 0 where
  pub reason : String
  pub source : String
  pub checked_unix : ℕ

pub record TurnProtectionSnapshot : Type 0 where
  pub version : ℕ
  pub provider : String
  pub state : TurnProtectionState
  pub configured_limit : Option ℕ
  pub capability : Option CeilingCapability
  pub unavailable_override : Option TurnProtectionOverride

abbrev pub snapshot_version : ℕ
snapshot_version = 1

unfoldable pub unbounded_snapshot : String → TurnProtectionSnapshot
unbounded_snapshot provider = record {
  version = snapshot_version;
  provider = provider;
  state = unbounded;
  configured_limit = none;
  capability = none;
  unavailable_override = none;
}

unfoldable pub enforced_snapshot : String → ℕ → CeilingCapability → TurnProtectionSnapshot
enforced_snapshot provider limit capability = record {
  version = snapshot_version;
  provider = provider;
  state = enforced;
  configured_limit = some limit;
  capability = some capability;
  unavailable_override = none;
}

unfoldable pub override_snapshot : String → ℕ → TurnProtectionOverride → TurnProtectionSnapshot
override_snapshot provider limit audit = record {
  version = snapshot_version;
  provider = provider;
  state = override_unavailable;
  configured_limit = some limit;
  capability = none;
  unavailable_override = some audit;
}

pub data ProtectionError : Type 0 where
  unsupported_version : ℕ → ProtectionError
  provider_mismatch : String → String → ProtectionError
  state_mismatch : String → String → ProtectionError
  no_limit no_capability unexpected_override capability_drift : ProtectionError
  invalid_limit : ℕ → ProtectionError
  unbounded_with_data unexpected_capability no_audit empty_audit : ProtectionError
  legacy_provenance : ProtectionError

-- `limit == 0 || limit > i64::MAX as u64`
abbrev pub bad_limit : ℕ → Bool
bad_limit limit = eqb limit 0 || ltb i64_max limit

-- `live_capability != Some(&capability)`
abbrev pub drifted : Option CeilingCapability → CeilingCapability → Bool
drifted none capability = true
drifted (some live) capability = not (capability_eq live capability)

module _ (s : TurnProtectionSnapshot) (live : Option CeilingCapability) where
  unfoldable pub validate_enforced : Result ProtectionError (Option TurnCeiling)
  validate_enforced = do
    limit ← ok_or s.configured_limit no_limit
    refuse_if (bad_limit limit) (invalid_limit limit)
    capability ← ok_or s.capability no_capability
    refuse_if (is_some s.unavailable_override) unexpected_override
    refuse_if (drifted live capability) capability_drift
    ok (some (record { capability = capability; limit = limit }))

  unfoldable pub validate_unbounded : Result ProtectionError (Option TurnCeiling)
  validate_unbounded = do
    refuse_if (is_some s.configured_limit || is_some s.capability || is_some s.unavailable_override)
        unbounded_with_data
    ok none

  unfoldable pub validate_override : Result ProtectionError (Option TurnCeiling)
  validate_override = do
    limit ← ok_or s.configured_limit no_limit
    refuse_if (bad_limit limit) (invalid_limit limit)
    refuse_if (is_some s.capability) unexpected_capability
    audit ← ok_or s.unavailable_override no_audit
    refuse_if (is_empty (trim audit.reason) || is_empty (trim audit.source)) empty_audit
    refuse_if (is_some live) capability_drift
    ok none

  unfoldable pub validate_state : TurnProtectionState → Result ProtectionError (Option TurnCeiling)
  unfolding validate_enforced validate_unbounded validate_override
  validate_state enforced = validate_enforced
  validate_state unbounded = validate_unbounded
  validate_state override_unavailable = validate_override
  validate_state legacy = err legacy_provenance

-- `TurnProtectionSnapshot::validate_for_execution`
unfoldable pub validate_for_execution :
    TurnProtectionSnapshot
    → String
    → String
    → Option CeilingCapability
    → Result ProtectionError (Option TurnCeiling)
unfolding validate_state
validate_for_execution s persisted_state persisted_provider live = do
  refuse_if (not (eqb s.version snapshot_version)) (unsupported_version s.version)
  refuse_if (not (s.provider == persisted_provider))
      (provider_mismatch s.provider persisted_provider)
  refuse_if (not (as_str s.state == persisted_state))
      (state_mismatch (as_str s.state) persisted_state)
  validate_state s live s.state
