-- ===== src/Admission/Admit/Execution.antt =====
-- The protection that an admission froze, at the start of the turn's execution.
use ciacola.Base.{
  ℕ, ◌≤◌, ◌<◌, String, ◌≡◌, refl, false, Option, none, some, arith, ok, subst, sym, i64_max,
  ==_self,
}
use ciacola.Base.Text.{trim, is_empty}
use ciacola.Base.Text.Blank.{is_empty-trim-trim}
use ciacola.Contract.Intent.{CeilingCapability, TurnCeiling}
use ciacola.Ledger.Rows.{Ledger}
use ciacola.Limits.Config.{Limits, provider_limits, validate}
use ciacola.Limits.Config.Validated.{validate-IsSound, InRange}
use ciacola.Limits.Protection.{
  TurnProtectionOverride, validate_for_execution, unbounded_snapshot, enforced_snapshot,
  override_snapshot, as_str,
}
use ciacola.Limits.Protection.Execution.{execution_ceiling_iff}
use ciacola.Admission.Report.{ceiling_of}
use ciacola.Admission.Admit.{
  AdmissionAuthority, automatic, supervised, Plan, Frozen, freeze_protection, decide,
}
use ciacola.Admission.Admit.Fence.{decide-Reached}

-- The ceiling that the provider is to be handed.
abbrev pub ceiling_for : Option ℕ → Option CeilingCapability → Option TurnCeiling
ceiling_for (some limit) (some capability) =
    some (record { capability = capability; limit = limit })
ceiling_for none capability = none
ceiling_for (some limit) none = none

unbounded_runs :
    (provider : String) (live : Option CeilingCapability)
    → validate_for_execution
        (unbounded_snapshot provider)
        (as_str (unbounded_snapshot provider).state)
        provider
        live
      ≡ ok none
unfolding validate_for_execution unbounded_snapshot as_str
unbounded_runs provider live = ground (arith, ==_self provider)

enforced_runs :
    (provider : String) (limit : ℕ) (c : CeilingCapability)
    → (0 < limit) × (limit ≤ i64_max)
    → let s = enforced_snapshot provider limit c in
      validate_for_execution s (as_str s.state) provider (some c)
      ≡ ok (some (record { capability = c; limit = limit }))
unfolding enforced_snapshot as_str
enforced_runs provider limit c r =
    (execution_ceiling_iff (enforced_snapshot provider limit c) (some c) _ "enforced" provider).1 (
      record { version = refl; provider = refl; state = refl },
      refl,
      record {
        limit = refl;
        positive = r.0;
        in_range = r.1;
        capability = refl;
        no_override = refl;
        unchanged = refl;
      },
    )

override_runs :
    (provider : String) (limit : ℕ) (reason source : String) (now : ℕ)
    → (0 < limit) × (limit ≤ i64_max)
    → is_empty (trim reason) ≡ false
    → is_empty (trim source) ≡ false
    → let s =
        override_snapshot provider limit
          (record { reason = trim reason; source = source; checked_unix = now }) in
      validate_for_execution s (as_str s.state) provider none ≡ ok none
unfolding validate_for_execution override_snapshot as_str
override_runs provider limit reason source now r a b =
    ground (arith, ==_self provider, is_empty-trim-trim reason, a, b)

freeze-runs :
    (authority : AdmissionAuthority) (provider source : String) (now : ℕ) (ceiling : Option ℕ)
    (capability : Option CeilingCapability) (f : Frozen)
    → InRange ceiling
    → is_empty (trim source) ≡ false
    → freeze_protection authority provider source now ceiling capability ≡ ok f
    → validate_for_execution f.0 (as_str f.0.state) provider capability
      ≡ ok (ceiling_for ceiling capability)
unfolding freeze_protection
freeze-runs authority provider source now none capability f r b h =
    let same : (unbounded_snapshot provider, none) ≡ f = ground arith in
    subst
      (λ (f : Frozen). validate_for_execution f.0 (as_str f.0.state) provider capability ≡ ok none)
      same (unbounded_runs provider capability)
freeze-runs authority provider source now (some limit) (some c) f r b h =
    let same : (enforced_snapshot provider limit c, none) ≡ f = ground arith in
    subst
      (λ (f : Frozen).
        validate_for_execution f.0 (as_str f.0.state) provider (some c)
        ≡ ok (some (record { capability = c; limit = limit })))
      same (enforced_runs provider limit c (r limit refl))
freeze-runs automatic provider source now (some limit) none f r b h = cc
freeze-runs (supervised reason) provider source now (some limit) none f r b h =
    let audit : TurnProtectionOverride = record {
      reason = trim reason;
      source = source;
      checked_unix = now;
    } in
    let blank : is_empty (trim reason) ≡ false = ground arith in
    let same : (override_snapshot provider limit audit, some audit) ≡ f = ground arith in
    subst (λ (f : Frozen). validate_for_execution f.0 (as_str f.0.state) provider none ≡ ok none)
      same (override_runs provider limit reason source now (r limit refl) blank b)

-- A turn that was admitted under validated limits, from a source that is not blank, passes the check
-- at execution as long as its provider declares the capability that it declared at admission; the
-- provider is then handed the configured ceiling if it can enforce one, and none otherwise.
pub decide-runs :
    (l : Ledger) (limits : Limits) (authority : AdmissionAuthority) (agent_id source : String)
    (now : ℕ) (p : Plan)
    → validate limits ≡ ok tt
    → is_empty (trim source) ≡ false
    → decide l limits authority agent_id source now ≡ ok p
    → let capability = ceiling_of l.providers p.provider in
      validate_for_execution p.turn_protection
        (as_str p.turn_protection.state)
        p.provider
        capability
      ≡ ok (ceiling_for (provider_limits limits p.provider).per_turn_ceiling capability)
unfolding ceiling_of
decide-runs l limits authority agent_id source now p v b h =
    let r = decide-Reached l limits authority agent_id source now p h in
    let sound = (validate-IsSound limits v).0 r.agent.def.provider in
    let declared : ceiling_of l.providers r.agent.def.provider
        ≡ r.backend.capabilities.turn_ceiling =
      ground (arith, r.registered) in
    subst
      (λ key.
        validate_for_execution p.turn_protection (as_str p.turn_protection.state) key
          (ceiling_of l.providers key)
        ≡ ok (
            ceiling_for (provider_limits limits key).per_turn_ceiling (ceiling_of l.providers key)))
      (sym r.for_provider)
      (freeze-runs authority r.agent.def.provider source now _ _
        (p.turn_protection, p.turn_protection_override) sound.ceiling_range b
        (rw declared r.protection))
