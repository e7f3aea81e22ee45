-- ===== src/Contract/Capability/Fence.antt =====
-- The boundary that `validate` draws: which turns a provider may run.
use ciacola.Base.{
  ◌≡◌, refl, ◌≢◌, ◌↔◌, true, Option, none, some, [], ◌∷◌, ◌++◌, eq_iff, or_else, arith, ◌⊎◌,
}
use ciacola.Contract.Intent.{
  CeilingCapability, TurnCeiling, McpScope, TurnIntent, inherit, unconstrained,
}
use ciacola.Contract.Capability.{
  Capabilities, Validation, blocking, capability_eq, check_isolation, check_credentials,
  check_sandbox, check_mcp, check_tools, check_resume, check_provider_turns, check_ceiling,
  check_effort, mcp_findings, ceiling_findings, validate,
}

-- Everything that an intent asks for as a boundary of authority or of spend is honoured.
pub record Honours (caps : Capabilities) (intent : TurnIntent) : Type 0 where
  pub sealed : intent.isolation ≢ inherit → caps.isolation ≡ true
  pub home :
      (intent.config_home ≢ none) ⊎ (intent.token_env ≢ none) → caps.credential_isolation ≡ true
  pub contained : intent.sandbox ≢ unconstrained → caps.sandbox ≡ true
  pub scoped : (m : McpScope) → intent.mcp ≡ some m → caps.scoped_mcp ≡ true
  pub exclusive : (m : McpScope) → intent.mcp ≡ some m → m.strict ≡ true → caps.strict_mcp ≡ true
  pub granted : intent.allowed_tools ≢ none → caps.allowed_tools ≡ true
  pub capped :
      (c : TurnCeiling) → intent.turn_ceiling ≡ some c → caps.turn_ceiling ≡ some c.capability

pub capability_eq_iff : (a b : CeilingCapability) → (capability_eq a b ≡ true) ↔ (a ≡ b)
unfolding capability_eq
capability_eq_iff a b = ground (arith, eq_iff a.meter b.meter)

blocking-append : (xs ys : Validation) → blocking (xs ++ ys) ≡ or_else (blocking xs) (blocking ys)
unfolding blocking
blocking-append [] ys = refl
blocking-append (u ∷ us) ys = ground (arith, blocking-append us ys)

-- The nine checks of `validate`: none of them blocks.
blocking_nine :
    (a b c d e f g h i : Validation)
    → (blocking (a ++ (b ++ (c ++ (d ++ (e ++ (f ++ (g ++ (h ++ i)))))))) ≡ none) ↔ (
        (blocking a ≡ none)
        × (blocking b ≡ none)
        × (blocking c ≡ none)
        × (blocking d ≡ none)
        × (blocking e ≡ none)
        × (blocking f ≡ none)
        × (blocking g ≡ none)
        × (blocking h ≡ none)
        × (blocking i ≡ none))
blocking_nine a b c d e f g h i = ground (
  arith,
  blocking-append a (b ++ (c ++ (d ++ (e ++ (f ++ (g ++ (h ++ i))))))),
  blocking-append b (c ++ (d ++ (e ++ (f ++ (g ++ (h ++ i)))))),
  blocking-append c (d ++ (e ++ (f ++ (g ++ (h ++ i))))),
  blocking-append d (e ++ (f ++ (g ++ (h ++ i)))),
  blocking-append e (f ++ (g ++ (h ++ i))),
  blocking-append f (g ++ (h ++ i)),
  blocking-append g (h ++ i),
  blocking-append h i,
)

module _ (caps : Capabilities) (intent : TurnIntent) where
  blocking-check_isolation :
      (blocking (check_isolation caps intent) ≡ none)
      ↔ (intent.isolation ≢ inherit → caps.isolation ≡ true)
  unfolding blocking check_isolation
  blocking-check_isolation = ground arith

  blocking-check_credentials :
      (blocking (check_credentials caps intent) ≡ none)
      ↔ ((intent.config_home ≢ none) ⊎ (intent.token_env ≢ none) → caps.credential_isolation ≡ true)
  unfolding blocking check_credentials
  blocking-check_credentials = ground arith

  blocking-check_sandbox :
      (blocking (check_sandbox caps intent) ≡ none)
      ↔ (intent.sandbox ≢ unconstrained → caps.sandbox ≡ true)
  unfolding blocking check_sandbox
  blocking-check_sandbox = ground arith

  blocking-check_tools :
      (blocking (check_tools caps intent) ≡ none)
      ↔ (intent.allowed_tools ≢ none → caps.allowed_tools ≡ true)
  unfolding blocking check_tools
  blocking-check_tools = ground arith

  -- The three hints never block.
  blocking_hints :
      (blocking (check_resume caps intent) ≡ none)
      × (blocking (check_provider_turns caps intent) ≡ none)
      × (blocking (check_effort caps intent) ≡ none)
  unfolding blocking check_resume check_provider_turns check_effort
  blocking_hints = (ground arith, ground arith, ground arith)

blocking-mcp_findings :
    (caps : Capabilities) (o : Option McpScope)
    → (blocking (mcp_findings caps o) ≡ none) ↔ (
        (m : McpScope)
        → o ≡ some m
        → (caps.scoped_mcp ≡ true) × (m.strict ≡ true → caps.strict_mcp ≡ true))
unfolding blocking mcp_findings
blocking-mcp_findings caps none = (λ _ m e. cc, λ _. refl)
blocking-mcp_findings caps (some s) =
    (λ h m e. (ground arith, λ k. ground arith), λ h. ground (arith, h s refl))

blocking-ceiling_findings :
    (available : Option CeilingCapability) (o : Option TurnCeiling)
    → (blocking (ceiling_findings available o) ≡ none)
      ↔ ((c : TurnCeiling) → o ≡ some c → available ≡ some c.capability)
unfolding blocking ceiling_findings
blocking-ceiling_findings available none = (λ _ m e. cc, λ _. refl)
blocking-ceiling_findings none (some r) = (λ h m e. ground arith, λ h. cc (h r refl))
blocking-ceiling_findings (some a) (some r) = (
  λ h m e. ground (arith, capability_eq_iff a r.capability),
  λ h. ground (arith, capability_eq_iff a r.capability, h r refl),
)

module _ (caps : Capabilities) (intent : TurnIntent) where
  parts : (blocking (validate caps intent) ≡ none) ↔ (
      (blocking (check_isolation caps intent) ≡ none)
      × (blocking (check_credentials caps intent) ≡ none)
      × (blocking (check_sandbox caps intent) ≡ none)
      × (blocking (check_mcp caps intent) ≡ none)
      × (blocking (check_tools caps intent) ≡ none)
      × (blocking (check_resume caps intent) ≡ none)
      × (blocking (check_provider_turns caps intent) ≡ none)
      × (blocking (check_ceiling caps intent) ≡ none)
      × (blocking (check_effort caps intent) ≡ none))
  unfolding validate
  parts =
      blocking_nine (check_isolation caps intent) (check_credentials caps intent)
        (check_sandbox caps intent) (check_mcp caps intent) (check_tools caps intent)
        (check_resume caps intent) (check_provider_turns caps intent) (check_ceiling caps intent)
        (check_effort caps intent)

  -- No finding of `validate` blocks the turn exactly if the provider honours every boundary of
  -- authority and of spend that the intent asks for.
  pub blocking-validate : (blocking (validate caps intent) ≡ none) ↔ Honours caps intent
  unfolding check_mcp check_ceiling
  blocking-validate = (
    λ h.
        let p = parts.0 h in
        record {
          sealed = (blocking-check_isolation caps intent).0 p.0;
          home = (blocking-check_credentials caps intent).0 p.1;
          contained = (blocking-check_sandbox caps intent).0 p.2;
          scoped = λ m e. ((blocking-mcp_findings caps intent.mcp).0 p.3 m e).0;
          exclusive = λ m e. ((blocking-mcp_findings caps intent.mcp).0 p.3 m e).1;
          granted = (blocking-check_tools caps intent).0 p.4;
          capped = (blocking-ceiling_findings caps.turn_ceiling intent.turn_ceiling).0 p.7;
        },
    λ k.
        let hints = blocking_hints caps intent in
        parts.1 (
          (blocking-check_isolation caps intent).1 k.sealed,
          (blocking-check_credentials caps intent).1 k.home,
          (blocking-check_sandbox caps intent).1 k.contained,
          (blocking-mcp_findings caps intent.mcp).1 (λ m e. (k.scoped m e, k.exclusive m e)),
          (blocking-check_tools caps intent).1 k.granted,
          hints.0,
          hints.1,
          (blocking-ceiling_findings caps.turn_ceiling intent.turn_ceiling).1 k.capped,
          hints.2,
        ),
  )
