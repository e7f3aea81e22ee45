-- ===== src/Samples.antt =====
-- Sample data for the tests: one provider with every capability, one agent, and the exchanges of a
-- turn.
use ciacola.Base.{ℕ, true, false, none, some, [], ◌∷◌}
use ciacola.Base.Int.{pos}
use ciacola.Agent.Definition.{AgentDef, Runtime}
use ciacola.Agent.Exchange.{Exchange}
use ciacola.Contract.Intent.{CeilingCapability, provider_response_boundary, included}
use ciacola.Contract.Outcome.{TokenUsage, Usage, Cost}
use ciacola.Contract.Capability.{Capabilities}
use ciacola.Contract.Registry.{Registry}
use ciacola.Limits.Config.{Limits, ProviderLimits, Usd}
use ciacola.Limits.Protection.{TurnProtectionSnapshot, TurnProtectionState}

abbrev pub runtime : Runtime
runtime = record {
  default_provider = none;
  hermetic = some "full";
  sandbox = none;
  claude_home = some "/home/claude";
  codex_home = none;
}

abbrev pub meter : CeilingCapability
meter = record {
  meter = "total_tokens";
  granularity = provider_response_boundary;
  cache_treatment = included;
}

abbrev pub able : Capabilities
able = record {
  provider = "claude";
  client_assigned_resume = true;
  isolation = true;
  credential_isolation = true;
  sandbox = true;
  scoped_mcp = true;
  strict_mcp = true;
  allowed_tools = true;
  max_provider_turns = true;
  turn_ceiling = some meter;
  effort = true;
  reports_cost = true;
  reports_token_usage = true;
  reports_provider_turns = true;
}

abbrev pub registry : Registry
registry = ("claude", record { key = "claude"; capabilities = able }) ∷ []

abbrev pub definition : AgentDef
definition = record {
  name = "ada";
  catalog_role = none;
  system_prompt = "You write tests.";
  provider = "claude";
  provider_inherited = false;
  model = none;
  effort = none;
  allowed_tools = "Read" ∷ [];
  inherit_provider_tools = false;
  sandbox = none;
  working_dir = none;
  max_turns = none;
  mcp_config = none;
  rotate_after_turns = none;
  hermetic = none;
  config_home = none;
  house_rules = none;
  token_env = none;
}

abbrev pub usage : TokenUsage
usage = record { input = 100; output = 20; cached_input = 5 }

abbrev pub exchange : Exchange
exchange = record {
  reply = "done";
  session = some "s-1";
  cost = Cost.reported 2500;
  cost_complete = true;
  usage = Usage.reported usage;
  usage_complete = true;
  provider_turns = some 3;
  elapsed_ms = 1500;
  error = none;
  failure_kind = none;
}

abbrev pub protection : TurnProtectionSnapshot
protection = record {
  version = 1;
  provider = "claude";
  state = TurnProtectionState.unbounded;
  configured_limit = none;
  capability = none;
  unavailable_override = none;
}

abbrev pub dollars : ℕ → Usd
dollars micro = record {
  is_finite = true;
  is_positive = true;
  is_representable = true;
  micro = micro;
}

abbrev pub claude_limits : ProviderLimits
claude_limits = record {
  daily_warn_tokens = some 5000;
  daily_stop_tokens = some 10000;
  per_turn_ceiling = some 800;
}

abbrev pub limits : Limits
limits = record {
  daily_warn_usd = some (dollars 4000000);
  daily_stop_usd = some (dollars 5000000);
  providers = ("claude", claude_limits) ∷ [];
  max_spawn_depth = pos 3;
}
