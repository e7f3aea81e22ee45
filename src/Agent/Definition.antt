-- ===== src/Agent/Definition.antt =====
-- crates/ciacola-core/src/agent.rs: `AgentDef`. A stored definition is JSON in the database; here it
-- is the value itself.
use ciacola.Base.{ℕ, String, Bool, false, Option, List, if◌then◌else◌, unwrap_or}

pub record AgentDef : Type 0 where
  pub name : String
  pub catalog_role : Option String
  pub system_prompt : String
  pub provider : String
  pub provider_inherited : Bool
  pub model : Option String
  pub effort : Option String
  pub allowed_tools : List String
  pub inherit_provider_tools : Bool
  pub sandbox : Option String
  pub working_dir : Option String
  pub max_turns : Option ℕ
  pub mcp_config : Option String
  pub rotate_after_turns : Option ℕ
  pub hermetic : Option String
  pub config_home : Option String
  pub house_rules : Option String
  pub token_env : Option String

unfoldable pub resolve_provider : String → AgentDef → AgentDef
resolve_provider provider def =
    if def.provider_inherited
    then record def { provider = provider; provider_inherited = false }
    else def

-- The fields of `Runtime` (crates/ciacola-core/src/roles.rs) that reach a stored definition.
pub record Runtime : Type 0 where
  pub default_provider : Option String
  pub hermetic : Option String
  pub sandbox : Option String
  pub claude_home : Option String
  pub codex_home : Option String

-- `Runtime::default_provider_key`
unfoldable pub default_provider_key : Runtime → String
default_provider_key r = unwrap_or r.default_provider "claude"
