-- ===== src/Contract/Tests.antt =====
-- A turn that asks for every boundary, and the sample provider, which has them.
use ciacola.Base.{◌≡◌, ◌↔◌, none, some, [], ◌∷◌}
use ciacola.Contract.Intent.{TurnIntent, new, full, workspace_write}
use ciacola.Contract.Capability.{blocking, validate}
use ciacola.Contract.Capability.Fence.{Honours, blocking-validate}
use ciacola.Samples.{able, meter}

abbrev intent : TurnIntent
intent = record (new "Run the tests.") {
  isolation = full;
  sandbox = workspace_write;
  allowed_tools = some ("Read" ∷ []);
  config_home = some "/home/claude";
  turn_ceiling = some (record { capability = meter; limit = 800 });
}

blocking-validate_example : (blocking (validate able intent) ≡ none) ↔ Honours able intent
blocking-validate_example = blocking-validate able intent
