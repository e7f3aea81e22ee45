-- ===== src/Contract/Registry.antt =====
-- crates/ciacola-agent/src/provider.rs: the registry of adapters. An adapter runs a foreign command,
-- so of it only the key and the declared capabilities are modelled.
use ciacola.Base.{String, none, some, is_some, if◌then◌else◌, Result, ok, err}
use ciacola.Base.OrderedMap
use ciacola.Base.OrderedMap.{OrderedMap}
use ciacola.Contract.Capability.{Capabilities}
use ciacola.Contract.Failure.{AgentError, unknown_provider}

pub record Provider : Type 0 where
  pub key : String
  pub capabilities : Capabilities

abbrev pub Registry : Type 0
Registry = OrderedMap Provider

pub record DuplicateProvider : Type 0 where
  pub key : String

unfoldable pub register : Registry → Provider → Result DuplicateProvider Registry
register ps p =
    if is_some (OrderedMap.lookup p.key ps)
    then err (record { key = p.key })
    else ok (OrderedMap.insert p.key p ps)

unfoldable pub get : Registry → String → Result AgentError Provider
get ps key = elim (OrderedMap.lookup key ps) [
  | some p ↦ ok p
  | none ↦ err (unknown_provider key (OrderedMap.keys ps))
]
