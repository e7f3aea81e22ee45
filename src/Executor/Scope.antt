-- ===== src/Executor/Scope.antt =====
-- crates/ciacola-core/src/exec.rs: `token_scoped_mcp_scope`. The file is read and parsed outside: what it
-- holds is a value of JSON, of which the code tells texts and objects apart from the rest.
use ciacola.Base.{
  String, ◌==◌, Bool, true, false, not, Option, none, some, List, [], ◌∷◌, if◌then◌else◌, Result,
  ok, err, ◌>>=◌, ◌>>◌, refuse_if, ok_or,
}
use ciacola.Base.OrderedMap
use ciacola.Base.OrderedMap.{OrderedMap}
use ciacola.Contract.Intent.{McpEndpoint, McpScope}

mutual
  pub data Json : Type 0 where
    text : String → Json
    object : Fields → Json
    other : Json

  -- an object, in the order of its keys
  pub data Fields : Type 0 where
    end : Fields
    field : String → Json → Fields → Fields

pub data ScopeError : Type 0 where
  unreadable no_servers : ScopeError
  not_an_object unsupported_type no_url bad_headers : String → ScopeError
  bad_header : String → String → ScopeError

-- `Map::get`
unfoldable pub get_field : String → Fields → Option Json
get_field key end = none
get_field key (field k v rest) =
    let later = get_field key rest in if k == key then some v else later

abbrev as_str : Json → Option String
as_str (text s) = some s
as_str (object fields) = none
as_str other = none

abbrev as_object : Json → Option Fields
as_object (text s) = none
as_object (object fields) = some fields
as_object other = none

abbrev field_of : String → Json → Option Json
field_of key (text s) = none
field_of key (object fields) = get_field key fields
field_of key other = none

-- `identity::TOKEN_HEADER`
abbrev pub token_header : String
token_header = "x-ciacola-agent"

-- a kind that is given must be `http`
abbrev is_http : Option Json → Bool
is_http none = true
is_http (some kind) = elim (as_str kind) [ none ↦ false | some s ↦ s == "http" ]

unfoldable pub headers_of :
    String → Fields → OrderedMap String → Result ScopeError (OrderedMap String)
unfolding OrderedMap.insert
headers_of name end headers = ok headers
headers_of name (field key value rest) headers =
    let later = λ (v : String). headers_of name rest (OrderedMap.insert key v headers) in
    elim (as_str value) [ none ↦ err (bad_header name key) | some v ↦ later v ]

abbrev raw_headers : String → Option Json → Result ScopeError (OrderedMap String)
raw_headers name none = ok []
raw_headers name (some raw) = elim (as_object raw) [
  | none ↦ err (bad_headers name)
  | some fields ↦ headers_of name fields []
]

abbrev with_token : String → String → OrderedMap String → OrderedMap String
with_token token name headers =
    if name == "ciacola" then OrderedMap.insert token_header token headers else headers

unfoldable pub endpoint_of : String → String → Json → Result ScopeError McpEndpoint
unfolding headers_of OrderedMap.insert get_field
endpoint_of token name value = do
  server ← ok_or (as_object value) (not_an_object name)
  refuse_if (not (is_http (get_field "type" server))) (unsupported_type name)
  url ← ok_or (elim (get_field "url" server) [ none ↦ none | some u ↦ as_str u ]) (no_url name)
  headers ← raw_headers name (get_field "headers" server)
  ok (record { name = name; url = url; headers = with_token token name headers })

unfoldable pub endpoints_of : String → Fields → Result ScopeError (List McpEndpoint)
unfolding endpoint_of
endpoints_of token end = ok []
endpoints_of token (field name value rest) =
    let later = endpoints_of token rest in
    endpoint_of token name value >>= λ e. later >>= λ es. ok (e ∷ es)

-- `token_scoped_mcp_scope`: `none` is a file that cannot be read, or is no JSON
unfoldable pub token_scoped_mcp_scope : String → Option Json → Result ScopeError McpScope
unfolding endpoints_of get_field
token_scoped_mcp_scope token raw = do
  config ← ok_or raw unreadable
  servers ←
      ok_or (elim (field_of "mcpServers" config) [ none ↦ none | some s ↦ as_object s ]) no_servers
  endpoints ← endpoints_of token servers
  ok (record { endpoints = endpoints; strict = true })
