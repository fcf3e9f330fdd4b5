-- ===== src/Consul/Http.antt =====
-- The calls of the consul agent in src/consul/mod.rs.
-- The HTTP client is the environment: `parses` is what its `Uri` accepts, and `get` what it answers to a
-- uri in the course of one discovery.
pub mod Ensures
pub mod Index
pub mod Panics
pub mod Calm
pub mod Keys
pub mod Found
pub mod Ranges
pub mod Query
use probes.Prelude.{
  ℕ, List, [], ◌∷◌, ◌++◌, Option, none, some, Bool, not, if◌then◌else◌, Result, ok, err, Outcome,
  returns, panics,
}
use probes.Prelude.Bytes.{Bytes}
use probes.Prelude.Int.{ℤ, pos}
use probes.Prelude.Map
use probes.Prelude.Map.{Map}
use probes.Prelude.Numbers.{show_ℤ, parse_i64}
use probes.Prelude.Text.{Text, text}
use probes.Prelude.Utf8.{from_utf8}
use probes.Consul.Json.{Json}
use probes.Consul.Node.{ServiceNode, ServiceNodes, to_string}
use probes.Consul.Extract.{get_watch_index, extract_matching_services, extract_nodes}

-- `hyper::Error`: which one it is does not matter to the code.
abbrev pub HyperError : Type 0
HyperError = ℕ

pub data ConsulError : Type 0 where
  invalid_uri : Text → ConsulError
  transport : HyperError → ConsulError
  bad_status : Text → ℕ → ConsulError
  bad_index : Text → ConsulError

-- The parts of a response that the code looks at. A header is the text that `to_str` gives, or nothing
-- where it refuses.
pub record Response : Type 0 where
  pub status : ℕ
  pub is_success : Bool
  pub x_consul_index : Option (Option Text)
  pub body : Result Bytes HyperError

pub record Agent : Type 0 where
  pub parses : Text → Bool
  pub get : Text → Result Response HyperError

-- Code that can fail, and can panic.
abbrev pub Try {ℓ} : Type ℓ → Type ℓ
Try A = Outcome (Result A ConsulError)

infixl 5 ◌>>=◌
abbrev pub ◌>>=◌ {ℓ κ} : {A : Type ℓ} {B : Type κ} → Try A → (A → Try B) → Try B
◌>>=◌ m f = elim m [ returns (ok a) ↦ f a | returns (err e) ↦ returns (err e) | panics ↦ panics ]

abbrev pub pure {ℓ} : {A : Type ℓ} → A → Try A
pure a = returns (ok a)

abbrev pub fail {ℓ} : {A : Type ℓ} → ConsulError → Try A
fail e = returns (err e)

-- `unwrap` of what may be missing, and a panic of what is called.
abbrev pub must {ℓ} : {A : Type ℓ} → Option A → Try A
must none = panics
must (some a) = pure a

abbrev pub lift {ℓ} : {A : Type ℓ} → Outcome A → Try A
lift (returns a) = pure a
lift panics = panics

abbrev pub or_transport {ℓ} : {A : Type ℓ} → Result A HyperError → Try A
or_transport (ok a) = pure a
or_transport (err e) = fail (transport e)

-- `parse()?`
abbrev pub or_bad_index : Text → Option ℤ → Try ℤ
or_bad_index header (some i) = pure i
or_bad_index header none = fail (bad_index header)

-- The `if let` on the header.
unfoldable pub index_of : ℤ → Option (Option Text) → Try ℤ
index_of prev_index none = pure (pos 0)
index_of prev_index (some header) = do
  consul_index ← must header
  index ← or_bad_index consul_index (parse_i64 consul_index)
  pure (get_watch_index prev_index index)

-- The `if` on the status.
pub check_status : Text → Response → Try (Unit {0})
check_status query_uri resp =
    if not resp.is_success then fail (bad_status query_uri resp.status) else pure tt

pub check_uri : Agent → Text → Try (Unit {0})
check_uri agent query_uri = if agent.parses query_uri then pure tt else fail (invalid_uri query_uri)

unfoldable pub query_uri_of : Text → ℤ → Text
query_uri_of uri_str prev_index =
    uri_str ++ (text "?index=" ++ (show_ℤ prev_index ++ text "&wait=5m"))

-- The inner loop: each node under its key, the last one of a key stays.
pub insert_nodes : List ServiceNode → Map ServiceNode → Map ServiceNode
insert_nodes [] services_nodes = services_nodes
insert_nodes (n ∷ ns) services_nodes = insert_nodes ns (Map.insert (to_string n) n services_nodes)

module _ (json : Json) (agent : Agent) where
  open json use {Value, null, from_str}

  pub record HttpCall : Type 0 where
    pub index : ℤ
    pub body_json : Value

  -- A body that is no JSON counts as null.
  abbrev or_null : Option Value → Value
  or_null (some x) = x
  or_null none = null

  unfoldable pub http_call : Text → ℤ → Try HttpCall
  unfolding index_of check_status check_uri
  http_call uri_str prev_index = do
    let query_uri = query_uri_of uri_str prev_index
    ready ← check_uri agent query_uri
    resp ← or_transport (agent.get query_uri)
    fine ← check_status query_uri resp
    resp_index ← index_of prev_index resp.x_consul_index
    bytes ← or_transport resp.body
    body_str ← must (from_utf8 bytes)
    pure (record { index = resp_index; body_json = or_null (from_str body_str) })

  unfoldable pub list_nodes_for_service : Text → Text → Try (List ServiceNode)
  list_nodes_for_service fqdn service_name = do
    response ← http_call (fqdn ++ (text "/v1/catalog/service/" ++ service_name)) (pos 0)
    lift (extract_nodes json service_name response.body_json)

  -- The outer loop, over the matching services.
  pub collect : Text → List Text → Map ServiceNode → Try (Map ServiceNode)
  unfolding insert_nodes
  collect fqdn [] services_nodes = pure services_nodes
  collect fqdn (name ∷ names) services_nodes = do
    service_nodes ← list_nodes_for_service fqdn name
    collect fqdn names (insert_nodes service_nodes services_nodes)

  unfoldable pub list_matching_nodes : Text → ℤ → Text → Try ServiceNodes
  unfolding collect
  list_matching_nodes fqdn prev_index tag = do
    response ← http_call (fqdn ++ text "/v1/catalog/services") prev_index
    nodes ← collect fqdn (extract_matching_services json tag response.body_json) []
    pure (record { index = response.index; nodes = nodes })
