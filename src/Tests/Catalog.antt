-- ===== src/Tests/Catalog.antt =====
-- What a discovery of src/consul/mod.rs finds, with a concrete agent.
use probes.Prelude.{
  ◌^◌, ◌<◌, ◌≡◌, ◌≢◌, ◌↔◌, refl, List, [], ◌∷◌, ◌++◌, In, some, true, none, ok, returns, panics,
  arith,
}
use probes.Prelude.Int.{pos}
use probes.Prelude.Map
use probes.Prelude.Map.{contains_key}
use probes.Prelude.Text.{Text, text}
use probes.Consul.Node.{to_string}
use probes.Consul.Node.Keys.{IsPlain}
use probes.Consul.Extract.{extract_matching_services}
use probes.Consul.Http.Panics.{Spoiled, http_call-panics}
use probes.Consul.Http.{Agent, HttpCall, http_call, query_uri_of}
use probes.Consul.Http.Found.{Listed, list_matching_nodes-Listed}
use probes.Consul.Http.Ranges.{IsNodeIn, list_matching_nodes-IsNodeIn}
use probes.Consul.Http.Query.{read_uri, read_uri-query_uri_of}
use probes.Tests.Instances.{simple_json, catalog_text}
use probes.Tests.Discovery.{agent, found, node, discovered}

abbrev node_key : Text
node_key = text "web:10.0.0.1:11213"

list_matching_nodes-Listed_example :
    (catalog : HttpCall simple_json agent) × (http_call simple_json agent
        (text "http://consul/v1/catalog/services")
        (pos 7)
      ≡ returns (ok catalog))
    × (found.index ≡ catalog.index)
    × ((contains_key node_key found.nodes ≡ true)
        ↔ Listed simple_json agent
            (text "http://consul")
            node_key
            (extract_matching_services simple_json (text "probed") catalog.body_json))
list_matching_nodes-Listed_example =
    list_matching_nodes-Listed simple_json agent (text "http://consul") (pos 7) (text "probed")
      found node_key discovered

list_matching_nodes-IsNodeIn_example :
    (catalog : HttpCall simple_json agent) × (http_call simple_json agent
        (text "http://consul/v1/catalog/services")
        (pos 7)
      ≡ returns (ok catalog))
    × IsNodeIn (extract_matching_services simple_json (text "probed") catalog.body_json) node
unfolding Map.get probes.Prelude.Bytes.bytes_eq
list_matching_nodes-IsNodeIn_example =
    list_matching_nodes-IsNodeIn simple_json agent (text "http://consul") (pos 7) (text "probed")
      found node_key node discovered refl

abbrev services_path : Text
services_path = text "http://consul/v1/catalog/services"

read_uri-query_uri_of_example :
    read_uri (query_uri_of services_path (pos 42)) ≡ some (services_path, pos 42)
read_uri-query_uri_of_example =
    read_uri-query_uri_of services_path (pos 42) (ground arith) (omega arith)

pub node-IsPlain : IsPlain node
node-IsPlain = record { name = ground arith; port = omega arith }

-- Where the name of a service has a colon, two nodes can have one key.
keys_collide :
    to_string (record { service_name = text "a:b"; ip = text "c"; port = 1 })
    ≡ to_string (record { service_name = text "a"; ip = text "b:c"; port = 1 })
unfolding to_string
keys_collide = refl

-- The index header of this agent is no text.
abbrev garbled : Agent
garbled = record {
  parses = λ uri. true;
  get = λ uri. ok (record {
    status = 200;
    is_success = true;
    x_consul_index = some none;
    body = ok catalog_text;
  });
}

http_call-panics_example :
    (http_call simple_json garbled services_path (pos 7) ≡ panics)
    ↔ Spoiled simple_json garbled (query_uri_of services_path (pos 7))
http_call-panics_example = http_call-panics simple_json garbled services_path (pos 7)
