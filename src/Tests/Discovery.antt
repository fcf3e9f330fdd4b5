-- ===== src/Tests/Discovery.antt =====
-- The discovery of src/consul/mod.rs and the loop of src/probes/mod.rs with a concrete agent.
use probes.Prelude.{
  ℕ, ◌+◌, ◌-◌, ◌*◌, ◌%◌, ◌^◌, ◌≤◌, ◌≡◌, ◌≢◌, ◌↔◌, refl, List, [], ◌∷◌, ◌++◌, All, In, map, Option,
  none, some, Bool, true, false, Result, ok, err, Outcome, returns, panics, arith, if◌then◌else◌,
}
use probes.Prelude.Bytes.{bytes_eq}
use probes.Prelude.Int.{pos, negsuc}
use probes.Prelude.Map
use probes.Prelude.Map.{contains_key, Distinct}
use probes.Prelude.Text.{Text, text}
use probes.Consul.Node.{ServiceNode, ServiceNodes, to_string}
use probes.Consul.Extract.{
  get_watch_index, extract_matching_services, extract_nodes, get_service_address_port,
  is_matching_service,
}
use probes.Consul.Extract.Matching.{Tagged, extract_matching_services-Tagged}
use probes.Consul.Http.{
  Response, Agent, http_call, list_nodes_for_service, list_matching_nodes, query_uri_of,
}
use probes.Tests.Instances.{
  simple_json, whole_float, catalog, catalog_text, node_text, node_value, number_value, item,
  empty_array, string_value, as_str, as_u64, as_array, as_object, from_str, items, fields,
}

keeps_greater_index : get_watch_index (pos 1) (pos 2) ≡ pos 2
unfolding get_watch_index
keeps_greater_index = refl

resets_lower_index : get_watch_index (pos 2) (pos 1) ≡ pos 0
unfolding get_watch_index
resets_lower_index = refl

resets_negative_index : get_watch_index (negsuc 1) (negsuc 0) ≡ pos 0
unfolding get_watch_index
resets_negative_index = refl

-- An agent with one service that has the tag, and one node of it.
abbrev pub answer : Text → Response
answer body = record {
  status = 200;
  is_success = true;
  x_consul_index = some (some (text "42"));
  body = ok body;
}

abbrev pub catalog_uri : Text
catalog_uri = text "http://consul/v1/catalog/services?index=7&wait=5m"

abbrev pub agent : Agent
agent = record {
  parses = λ uri. true;
  get = λ uri. if bytes_eq uri catalog_uri then ok (answer catalog_text) else ok (answer node_text);
}

abbrev pub down : Agent
down = record { parses = λ uri. true; get = λ uri. err 111 }

abbrev pub node : ServiceNode
node = record { service_name = text "web"; ip = text "10.0.0.1"; port = 11213 }

abbrev pub found : ServiceNodes
found = record { index = pos 42; nodes = (text "web:10.0.0.1:11213", node) ∷ [] }

pub discovered :
    list_matching_nodes simple_json agent (text "http://consul") (pos 7) (text "probed")
    ≡ returns (ok found)
unfolding list_matching_nodes http_call bytes_eq query_uri_of probes.Prelude.Numbers.show_ℤ
    probes.Prelude.Text.decimal probes.Prelude.Numbers.parse_i64 probes.Prelude.Utf8.from_utf8
    extract_matching_services as_object from_str as_array probes.Tests.Instances.value_at Map.get
    as_str list_nodes_for_service extract_nodes fields get_watch_index items to_string
    get_service_address_port is_matching_service as_u64 Map.insert
discovered = refl

tag_is_named : text "probed" ≢ []
tag_is_named = cc

extract_matching_services_example :
    In (text "web") (extract_matching_services simple_json (text "probed") catalog) ↔ (
      In (text "web") (text "web" ∷ text "db" ∷ [])
      × Tagged simple_json (text "probed") (some (string_value (text "probed") ∷ [])))
unfolding as_object fields as_array items probes.Tests.Instances.value_at Map.get bytes_eq
extract_matching_services_example =
    extract_matching_services-Tagged simple_json (text "probed") catalog
      ((text "web", item (string_value (text "probed")) empty_array)
        ∷ (text "db", empty_array)
        ∷ [])
      (text "web") tag_is_named refl
