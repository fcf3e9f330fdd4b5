-- ===== src/Tests/Agent.antt =====
-- A consul agent that keeps to its documentation, for src/consul/mod.rs.
use probes.Prelude.Utf8.{from_utf8}
use probes.Prelude.{
  ◌≡◌, ◌⊎◌, arith, sym, ap, ◌∙◌, subst, ◌≢◌, refl, List, [], ◌∷◌, All, In, Option, none, some, true,
  Bool-cases, if◌then◌else◌, inl, inr, ok,
}
use probes.Prelude.Bytes.{Bytes, bytes_eq}
use probes.Prelude.Map
use probes.Prelude.Text.{Text, text}
use probes.Consul.Node.Keys.{colon}
use probes.Consul.Http.{Agent, Response}
use probes.Consul.Extract.Panics.{IsEntry}
use probes.Consul.Http.Calm.{IsBody}
use probes.Probes.System.Apart.{Documented}
use probes.Tests.Instances.{
  simple_json, Value, catalog, catalog_text, node_text, node_value, item, empty_array, as_object,
  as_array, from_str, string_value, number_value, fields, items, as_str, as_u64,
}
use probes.Tests.Discovery.{answer}

abbrev local_uri : Text
local_uri = text "http://localhost:8500/v1/catalog/services?index=0&wait=5m"

-- The agent of the default settings.
abbrev pub local_agent : Agent
local_agent = record {
  parses = λ uri. true;
  get = λ uri. if bytes_eq uri local_uri then ok (answer catalog_text) else ok (answer node_text);
}

-- One of its two answers is given.
data IsAnswer (resp : Response) : Type 0 where
  of_catalog : resp ≡ answer catalog_text → IsAnswer resp
  of_nodes : resp ≡ answer node_text → IsAnswer resp

local_agent-IsAnswer :
    (uri : Text) (resp : Response) → local_agent.get uri ≡ ok resp → IsAnswer resp
local_agent-IsAnswer uri resp h = elim (Bool-cases (bytes_eq uri local_uri)) [
  | inl here ↦ of_catalog (cc (rw here at h))
  | inr other ↦ of_nodes (cc (rw other at h))
]

-- And read.
catalog_is_text : from_utf8 catalog_text ≡ some catalog_text
unfolding from_utf8
catalog_is_text = refl

nodes_are_text : from_utf8 node_text ≡ some node_text
unfolding from_utf8
nodes_are_text = refl

catalog_parses : from_str catalog_text ≡ some catalog
unfolding from_str bytes_eq
catalog_parses = refl

nodes_parse : from_str node_text ≡ some (item node_value empty_array)
unfolding from_str bytes_eq
nodes_parse = refl

value_of :
    (given body : Text) (bytes : Bytes) (v w : Value) (resp : Response)
    → resp ≡ answer given
    → resp.body ≡ ok bytes
    → from_utf8 bytes ≡ some body
    → from_utf8 given ≡ some given
    → from_str body ≡ some v
    → from_str given ≡ some w
    → v ≡ w
value_of given body bytes v w resp is came decoded reads parsed parses =
    let same : given ≡ bytes = cc (rw is at came) in
    let again : given ≡ body = cc (rw (← same) at decoded) in cc (rw (← again) at parsed)

body_values :
    (uri : Text) (v : Value)
    → IsBody simple_json local_agent uri v
    → (v ≡ catalog) ⊎ (v ≡ item node_value empty_array)
body_values uri v b = elim (local_agent-IsAnswer uri b.response b.answered) [
  | of_catalog e ↦ inl (
      value_of catalog_text b.body_str b.bytes v catalog b.response e b.came b.decoded
        catalog_is_text b.parsed catalog_parses)
  | of_nodes e ↦ inr (
      value_of node_text b.body_str b.bytes v (item node_value empty_array) b.response e b.came
        b.decoded nodes_are_text b.parsed nodes_parse)
]

node_value-IsEntry : IsEntry simple_json node_value
unfolding as_object fields Map.get bytes_eq as_str as_u64
node_value-IsEntry = record {
  object =
      (text "ServiceAddress", string_value (text "10.0.0.1"))
      ∷ (text "ServicePort", number_value 11213)
      ∷ [];
  is_object = refl;
  address = record {
    value = string_value (text "10.0.0.1");
    content = text "10.0.0.1";
    there = refl;
    typed = refl;
  };
  port = record { value = number_value 11213; content = 11213; there = refl; typed = refl };
}

items-IsEntry :
    (v x : Value) (vs : List Value)
    → (v ≡ catalog) ⊎ (v ≡ item node_value empty_array)
    → as_array v ≡ some vs
    → In x vs
    → IsEntry simple_json x
unfolding as_array items
items-IsEntry v x vs (inl e) a i = absurd (cc (rw e at a))
items-IsEntry v x vs (inr e) a i =
    let same : node_value ∷ [] ≡ vs = cc (rw e at a) in
    elim (rw (← same) at i) [
      | inl is ↦ subst (IsEntry simple_json) (sym is) node_value-IsEntry
      | inr none_left ↦ absurd none_left
    ]

abbrev IsColonless : Text → Type 0
IsColonless = All (λ c. c ≢ colon)

abbrev catalog_fields : Map.Map Value
catalog_fields =
    (text "web", item (string_value (text "probed")) empty_array) ∷ (text "db", empty_array) ∷ []

catalog_is_object : as_object catalog ≡ some catalog_fields
unfolding as_object fields
catalog_is_object = refl

one_of_two : (P : Text → Type 0) (a b name : Text) → P a → P b → In name (a ∷ b ∷ []) → P name
one_of_two P a b name p q (inl e) = subst P (sym e) p
one_of_two P a b name p q (inr (inl e)) = subst P (sym e) q
one_of_two P a b name p q (inr (inr none_left)) = absurd none_left

web-IsColonless : IsColonless (text "web")
web-IsColonless = (omega arith, (omega arith, (omega arith, tt)))

db-IsColonless : IsColonless (text "db")
db-IsColonless = (omega arith, (omega arith, tt))

web_or_db : (name : Text) → In name (text "web" ∷ text "db" ∷ []) → IsColonless name
web_or_db name = one_of_two IsColonless (text "web") (text "db") name web-IsColonless db-IsColonless

array_is_no_object : as_object (item node_value empty_array) ≡ none
unfolding as_object
array_is_no_object = refl

none-some : {A : Type 0} {a : A} → ¬ (◌≡◌ {A = Option A} none (some a))
none-some h = cc

some-injective : {A : Type 0} {a b : A} → some a ≡ some b → a ≡ b
some-injective h = cc

keys-IsColonless :
    (v : Value) (o : Map.Map Value) (name : Text)
    → (v ≡ catalog) ⊎ (v ≡ item node_value empty_array)
    → as_object v ≡ some o
    → In name (Map.keys o)
    → IsColonless name
keys-IsColonless v o name (inr e) is i =
    absurd (none-some (sym array_is_no_object ∙ ap as_object (sym e) ∙ is))
keys-IsColonless v o name (inl e) is i =
    let same : catalog_fields ≡ o =
      some-injective (sym catalog_is_object ∙ ap as_object (sym e) ∙ is) in
    web_or_db name (subst (λ (m : Map.Map Value). In name (Map.keys m)) (sym same) i)

header_is_text : (resp : Response) → IsAnswer resp → resp.x_consul_index ≢ some none
header_is_text resp (of_catalog e) h = cc (rw e at h)
header_is_text resp (of_nodes e) h = cc (rw e at h)

body_is_utf8 :
    (resp : Response) (bytes : Bytes)
    → IsAnswer resp
    → resp.body ≡ ok bytes
    → from_utf8 bytes ≢ none
body_is_utf8 resp bytes (of_catalog e) came h =
    let same : catalog_text ≡ bytes = cc (rw e at came) in cc (rw (← same) at h, catalog_is_text)
body_is_utf8 resp bytes (of_nodes e) came h =
    let same : node_text ≡ bytes = cc (rw e at came) in cc (rw (← same) at h, nodes_are_text)

pub local_agent-Documented : Documented simple_json local_agent
local_agent-Documented = record {
  conforming = record {
    text_header = λ uri resp h. header_is_text resp (local_agent-IsAnswer uri resp h);
    utf8_body = λ uri resp bytes h. body_is_utf8 resp bytes (local_agent-IsAnswer uri resp h);
    whole_entries = λ uri v x vs b. items-IsEntry v x vs (body_values uri v b);
  };
  no_colon = λ uri v o name b. keys-IsColonless v o name (body_values uri v b);
}
