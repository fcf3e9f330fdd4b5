-- ===== src/Consul/Extract/Matching.antt =====
-- Which services and nodes src/consul/mod.rs takes from the answers of the agent.
use probes.Prelude.{
  ℕ, ◌%◌, ◌^◌, ◌≡◌, ◌≢◌, refl, sym, ap, ◌∙◌, List, [], ◌∷◌, map, In, Option, none, some,
  Option-cases, Bool, true, Bool-cases, inl, inr, arith, ◌↔◌, returns,
}
use probes.Prelude.Bytes.{bytes_eq, bytes_eq→eq, bytes_eq_refl}
use probes.Prelude.Text.{Text, text}
use probes.Consul.Json.{Json}
use probes.Consul.Node.{ServiceNode}
use probes.Consul.Extract.{
  or_empty, any_eq, get_string_value, is_matching_service, matching_keys, keys_of,
  extract_matching_services, get_service_address_port, map_nodes, nodes_of, extract_nodes,
}

module _ (json : Json) where
  open json use {Value, Object, as_str, as_u64, as_array, as_object, object_keys, object_get, index}

  -- One of the values is the string `tag`.
  abbrev pub Tagged : Text → Option (List Value) → Type 0
  Tagged tag none = ⊥
  Tagged tag (some tags) = (v : Value) × In v tags × (as_str v ≡ some tag)

  get_string_value-as_str :
      (x : Value) (tag : Text) → tag ≢ [] → get_string_value json x ≡ tag → as_str x ≡ some tag
  unfolding get_string_value or_empty
  get_string_value-as_str x tag named h = elim (Option-cases (as_str x)) [
    | inl e ↦ absurd (named (sym (rw (e, get_string_value) at h)))
    | inr (t, e) ↦ e ∙ ap some (rw e at h)
  ]

  any_eq-Tagged :
      (tag : Text) (tags : List Value)
      → tag ≢ []
      → any_eq tag (map (get_string_value json) tags) ≡ true
      → Tagged tag (some tags)
  unfolding any_eq get_string_value or_empty
  any_eq-Tagged tag [] named h = absurd (cc)
  any_eq-Tagged tag (x ∷ xs) named h = elim (Bool-cases (bytes_eq (get_string_value json x) tag)) [
    | inl hit ↦ (
      x,
      inl refl,
      get_string_value-as_str x tag named (bytes_eq→eq (get_string_value json x) tag hit),
    )
    | inr miss ↦ let (v, i, e) = any_eq-Tagged tag xs named (rw miss at h) in (v, inr i, e)
  ]

  Tagged-any_eq :
      (tag : Text) (tags : List Value) (v : Value)
      → In v tags
      → as_str v ≡ some tag
      → any_eq tag (map (get_string_value json) tags) ≡ true
  unfolding any_eq get_string_value or_empty
  Tagged-any_eq tag [] v h e = absurd h
  Tagged-any_eq tag (x ∷ xs) v (inl here) e =
      let found : as_str x ≡ some tag = ap as_str (sym here) ∙ e in rw (found, bytes_eq_refl tag)
  Tagged-any_eq tag (x ∷ xs) v (inr there) e = ground (arith, Tagged-any_eq tag xs v there e)

  -- For a tag that is not empty: a service matches exactly if one of its tags is the string `tag`.
  is_matching_service-Tagged :
      (tag : Text) (tags : Option (List Value))
      → tag ≢ []
      → (is_matching_service json tag tags ≡ true) ↔ Tagged tag tags
  unfolding is_matching_service
  is_matching_service-Tagged tag none named = (λ h. absurd (cc), λ h. absurd h)
  is_matching_service-Tagged tag (some tags) named =
      (any_eq-Tagged tag tags named, λ (v, i, e). Tagged-any_eq tag tags v i e)

  matching_keys-In :
      (tag : Text) (body : Value) (k : Text) (ks : List Text)
      → In k (matching_keys json tag body ks)
        ↔ (In k ks × (is_matching_service json tag (as_array (index body k)) ≡ true))
  unfolding matching_keys
  matching_keys-In tag body k [] = (λ h. absurd h, λ h. absurd h.0)
  matching_keys-In tag body k (j ∷ js) =
      let (to, from) = matching_keys-In tag body k js in
      let test : Text → Bool = λ x. is_matching_service json tag (as_array (index body x)) in
      elim (Bool-cases (test j)) [
        | inl hit ↦ rw hit (
          λ i. elim i [
            | inl e ↦ (inl e, ap test e ∙ hit)
            | inr later ↦ (inr (to later).0, (to later).1)
          ],
          λ (i, m). elim i [ inl e ↦ inl e | inr later ↦ inr (from (later, m)) ],
        )
        | inr miss ↦ rw miss (
          λ i. (inr (to i).0, (to i).1),
          λ (i, m). elim i [ inl e ↦ absurd (cc (ap test e)) | inr later ↦ from (later, m) ],
        )
      ]

  -- The services taken are keys of the object that the answer is.
  pub extract_matching_services-keys :
      (tag : Text) (body : Value) (k : Text)
      → In k (extract_matching_services json tag body)
      → (o : Object) × (as_object body ≡ some o) × In k (object_keys o)
  unfolding extract_matching_services keys_of
  extract_matching_services-keys tag body k i = elim (Option-cases (as_object body)) [
    | inl e ↦ absurd (rw (e, matching_keys) at i)
    | inr (o, e) ↦ (o, e, ((matching_keys-In tag body k (object_keys o)).0 (rw e at i)).0)
  ]

  -- For a tag that is not empty and an answer that is an object: the services taken are exactly those
  -- keys of the object under which a list of values stands that has the string `tag`.
  pub extract_matching_services-Tagged :
      (tag : Text) (body : Value) (o : Object) (k : Text)
      → tag ≢ []
      → as_object body ≡ some o
      → In k (extract_matching_services json tag body)
        ↔ (In k (object_keys o) × Tagged tag (as_array (index body k)))
  unfolding extract_matching_services keys_of
  extract_matching_services-Tagged tag body o k named e =
      let (to, from) = matching_keys-In tag body k (object_keys o) in
      let (tagged, matched) = is_matching_service-Tagged tag (as_array (index body k)) named in
      rw e (λ i. ((to i).0, tagged (to i).1), λ (i, t). from (i, matched t))

  -- The fields of one node in the answer.
  pub record Described : Type 0 where
    pub value : Value
    pub object : Object
    pub address : Value
    pub ip : Text
    pub port_value : Value
    pub port : ℕ
    pub is_object : as_object value ≡ some object
    pub has_address : object_get object (text "ServiceAddress") ≡ some address
    pub is_text : as_str address ≡ some ip
    pub has_port : object_get object (text "ServicePort") ≡ some port_value
    pub is_number : as_u64 port_value ≡ some port

  abbrev pub node_of : Text → Described → ServiceNode
  node_of service_name d = record { service_name = service_name; ip = d.ip; port = d.port % 2 ^ 16 }

  get_service_address_port_lem :
      (service_name : Text) (d : Described)
      → get_service_address_port json service_name d.value ≡ returns (node_of service_name d)
  unfolding get_service_address_port
  get_service_address_port_lem service_name d =
      rw (d.is_object, d.has_address, d.is_text, d.has_port, d.is_number)

  map_nodes_lem :
      (service_name : Text) (ds : List Described)
      → map_nodes json service_name (map (λ d. d.value) ds)
        ≡ returns (map (node_of service_name) ds)
  unfolding map_nodes
  map_nodes_lem service_name [] = refl
  map_nodes_lem service_name (d ∷ ds) =
      rw (get_service_address_port_lem service_name d, map_nodes_lem service_name ds)

  -- Where each element of the answer has an address that is a text and a port that is a number, the nodes
  -- are these, in the same order, under the name of the service; of a port the lower 16 bits are kept.
  pub extract_nodes-Described :
      (service_name : Text) (body : Value) (ds : List Described)
      → as_array body ≡ some (map (λ d. d.value) ds)
      → extract_nodes json service_name body ≡ returns (map (node_of service_name) ds)
  unfolding extract_nodes nodes_of
  extract_nodes-Described service_name body ds e = rw e (map_nodes_lem service_name ds)
