-- ===== src/Consul/Extract/Panics.antt =====
-- Which answers of the agent the code of src/consul/mod.rs cannot read.
use probes.Prelude.{
  ◌≡◌, refl, sym, List, [], ◌∷◌, In, Option, none, some, Option-cases, returns, panics, unwrap,
  >>=-eq-returns, inl, inr, ◌↔◌, ◌≢◌, Outcome-cases, subst,
}
use probes.Prelude.Text.{Text, text}
use probes.Consul.Json.{Json}
use probes.Consul.Node.{ServiceNode}
use probes.Consul.Extract.{extract_nodes, get_service_address_port, map_nodes, nodes_of}

unwrap-some {ℓ} : {A : Type ℓ} {o : Option A} {a : A} → unwrap o ≡ returns a → o ≡ some a
unwrap-some {o = none} h = absurd (cc)
unwrap-some {o = some b} h = cc

module _ (json : Json) where
  open json use {Value, Object, as_object, object_get, as_str, as_u64, as_array}

  -- The object has a field of this name, of the type that is read.
  pub record HasField {A : Type 0} (read : Value → Option A) (o : Object) (name : Text)
      : Type 0 where
    pub value : Value
    pub content : A
    pub there : object_get o name ≡ some value
    pub typed : read value ≡ some content

  -- An entry that is an object with an address, which is a string, and a port, which is a number.
  pub record IsEntry (v : Value) : Type 0 where
    pub object : Object
    pub is_object : as_object v ≡ some object
    pub address : HasField as_str object (text "ServiceAddress")
    pub port : HasField as_u64 object (text "ServicePort")

  get_service_address_port-returns :
      (name : Text) (v : Value) → IsEntry v → get_service_address_port json name v ≢ panics
  unfolding get_service_address_port
  get_service_address_port-returns name v e h =
      cc (rw (e.is_object, e.address.there, e.address.typed, e.port.there, e.port.typed) at h)

  get_service_address_port-IsEntry :
      (name : Text) (v : Value) (n : ServiceNode)
      → get_service_address_port json name v ≡ returns n
      → IsEntry v
  unfolding get_service_address_port
  get_service_address_port-IsEntry name v n h =
      let (o, e₁, h₁) = >>=-eq-returns (unwrap (as_object v)) _ h in
      let (a, e₂, h₂) = >>=-eq-returns (unwrap (object_get o (text "ServiceAddress"))) _ h₁ in
      let (ip, e₃, h₃) = >>=-eq-returns (unwrap (as_str a)) _ h₂ in
      let (p, e₄, h₄) = >>=-eq-returns (unwrap (object_get o (text "ServicePort"))) _ h₃ in
      let (port, e₅, h₅) = >>=-eq-returns (unwrap (as_u64 p)) _ h₄ in
      record {
        object = o;
        is_object = unwrap-some e₁;
        address = record {
          value = a;
          content = ip;
          there = unwrap-some e₂;
          typed = unwrap-some e₃;
        };
        port = record { value = p; content = port; there = unwrap-some e₄; typed = unwrap-some e₅ };
      }

  -- One of the entries is not such an object.
  abbrev pub HasOdd : List Value → Type 0
  HasOdd vs = (v : Value) × In v vs × ¬ IsEntry v

  map_nodes-HasOdd : (name : Text) (vs : List Value) → map_nodes json name vs ≡ panics → HasOdd vs
  unfolding map_nodes
  map_nodes-HasOdd name [] h = absurd (cc)
  map_nodes-HasOdd name (v ∷ vs) h = elim (Outcome-cases (get_service_address_port json name v)) [
    | inl p ↦ (v, inl refl, λ e. get_service_address_port-returns name v e p)
    | inr (n, e) ↦ elim (Outcome-cases (map_nodes json name vs)) [
      | inl p ↦ let (x, i, odd) = map_nodes-HasOdd name vs p in (x, inr i, odd)
      | inr (ns, e') ↦ absurd (cc (rw (e, e') at h))
    ]
  ]

  HasOdd-panics : (name : Text) (vs : List Value) → HasOdd vs → map_nodes json name vs ≡ panics
  unfolding map_nodes
  HasOdd-panics name [] (v, i, odd) = absurd i
  HasOdd-panics name (v ∷ vs) (x, inl here, odd) =
      elim (Outcome-cases (get_service_address_port json name v)) [
        | inl p ↦ rw p refl
        | inr (n, e) ↦
            absurd (odd (subst IsEntry (sym here) (get_service_address_port-IsEntry name v n e)))
      ]
  HasOdd-panics name (v ∷ vs) (x, inr there, odd) =
      elim (Outcome-cases (get_service_address_port json name v)) [
        | inl p ↦ rw p refl
        | inr (n, e) ↦ rw (e, HasOdd-panics name vs (x, there, odd)) refl
      ]

  -- Reading the nodes of a service panics exactly where the answer is an array with an entry that is not
  -- an object with a string as its address and a number as its port.
  pub extract_nodes-panics :
      (name : Text) (body_json : Value)
      → (extract_nodes json name body_json ≡ panics)
        ↔ ((vs : List Value) × (as_array body_json ≡ some vs) × HasOdd vs)
  unfolding extract_nodes nodes_of
  extract_nodes-panics name body_json = elim (Option-cases (as_array body_json)) [
    | inl e ↦ (λ h. absurd (cc (rw e at h)), λ (vs, a, odd). absurd (cc))
    | inr (vs, e) ↦ (
      λ h. (vs, e, map_nodes-HasOdd name vs (rw e at h)),
      λ (ws, a, odd). rw a (HasOdd-panics name ws odd),
    )
  ]
