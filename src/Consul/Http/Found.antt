-- ===== src/Consul/Http/Found.antt =====
-- Which keys a discovery of src/consul/mod.rs finds.
use probes.Prelude.{
  ◌≡◌, refl, sym, ap, List, [], ◌∷◌, ◌++◌, In, true, Bool-cases, ◌⊎◌, inl, inr, ◌↔◌, ok, returns,
}
use probes.Prelude.Bytes.{bytes_eq, bytes_eq→eq, bytes_eq_refl}
use probes.Prelude.Int.{ℤ}
use probes.Prelude.Map
use probes.Prelude.Map.{Map, contains_key, is_some, get-insert}
use probes.Prelude.Text.{Text, text}
use probes.Consul.Json.{Json}
use probes.Consul.Node.{ServiceNode, ServiceNodes, to_string}
use probes.Consul.Extract.{extract_matching_services}
use probes.Consul.Http.Ensures.{bind-eq-ok}
use probes.Consul.Http.{
  Agent, Try, HttpCall, http_call, list_nodes_for_service, insert_nodes, collect,
  list_matching_nodes,
}

-- One of the nodes has this key.
abbrev pub HasKey : Text → List ServiceNode → Type 0
HasKey k ns = (n : ServiceNode) × In n ns × (to_string n ≡ k)

insert-contains :
    (n : ServiceNode) (m : Map ServiceNode) (k : Text)
    → (contains_key k (Map.insert (to_string n) n m) ≡ true)
      ↔ ((to_string n ≡ k) ⊎ (contains_key k m ≡ true))
unfolding contains_key
insert-contains n m k = elim (Bool-cases (bytes_eq (to_string n) k)) [
  | inl same ↦
      rw (get-insert (to_string n) k n m, same)
        (λ h. inl (bytes_eq→eq (to_string n) k same), λ h. refl)
  | inr other ↦
      rw (get-insert (to_string n) k n m, other)
        (
          λ h. inr h,
          λ h. elim h [ inl e ↦ absurd (cc (other, bytes_eq_refl k, e)) | inr there ↦ there ],
        )
]

insert_nodes-contains :
    (ns : List ServiceNode) (m : Map ServiceNode) (k : Text)
    → (contains_key k (insert_nodes ns m) ≡ true) ↔ (HasKey k ns ⊎ (contains_key k m ≡ true))
unfolding insert_nodes
insert_nodes-contains [] m k =
    (λ h. inr h, λ h. elim h [ inl (n, i, e) ↦ absurd i | inr there ↦ there ])
insert_nodes-contains (n ∷ ns) m k =
    let (to, from) = insert_nodes-contains ns (Map.insert (to_string n) n m) k in
    let (here, back) = insert-contains n m k in
    (
      λ h. elim (to h) [
        | inl (x, i, e) ↦ inl (x, inr i, e)
        | inr inserted ↦ elim (here inserted) [
          | inl e ↦ inl (n, inl refl, e)
          | inr there ↦ inr there
        ]
      ],
      λ h. elim h [
        | inl (x, inl same, e) ↦ from (inr (back (inl (cc))))
        | inl (x, inr i, e) ↦ from (inl (x, i, e))
        | inr there ↦ from (inr (back (inr there)))
      ],
    )

same_list :
    {r : Try (List ServiceNode)} (ns ms : List ServiceNode)
    → r ≡ returns (ok ns)
    → r ≡ returns (ok ms)
    → ns ≡ ms
same_list ns ms h g = cc

module _ (json : Json) (agent : Agent) (fqdn : Text) where
  -- One of the services lists, when it is asked for, a node with this key.
  abbrev pub Listed : Text → List Text → Type 0
  Listed k names =
      (name : Text) × In name names
      × (ns : List ServiceNode) × (list_nodes_for_service json agent fqdn name ≡ returns (ok ns))
      × HasKey k ns

  collect-Listed :
      (names : List Text) (m : Map ServiceNode) {found : Map ServiceNode} (k : Text)
      → collect json agent fqdn names m ≡ returns (ok found)
      → (contains_key k found ≡ true) ↔ (Listed k names ⊎ (contains_key k m ≡ true))
  unfolding collect
  collect-Listed [] m {found} k h =
      let same : m ≡ found = cc in
      rw same
        (λ there. inr there, λ e. elim e [ inl (x, i, ns, got, hk) ↦ absurd i | inr there ↦ there ])
  collect-Listed (name ∷ names) m k h =
      let (ns, got, rest) = bind-eq-ok (list_nodes_for_service json agent fqdn name) _ h in
      let (to, from) = collect-Listed names (insert_nodes ns m) k rest in
      let (here, back) = insert_nodes-contains ns m k in
      (
        λ f. elim (to f) [
          | inl (x, i, ns', got', hk) ↦ inl (x, inr i, ns', got', hk)
          | inr inserted ↦ elim (here inserted) [
            | inl hk ↦ inl (name, inl refl, ns, got, hk)
            | inr there ↦ inr there
          ]
        ],
        λ f. elim f [
          | inl (x, inl same, ns', got', hk) ↦
              let lists : ns' ≡ ns = same_list ns' ns (rw same at got') got in
              from (inr (back (inl (rw lists at hk))))
          | inl (x, inr i, ns', got', hk) ↦ from (inl (x, i, ns', got', hk))
          | inr there ↦ from (inr (back (inr there)))
        ],
      )

  nil-contains_key : (k : Text) → ¬ (contains_key {V = ServiceNode} k [] ≡ true)
  unfolding contains_key Map.get
  nil-contains_key k h = cc

  in_found :
      (L : Type 0) (k : Text) (nodes : Map ServiceNode) (found : ServiceNodes)
      → nodes ≡ found.nodes
      → (contains_key k nodes ≡ true → L)
      → (L → contains_key k nodes ≡ true)
      → (contains_key k found.nodes ≡ true) ↔ L
  in_found L k nodes found same to from = rw (← same) (to, from)

  -- The keys of a discovery that succeeds are exactly those of the nodes that the agent lists for the
  -- services that match in its catalog, and the index is that of the catalog.
  pub list_matching_nodes-Listed :
      (prev : ℤ) (tag : Text) (found : ServiceNodes) (k : Text)
      → list_matching_nodes json agent fqdn prev tag ≡ returns (ok found)
      → (catalog : HttpCall json agent) × (http_call json agent
            (fqdn ++ text "/v1/catalog/services")
            prev
          ≡ returns (ok catalog))
        × (found.index ≡ catalog.index)
        × ((contains_key k found.nodes ≡ true)
            ↔ Listed k (extract_matching_services json tag catalog.body_json))
  unfolding list_matching_nodes
  list_matching_nodes-Listed prev tag found k h =
      let (catalog, got, h₁) =
        bind-eq-ok (http_call json agent (fqdn ++ text "/v1/catalog/services") prev) _ h in
      let names : List Text = extract_matching_services json tag catalog.body_json in
      let (nodes, collected, h₂) = bind-eq-ok (collect json agent fqdn names []) _ h₁ in
      let same : record { index = catalog.index; nodes = nodes } ≡ found = cc in
      let (to, from) = collect-Listed names [] k collected in
      (
        catalog,
        got,
        sym (ap (λ (f : ServiceNodes). f.index) same),
        in_found (Listed k names) k nodes found (ap (λ (f : ServiceNodes). f.nodes) same)
            (λ there. elim (to there) [
              | inl listed ↦ listed
              | inr no_key ↦ absurd (nil-contains_key k no_key)
            ])
            (λ listed. from (inl listed)),
      )
