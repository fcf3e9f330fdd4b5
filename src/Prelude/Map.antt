-- ===== src/Prelude/Map.antt =====
-- `HashMap<String, V>` as a list of entries in the order in which the map is walked, which Rust leaves
-- open: what is stated of maps is stated for every order.
use mathlib.Core.List.{Perm}
use mathlib.Core.List.Perm
use probes.Prelude.{
  ◌≡◌, refl, List, [], ◌∷◌, ◌++◌, map, Option, none, some, Bool, true, false, if◌then◌else◌,
  Bool-cases, inl, inr, arith,
}
use probes.Prelude.Bytes.{bytes_eq, bytes_eq_iff}
use probes.Prelude.Text.{Text}

abbrev pub Map : Type 0 → Type 0
Map V = List (Text × V)

abbrev pub is_some : {V : Type 0} → Option V → Bool
is_some none = false
is_some (some v) = true

module _ {V : Type 0} where
  unfoldable pub get : Text → Map V → Option V
  get k [] = none
  get k ((j, v) ∷ m) = if bytes_eq j k then some v else get k m

  unfoldable pub contains_key : Text → Map V → Bool
  unfolding get
  contains_key k m = is_some (get k m)

  unfoldable pub insert : Text → V → Map V → Map V
  insert k v [] = (k, v) ∷ []
  insert k v ((j, w) ∷ m) = if bytes_eq j k then (k, v) ∷ m else (j, w) ∷ insert k v m

  unfoldable pub remove : Text → Map V → Map V
  remove k [] = []
  remove k ((j, v) ∷ m) = let rest = remove k m in if bytes_eq j k then rest else (j, v) ∷ rest

  abbrev pub keys : Map V → List Text
  keys = map (λ entry. entry.0)

  abbrev pub values : Map V → List V
  values = map (λ entry. entry.1)

  -- No key stands twice.
  abbrev pub Distinct : Map V → Type 0
  Distinct [] = Unit {0}
  Distinct ((k, v) ∷ m) = (get k m ≡ none) × Distinct m

  pub get-insert :
      (k j : Text) (v : V) (m : Map V)
      → get j (insert k v m) ≡ (if bytes_eq k j then some v else get j m)
  unfolding get insert
  get-insert k j v [] = refl
  get-insert k j v ((i, w) ∷ m) =
      ground (arith, bytes_eq_iff k j, bytes_eq_iff i k, bytes_eq_iff i j, get-insert k j v m)

  pub get-remove :
      (k j : Text) (m : Map V) → get j (remove k m) ≡ (if bytes_eq k j then none else get j m)
  unfolding get remove
  get-remove k j [] = ground arith
  get-remove k j ((i, w) ∷ m) =
      ground (arith, bytes_eq_iff k j, bytes_eq_iff i k, bytes_eq_iff i j, get-remove k j m)

  -- A new key goes to the end.
  pub insert_new : (k : Text) (v : V) (m : Map V) → get k m ≡ none → insert k v m ≡ m ++ (k, v) ∷ []
  unfolding get insert
  insert_new k v [] h = refl
  insert_new k v ((j, w) ∷ m) h = ground (arith, insert_new k v m)

  pub remove-none : (k : Text) (m : Map V) → get k m ≡ none → remove k m ≡ m
  unfolding get remove
  remove-none k [] h = refl
  remove-none k ((j, w) ∷ m) h = ground (arith, remove-none k m)

  pub insert-Distinct : (k : Text) (v : V) (m : Map V) → Distinct m → Distinct (insert k v m)
  unfolding get insert
  insert-Distinct k v [] d = (refl, tt)
  insert-Distinct k v ((j, w) ∷ m) d =
      ground
        (arith, bytes_eq_iff j k, bytes_eq_iff k j, get-insert k j v m, insert-Distinct k v m d.1)

  pub remove-Distinct : (k : Text) (m : Map V) → Distinct m → Distinct (remove k m)
  unfolding get remove
  remove-Distinct k [] d = tt
  remove-Distinct k ((j, w) ∷ m) d = ground (arith, get-remove k j m, remove-Distinct k m d.1)

  -- Removing a key takes exactly its value out of the values.
  pub values-remove :
      (k : Text) (v : V) (m : Map V)
      → Distinct m
      → get k m ≡ some v
      → Perm (values m) (v ∷ values (remove k m))
  unfolding get remove
  values-remove k v [] d h = absurd (cc)
  values-remove k v ((j, w) ∷ m) d h = elim (Bool-cases (bytes_eq j k)) [
    | inl hit ↦
        let same : w ≡ v = ground arith in
        let gone : get k m ≡ none = rw ((bytes_eq_iff j k).0 hit) at d.0 in
        rw (hit, remove-none k m gone, same) (Perm.refl (v ∷ values m))
    | inr miss ↦ rw miss (
        Perm.trans (Perm.cons w (values-remove k v m d.1 (rw miss at h)))
          (Perm.swap v w (values (remove k m))))
  ]
