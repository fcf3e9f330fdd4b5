-- ===== src/Consul/Node/Keys.antt =====
-- When the keys of two nodes of src/consul/mod.rs are the same.
use probes.Prelude.{ℕ, ◌≡◌, ◌≢◌, ◌<◌, ◌^◌, refl, sym, ap, ◌∙◌, [], ◌∷◌, ◌++◌, All, arith}
use probes.Prelude.Text.{
  Text, decimal, decimal_value, IsDigit, decimal_value-decimal, decimal-IsDigit,
}
use probes.Consul.Node.{ServiceNode, to_string}

abbrev pub colon : ℕ
colon = b':'

-- The name of the service has no colon, and the port is a `u16`.
pub record IsPlain (n : ServiceNode) : Type 0 where
  pub name : All (λ c. c ≢ colon) n.service_name
  pub port : n.port < 2 ^ 16

split_first :
    (xs ys us vs : Text)
    → All (λ c. c ≢ colon) xs
    → All (λ c. c ≢ colon) ys
    → xs ++ colon ∷ us ≡ ys ++ colon ∷ vs
    → (xs ≡ ys) × (us ≡ vs)
split_first [] [] us vs h k e = (refl, cc)
split_first [] (y ∷ ys) us vs h k e = absurd (k.0 (cc))
split_first (x ∷ xs) [] us vs h k e = absurd (h.0 (cc))
split_first (x ∷ xs) (y ∷ ys) us vs h k e =
    let (same, rest) = split_first xs ys us vs h.1 k.1 (cc) in (cc, rest)

no_colon : (xs us vs : Text) → All IsDigit xs → xs ≢ us ++ colon ∷ vs
no_colon [] [] vs h e = cc
no_colon [] (u ∷ us) vs h e = cc
no_colon (x ∷ xs) [] vs h e = let same : x ≡ colon = cc in omega (arith, h.0, same)
no_colon (x ∷ xs) (u ∷ us) vs h e = no_colon xs us vs h.1 (cc)

split_last :
    (us vs xs ys : Text)
    → All IsDigit xs
    → All IsDigit ys
    → us ++ colon ∷ xs ≡ vs ++ colon ∷ ys
    → (us ≡ vs) × (xs ≡ ys)
split_last [] [] xs ys h k e = (refl, cc)
split_last [] (v ∷ vs) xs ys h k e = absurd (no_colon xs vs ys h (cc))
split_last (u ∷ us) [] xs ys h k e = absurd (no_colon ys us xs k (cc))
split_last (u ∷ us) (v ∷ vs) xs ys h k e =
    let (same, rest) = split_last us vs xs ys h k (cc) in (cc, rest)

decimal-injective : (m n : ℕ) → m < 2 ^ 16 → n < 2 ^ 16 → decimal m ≡ decimal n → m ≡ n
decimal-injective m n h k e =
    sym (decimal_value-decimal m (omega arith))
    ∙ ap decimal_value e
    ∙ decimal_value-decimal n (omega arith)

-- Two nodes with the same key are the same node, whatever their addresses are, if the names of their
-- services have no colon and their ports are of 16 bits.
pub to_string-injective :
    (m n : ServiceNode) → IsPlain m → IsPlain n → to_string m ≡ to_string n → m ≡ n
unfolding to_string
to_string-injective m n p q e =
    let (name, behind) = split_first m.service_name n.service_name _ _ p.name q.name e in
    let (ip, digits) =
      split_last m.ip n.ip (decimal m.port) (decimal n.port) (decimal-IsDigit m.port)
        (decimal-IsDigit n.port) behind in
    let port : m.port ≡ n.port = decimal-injective m.port n.port p.port q.port digits in cc
