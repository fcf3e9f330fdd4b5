-- ===== src/Consul/Http/Query.antt =====
-- How an agent reads the uri that `http_call` of src/consul/mod.rs asks for.
use probes.Prelude.{
  ℕ, suc, ◌≡◌, ◌≢◌, refl, ap, ◌∙◌, [], ◌∷◌, ◌++◌, All, All-map, Option, none, some, false, ◌==◌,
  if◌then◌else◌, arith,
}
use probes.Prelude.Bytes.{bytes_eq, bytes_eq_refl}
use probes.Prelude.Int.{ℤ, pos, negsuc}
use probes.Prelude.Numbers.{show_ℤ, parse_i64, IsI64, parse_i64-show_ℤ}
use probes.Prelude.Text.{Text, text, decimal, IsDigit, decimal-IsDigit}
use probes.Consul.Http.{query_uri_of}

abbrev pub question : ℕ
question = b'?'

abbrev ampersand : ℕ
ampersand = b'&'

-- What stands before the first `c`, and what stands behind it.
split_at : ℕ → Text → Text × Text
split_at c [] = ([], [])
split_at c (x ∷ xs) = let rest = split_at c xs in if x == c then ([], xs) else (x ∷ rest.0, rest.1)

strip_prefix : Text → Text → Option Text
strip_prefix [] xs = some xs
strip_prefix (p ∷ ps) [] = none
strip_prefix (p ∷ ps) (x ∷ xs) = let rest = strip_prefix ps xs in if p == x then rest else none

-- The value of the query, where it is that of a call that waits for five minutes.
read_wait : Text × Text → Option ℤ
read_wait (value, wait) = if bytes_eq wait (text "wait=5m") then parse_i64 value else none

or_refuse : Option Text → Option ℤ
unfolding split_at read_wait
or_refuse none = none
or_refuse (some value) = read_wait (split_at ampersand value)

with_path : Text → Option ℤ → Option (Text × ℤ)
with_path path none = none
with_path path (some index) = some (path, index)

read_parts : Text × Text → Option (Text × ℤ)
unfolding strip_prefix or_refuse with_path
read_parts (path, query) = with_path path (or_refuse (strip_prefix (text "index=") query))

-- A blocking query: its path, and the index behind which it waits for a change.
unfoldable pub read_uri : Text → Option (Text × ℤ)
unfolding read_parts split_at
read_uri uri = read_parts (split_at question uri)

split_at-append :
    (c : ℕ) (xs ys : Text) → All (λ x. x ≢ c) xs → split_at c (xs ++ c ∷ ys) ≡ (xs, ys)
unfolding split_at
split_at-append c [] ys h = ground arith
split_at-append c (x ∷ xs) ys h =
    let other : (x == c) ≡ false = ground (arith, h.0) in
    rw (other, split_at-append c xs ys h.1) refl

no_ampersand : (ds : Text) → All IsDigit ds → All (λ x. x ≢ ampersand) ds
no_ampersand ds = All-map IsDigit (λ x. x ≢ ampersand) ds (λ c d. ground (arith, d))

digits_of : (n : ℕ) → (ds : Text) × (decimal n ≡ ds) × All IsDigit ds
digits_of n = (decimal n, refl, decimal-IsDigit n)

show_ℤ_other : (i : ℤ) → All (λ x. x ≢ ampersand) (show_ℤ i)
show_ℤ_other (pos n) = let (ds, e, all) = digits_of n in unfold show_ℤ in rw e (no_ampersand ds all)
show_ℤ_other (negsuc n) =
    let (ds, e, all) = digits_of (suc n) in
    unfold show_ℤ in rw e (ground arith, no_ampersand ds all)

read_wait-show_ℤ : (i : ℤ) → IsI64 i → read_wait (show_ℤ i, text "wait=5m") ≡ some i
unfolding read_wait
read_wait-show_ℤ i fits = rw (bytes_eq_refl (text "wait=5m")) (parse_i64-show_ℤ i fits)

read_parts-lem :
    (path : Text) (i : ℤ)
    → IsI64 i
    → read_parts (path, text "index=" ++ (show_ℤ i ++ text "&wait=5m")) ≡ some (path, i)
unfolding read_parts strip_prefix or_refuse with_path
read_parts-lem path i fits =
    rw
      (
        split_at-append ampersand (show_ℤ i) (text "wait=5m") (show_ℤ_other i),
        read_wait-show_ℤ i fits,
      )
      refl

-- An agent that reads the uri of a call finds again what the call was made with: the path, if that has no
-- question mark, and the index, if it is an `i64`, to wait on for five minutes.
pub read_uri-query_uri_of :
    (uri_str : Text) (prev_index : ℤ)
    → All (λ x. x ≢ question) uri_str
    → IsI64 prev_index
    → read_uri (query_uri_of uri_str prev_index) ≡ some (uri_str, prev_index)
unfolding query_uri_of read_uri
read_uri-query_uri_of uri_str prev_index plain fits =
    ap read_parts (
      split_at-append question uri_str (text "index=" ++ (show_ℤ prev_index ++ text "&wait=5m"))
        plain)
    ∙ read_parts-lem uri_str prev_index fits
