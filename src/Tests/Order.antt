-- ===== src/Tests/Order.antt =====
-- One discovery of two nodes, walked in two orders: src/probes/mod.rs.
use probes.Prelude.{
  ◌≡◌, refl, subst, List, [], ◌∷◌, In, Option, some, false, Bool-cases, inl, inr, arith,
}
use probes.Prelude.Bytes.{bytes_eq, bytes_eq→eq}
use probes.Prelude.Map
use probes.Prelude.Text.{Text, text}
use probes.Consul.Node.{ServiceNode, to_string}
use probes.Consul.Node.Keys.{IsPlain}
use probes.Probes.System.{System, Event, discovered, turned, boot, run, Admissible}
use probes.Probes.System.Coherent.{boot-IsCoherent}
use probes.Probes.System.Latest.{ArePlain}
use probes.Probes.System.Order.{SameEntries, run-order}
use probes.Probes.System.Places.{ProbesExactly, boot-AreHeld}
use probes.Probes.System.Tame.{AreTame-Admissible}
use probes.Tests.Instances.{cursor_buf}
use probes.Tests.Discovery.{node}
use probes.Tests.Catalog.{node-IsPlain}
use probes.Tests.Task.{answering}
use probes.Tests.Whole.{client, answering-TameTurn, none_yet}

abbrev both_of : ServiceNode → ServiceNode → Map.Map ServiceNode
both_of m n = (to_string m, m) ∷ (to_string n, n) ∷ []

module _ (m n : ServiceNode) (differ : bytes_eq (to_string m) (to_string n) ≡ false)
    (other : bytes_eq (to_string n) (to_string m) ≡ false) where
  both_of-cases :
      (P : Text → ServiceNode → Type 0) (k : Text) (x : ServiceNode)
      → P (to_string m) m
      → P (to_string n) n
      → Map.get k (both_of m n) ≡ some x
      → P k x
  unfolding Map.get
  both_of-cases P k x p q e = elim (Bool-cases (bytes_eq (to_string m) k)) [
    | inl first ↦
        let value : m ≡ x = cc (rw first at e) in
        subst (λ y. P k y) value (subst (λ j. P j m) (bytes_eq→eq (to_string m) k first) p)
    | inr not_first ↦ elim (Bool-cases (bytes_eq (to_string n) k)) [
      | inl second ↦
          let value : n ≡ x = cc (rw (not_first, second) at e) in
          subst (λ y. P k y) value (subst (λ j. P j n) (bytes_eq→eq (to_string n) k second) q)
      | inr not_second ↦ absurd (cc (rw (not_first, not_second) at e))
    ]
  ]

  both_of-ArePlain : IsPlain m → IsPlain n → ArePlain (both_of m n)
  unfolding Map.get
  both_of-ArePlain p q = record {
    keyed = record {
      distinct = (rw other refl, (refl, tt));
      own_key = λ k x. both_of-cases (λ j y. to_string y ≡ j) k x refl refl;
    };
    plain = λ k x. both_of-cases (λ j y. IsPlain y) k x p q;
  }

abbrev second_node : ServiceNode
second_node = record { service_name = text "web"; ip = text "10.0.0.2"; port = 11213 }

second_node-IsPlain : IsPlain second_node
second_node-IsPlain = record { name = ground arith; port = omega arith }

keys_differ : bytes_eq (to_string node) (to_string second_node) ≡ false
unfolding bytes_eq to_string
keys_differ = refl

keys_differ_back : bytes_eq (to_string second_node) (to_string node) ≡ false
unfolding bytes_eq to_string
keys_differ_back = refl

-- The task of channel 0 is for another node in either order.
abbrev forth : List Event
forth = discovered (both_of node second_node) ∷ turned 0 answering ∷ []

abbrev back : List Event
back = discovered (both_of second_node node) ∷ turned 0 answering ∷ turned 1 answering ∷ []

abbrev start : System
start = boot client (text "probed") 1000

forth-Admissible : Admissible cursor_buf forth start
forth-Admissible =
    AreTame-Admissible cursor_buf forth start none_yet
      (
        both_of-ArePlain node second_node keys_differ keys_differ_back node-IsPlain
            second_node-IsPlain,
        tt,
      )
      (answering-TameTurn 0 _, tt)

back-Admissible : Admissible cursor_buf back start
back-Admissible =
    AreTame-Admissible cursor_buf back start none_yet
      (
        both_of-ArePlain second_node node keys_differ_back keys_differ second_node-IsPlain
            node-IsPlain,
        tt,
      )
      (answering-TameTurn 0 _, (answering-TameTurn 1 _, tt))

swapped : (m n : ServiceNode) (e : Text × ServiceNode) → In e (both_of m n) → In e (both_of n m)
swapped m n e (inl first) = inr (inl first)
swapped m n e (inr (inl second)) = inl second
swapped m n e (inr (inr none_left)) = absurd none_left

either_order : SameEntries (both_of node second_node) (both_of second_node node)
either_order = record {
  same = λ k v. (swapped node second_node (k, v), swapped second_node node (k, v));
}

run-order_example :
    (f : Text → Option ServiceNode) × ProbesExactly cursor_buf (run cursor_buf forth start) f
    × ProbesExactly cursor_buf (run cursor_buf back start) f
run-order_example =
    run-order cursor_buf forth back start (boot-IsCoherent client (text "probed") 1000)
      (boot-AreHeld client (text "probed") 1000) forth-Admissible back-Admissible (either_order, tt)
