-- ===== src/Probes/System/Order.antt =====
-- The order in which a map of nodes is walked does not matter to what src/probes/mod.rs probes.
use probes.Prelude.{
  ◌≡◌, refl, sym, ap, ◌∙◌, ◌↔◌, List, [], ◌∷◌, All, In, Option, some, Option-cases, Bool-cases, inl,
  inr,
}
use mathlib.Core.Path.{fun_ext}
use probes.Prelude.Bytes.{bytes_eq, bytes_eq→eq, bytes_eq_refl}
use probes.Prelude.Map
use probes.Prelude.Map.{Map, Distinct}
use probes.Prelude.Text.{Text}
use probes.Memcached.Cursor.{Buf}
use probes.Consul.Node.{ServiceNode}
use probes.Consul.Http.Keys.{IsKeyed}
use probes.Probes.Services.Held.{AreHeld}
use probes.Probes.System.{System, Event, discovered, turned, apply, run, Admissible}
use probes.Probes.System.Coherent.{IsCoherent}
use probes.Probes.System.Places.{ProbesExactly, run-ProbesExactly}
use probes.Probes.System.Refines.{view, meaning, replay, run_refines}

-- The same entries, in whatever order.
pub record SameEntries {V : Type 0} (m m' : Map V) : Type 0 where
  pub same : (k : Text) (v : V) → In (k, v) m ↔ In (k, v) m'

module _ {V : Type 0} where
  get-In : (k : Text) (v : V) (m : Map V) → Map.get k m ≡ some v → In (k, v) m
  unfolding Map.get
  get-In k v [] h = absurd (cc)
  get-In k v ((j, w) ∷ m) h = elim (Bool-cases (bytes_eq j k)) [
    | inl hit ↦
        let key : j ≡ k = bytes_eq→eq j k hit in
        let value : w ≡ v = cc (rw hit at h) in inl (rw (key, value) refl)
    | inr miss ↦ inr (get-In k v m (rw miss at h))
  ]

  In-get : (k : Text) (v : V) (m : Map V) → Distinct m → In (k, v) m → Map.get k m ≡ some v
  unfolding Map.get
  In-get k v [] d i = absurd i
  In-get k v ((j, w) ∷ m) d (inl e) =
      let key : k ≡ j = ap (λ (x : Text × V). x.0) e in
      let value : v ≡ w = ap (λ (x : Text × V). x.1) e in rw (← key, bytes_eq_refl k, value) refl
  In-get k v ((j, w) ∷ m) d (inr i) = elim (Bool-cases (bytes_eq j k)) [
    | inl hit ↦
        let key : j ≡ k = bytes_eq→eq j k hit in absurd (cc (In-get k v m d.1 i, rw key at d.0))
    | inr miss ↦ rw miss (In-get k v m d.1 i)
  ]

  -- Maps with the same entries answer alike.
  pub get-SameEntries :
      (k : Text) (m m' : Map V)
      → Distinct m
      → Distinct m'
      → SameEntries m m'
      → Map.get k m ≡ Map.get k m'
  get-SameEntries k m m' d d' s = elim (Option-cases (Map.get k m)) [
    | inr (v, e) ↦ e ∙ sym (In-get k v m' d' ((s.same k v).0 (get-In k v m e)))
    | inl e ↦ elim (Option-cases (Map.get k m')) [
      | inl e' ↦ e ∙ sym e'
      | inr (v, e') ↦ absurd (cc (e, In-get k v m d ((s.same k v).1 (get-In k v m' e'))))
    ]
  ]

-- The discoveries, one by one.
abbrev pub discoveries : List Event → List (Map ServiceNode)
discoveries [] = []
discoveries (discovered d ∷ es) = d ∷ discoveries es
discoveries (turned i w ∷ es) = discoveries es

abbrev pub SameDiscoveries : List (Map ServiceNode) → List (Map ServiceNode) → Type 0
SameDiscoveries [] [] = Unit {0}
SameDiscoveries (d ∷ ds) (d' ∷ ds') = SameEntries d d' × SameDiscoveries ds ds'
SameDiscoveries _ _ = ⊥

-- What the discoveries mean.
replay_all : List (Map ServiceNode) → (Text → Option ServiceNode) → Text → Option ServiceNode
replay_all [] f = f
replay_all (d ∷ ds) f = replay_all ds (meaning (discovered d) f)

replay-discoveries :
    (es : List Event) (f : Text → Option ServiceNode) → replay es f ≡ replay_all (discoveries es) f
unfolding replay replay_all meaning
replay-discoveries [] f = refl
replay-discoveries (discovered d ∷ es) f = replay-discoveries es (meaning (discovered d) f)
replay-discoveries (turned i w ∷ es) f = replay-discoveries es f

Admissible-IsKeyed :
    (src : Buf) (es : List Event) (s : System) → Admissible src es s → All IsKeyed (discoveries es)
Admissible-IsKeyed src [] s a = tt
Admissible-IsKeyed src (discovered d ∷ es) s a =
    (a.0, Admissible-IsKeyed src es (apply src (discovered d) s) a.1)
Admissible-IsKeyed src (turned i w ∷ es) s a =
    Admissible-IsKeyed src es (apply src (turned i w) s) a.1

meaning-SameEntries :
    (d d' : Map ServiceNode) (f : Text → Option ServiceNode)
    → IsKeyed d
    → IsKeyed d'
    → SameEntries d d'
    → meaning (discovered d) f ≡ meaning (discovered d') f
unfolding meaning
meaning-SameEntries d d' f h h' s =
    fun_ext λ k. rw (get-SameEntries k d d' h.distinct h'.distinct s, meaning) refl

replay_all-SameDiscoveries :
    (ds ds' : List (Map ServiceNode)) (f : Text → Option ServiceNode)
    → All IsKeyed ds
    → All IsKeyed ds'
    → SameDiscoveries ds ds'
    → replay_all ds f ≡ replay_all ds' f
unfolding replay_all
replay_all-SameDiscoveries [] [] f h h' s = refl
replay_all-SameDiscoveries (d ∷ ds) (d' ∷ ds') f h h' s =
    ap (replay_all ds) (meaning-SameEntries d d' f h.0 h'.0 s.0)
    ∙ replay_all-SameDiscoveries ds ds' (meaning (discovered d') f) h.1 h'.1 s.1
replay_all-SameDiscoveries [] (d ∷ ds) f h h' s = absurd s
replay_all-SameDiscoveries (d ∷ ds) [] f h h' s = absurd s

-- Which nodes are probed depends on the discoveries, and not on the order in which their maps are walked.
-- From any coherent state that has lost no sender, after two courses of events whose discoveries have, one by
-- one, the same entries, with any turns of tasks in between, the same nodes are probed under the same keys.
-- In both, each task that was ever spawned has ended, or is one of those that probe these nodes, or has been
-- sent a stop and then either has finished after two turns in which it hears the stop and its attempts to
-- connect are answered, in whatever way, or hangs in an attempt to connect. Nothing is stated of which tasks
-- with a stop still run in the one course and in the other. The conditions, on both courses:
-- in the discoveries each node stands under its own key; a task hears of a stop only if one was sent on its
-- channel, which is not closed otherwise; and no probe that a task makes panics.
pub run-order :
    (src : Buf) (es es' : List Event) (s : System)
    → IsCoherent s
    → AreHeld s.services
    → Admissible src es s
    → Admissible src es' s
    → SameDiscoveries (discoveries es) (discoveries es')
    → (f : Text → Option ServiceNode) × ProbesExactly src (run src es s) f
      × ProbesExactly src (run src es' s) f
run-order src es es' s c h a a' same =
    let back : view (run src es' s) ≡ view (run src es s) =
      run_refines src es' s c a' ∙ sym same_replay ∙ sym (run_refines src es s c a) in
    (
      view (run src es s),
      run-ProbesExactly src es s (view (run src es s)) a c h refl,
      run-ProbesExactly src es' s (view (run src es s)) a' c h back,
    )
  where
    same_replay : replay es (view s) ≡ replay es' (view s)
    same_replay =
        replay-discoveries es (view s)
        ∙ replay_all-SameDiscoveries (discoveries es) (discoveries es') (view s)
            (Admissible-IsKeyed src es s a) (Admissible-IsKeyed src es' s a') same
        ∙ sym (replay-discoveries es' (view s))
