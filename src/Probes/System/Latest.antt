-- ===== src/Probes/System/Latest.antt =====
-- Where keys tell nodes apart: the running probes are the latest discovery. src/probes/mod.rs.
use probes.Prelude.{
  ℕ, ◌≡◌, refl, sym, ap, ◌∙◌, List, [], ◌∷◌, Option, none, some, Option-cases, inl, inr,
}
use mathlib.Core.Path.{fun_ext}
use probes.Prelude.Text.{Text}
use probes.Prelude.Map
use probes.Prelude.Map.{Map}
use probes.Memcached.Cursor.{Buf}
use probes.Consul.Node.{ConsulClient, ServiceNode}
use probes.Consul.Node.Keys.{IsPlain, to_string-injective}
use probes.Consul.Http.Keys.{IsKeyed}
use probes.Probes.System.{Event, discovered, turned, boot, run, Admissible}
use probes.Probes.System.Coherent.{boot-IsCoherent}
use probes.Probes.System.Places.{ProbesExactly, boot-AreHeld, run-ProbesExactly}
use probes.Probes.System.Refines.{meaning, replay, view-boot, run_refines}

-- The nodes of the last discovery; `d` stands for what came before.
unfoldable pub latest : List Event → Map ServiceNode → Map ServiceNode
latest [] d = d
latest (discovered d' ∷ es) d = latest es d'
latest (turned i w ∷ es) d = latest es d

pub record ArePlain (d : Map ServiceNode) : Type 0 where
  pub keyed : IsKeyed d
  pub plain : (k : Text) (n : ServiceNode) → Map.get k d ≡ some n → IsPlain n

-- The discoveries tell nodes apart by their keys.
abbrev pub Plain : List Event → Type 0
Plain [] = Unit {0}
Plain (discovered d ∷ es) = ArePlain d × Plain es
Plain (turned i w ∷ es) = Plain es

-- A key that both discoveries have is a node that both have.
meaning-latest :
    (d d' : Map ServiceNode)
    → ArePlain d
    → ArePlain d'
    → meaning (discovered d') (λ k. Map.get k d) ≡ (λ k. Map.get k d')
unfolding meaning
meaning-latest d d' p p' = fun_ext λ k. elim (Option-cases (Map.get k d')) [
  | inl gone ↦ rw (gone, meaning)
  | inr (n, there) ↦ elim (Option-cases (Map.get k d)) [
    | inl new ↦ rw (there, new, meaning)
    | inr (m, old) ↦
        let same : m ≡ n =
          to_string-injective m n (p.plain k m old) (p'.plain k n there)
            (p.keyed.own_key k m old ∙ sym (p'.keyed.own_key k n there)) in
        rw (there, old, meaning) (ap some same)
  ]
]

replay-latest :
    (es : List Event) (d : Map ServiceNode)
    → ArePlain d
    → Plain es
    → replay es (λ k. Map.get k d) ≡ (λ k. Map.get k (latest es d))
unfolding replay latest meaning
replay-latest [] d p ps = refl
replay-latest (discovered d' ∷ es) d p ps =
    ap (replay es) (meaning-latest d d' p ps.0) ∙ replay-latest es d' ps.0 ps.1
replay-latest (turned i w ∷ es) d p ps = replay-latest es d p ps

pub none-ArePlain : ArePlain []
unfolding Map.get
none-ArePlain = record {
  keyed = record { distinct = tt; own_key = λ k n e. absurd (cc e) };
  plain = λ k n e. absurd (cc e);
}

-- The probes follow the discoveries. From the start, whatever discoveries and turns of tasks follow, and in
-- whatever order: under the keys of the probed nodes run tasks for exactly the nodes of the latest
-- discovery; and of the tasks that were ever spawned each has ended, or is one of these, whose channel has
-- not been sent on, or has been sent a stop and then either has finished after two turns in which it hears
-- the stop and its attempts to connect are answered, in whatever way, or hangs in an attempt to connect. So
-- for a node that is gone no task runs but those that have been sent a stop. The conditions: in the discoveries each node has its
-- own key, a service name without a colon and a port of 16 bits; a task hears of a stop only if one was
-- sent on its channel, which is not closed otherwise; and no probe that a task makes panics.
pub run-latest :
    (src : Buf) (es : List Event) (client : ConsulClient) (tag : Text) (interval : ℕ)
    → Admissible src es (boot client tag interval)
    → Plain es
    → ProbesExactly src (run src es (boot client tag interval)) (λ k. Map.get k (latest es []))
run-latest src es client tag interval a p =
    run-ProbesExactly src es (boot client tag interval) (λ k. Map.get k (latest es [])) a
      (boot-IsCoherent client tag interval) (boot-AreHeld client tag interval)
      (run_refines src es (boot client tag interval) (boot-IsCoherent client tag interval) a
        ∙ ap (replay es) (view-boot client tag interval ∙ nothing)
        ∙ replay-latest es [] none-ArePlain p)
  where
    nothing : ◌≡◌ {A = Text → Option ServiceNode} (λ k. none) (λ k. Map.get k [])
    nothing = fun_ext λ k. unfold Map.get in refl
