-- ===== src/Mempoke/Probing.antt =====
-- The whole program: what is probed while the process of src/bin/mempoke.rs runs.
use probes.Prelude.{◌≡◌, refl, subst, sym, List, [], ◌∷◌, All, inl, inr, ok, returns}
use probes.Prelude.Float.{Float}
use probes.Prelude.Map
use probes.Memcached.Cursor.{Buf}
use probes.Consul.Json.{Json}
use probes.Consul.Node
use probes.Probes.Watch.{Watching, init_probing, start, watch_matching_services}
use probes.Probes.Watch.Turns.{init_probing-IsSound}
use probes.Probes.System.{System, boot, run}
use probes.Probes.System.Apart.{Documented, Documented-IsCalm, events-Plain}
use probes.Probes.System.Tame.{AreIdle, AreTame, AreTame-Admissible}
use probes.Probes.System.Latest.{Plain, latest, run-latest}
use probes.Probes.System.Loop.{Happening, loop_ticks, events, run-events}
use probes.Probes.System.Places.{ProbesExactly}
use probes.Mempoke.{Settings, Environment, Moment, ticked, ended, going, main}
use probes.Mempoke.Endings.{EndpointFails, AreCalm, ticks, Starts, main-going}

-- The discovery loop as the settings start it.
abbrev pub loop_of : Environment → Settings → Watching
loop_of env s = init_probing s.services_tag s.consul_fqdn s.interval_check_ms env.now

-- The probed nodes and their tasks before the first turn.
abbrev pub boot_of : Settings → System
boot_of s = boot (Node.new s.consul_fqdn) s.services_tag s.interval_check_ms

module _ (json : Json) where
  Documented-AreCalm :
      (ms : List Moment) → All (λ tick. Documented json tick.agent) (ticks ms) → AreCalm json ms
  Documented-AreCalm [] all = tt
  Documented-AreCalm (ticked tick ∷ ms) all =
      (Documented-IsCalm json tick.agent all.0, Documented-AreCalm ms all.1)
  Documented-AreCalm (ended server ∷ ms) all = Documented-AreCalm ms all

  module _ (float : Float) (src : Buf) (env : Environment) (s : Settings) where
    -- The system after the turns of the loop and of the tasks.
    abbrev pub system_after : List Happening → System
    system_after hs = run src (events float json (loop_of env s) hs) (boot_of s)

    same_services : (boot_of s).services ≡ (loop_of env s).services
    unfolding boot init_probing start
    same_services = refl

    boot-AreIdle : AreIdle (boot_of s).tasks
    unfolding boot
    boot-AreIdle = tt

    -- The program probes what is discovered. Once it has started, and as long as its endpoint does not fail: after
    -- any turns of the discovery loop and of the tasks, interleaved in any order, it is still in the loop; the
    -- probed nodes of the loop are those of this interleaving; under their keys run tasks for exactly the
    -- nodes of the latest discovery that succeeded; and of the tasks that were ever spawned each has ended, or
    -- is one of these, whose channel has not been sent on, or has been sent a stop and then either has
    -- finished after two turns in which it hears the stop and its attempts to connect are answered, in
    -- whatever way, or hangs in an attempt to connect. So for a node that is gone no task runs but those that
    -- have been sent a stop. The conditions: consul answers index headers that are texts, bodies that are UTF-8, arrays whose entries have an address and
    -- a port, and objects with no colon in their keys; a memcached node answers each request with one
    -- response with a status of the table, or with less; and a task hears of a stop only if one was sent on
    -- its channel, which is not closed otherwise.
    pub main-probes :
        (ms : List Moment) (hs : List Happening)
        → Starts env s
        → ¬ EndpointFails s.http_port ms
        → loop_ticks hs ≡ ticks ms
        → All (λ tick. Documented json tick.agent) (ticks ms)
        → AreTame src (events float json (loop_of env s) hs) (boot_of s)
        → (w : Watching) × (main float json env ms ≡ going w)
          × ((system_after hs).services ≡ w.services)
          × ProbesExactly src
              (system_after hs)
              (λ k. Map.get k (latest (events float json (loop_of env s) hs) []))
    main-probes ms hs starts fine same all may =
        elim (main-going float json env s ms starts (Documented-AreCalm ms all)) [
          | inl (a, f) ↦ absurd (fine f)
          | inr (w, g, l, _) ↦ (
            w,
            g,
            (run-events float json src (loop_of env s) w hs (boot_of s)
                (init_probing-IsSound s.services_tag s.consul_fqdn s.interval_check_ms env.now)
                same_services
                (subst
                  (λ ts. watch_matching_services float json (loop_of env s) ts ≡ returns (ok w))
                  (sym same) l)).0,
            run-latest src (events float json (loop_of env s) hs) (Node.new s.consul_fqdn)
                s.services_tag s.interval_check_ms
                (AreTame-Admissible src (events float json (loop_of env s) hs) (boot_of s)
                  boot-AreIdle plain may)
                plain,
          )
        ]
      where
        plain : Plain (events float json (loop_of env s) hs)
        plain =
            events-Plain json float (loop_of env s) hs
              (subst (All (λ tick. Documented json tick.agent)) (sym same) all)
