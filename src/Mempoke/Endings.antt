-- ===== src/Mempoke/Endings.antt =====
-- How the process of src/bin/mempoke.rs can end.
use probes.Prelude.{
  ℕ, ◌≡◌, ◌≢◌, refl, List, [], ◌∷◌, Bool, true, false, Bool-cases, if◌then◌else◌, inl, inr, ◌⊎◌,
  Result, ok, err, Outcome, returns, panics,
}
use probes.Prelude.Float.{Float}
use probes.Prelude.Text.{Text}
use probes.Consul.Json.{Json}
use probes.Metrics.Endpoint.{init_prometheus_http_endpoint}
use probes.Probes.Watch.{Watching, Tick, init_probing, watch_matching_services}
use probes.Probes.Watch.Turns.{IsSound, IsCalm, init_probing-IsSound, turn-IsSound, turn-cases}
use probes.Mempoke.{
  Settings, defaults, arguments, Environment, Moment, ticked, ended, Process, going, returned,
  aborted, on_endpoint, on_turn, on_console, probing, on_runtime, on_parsed, main,
}

-- The web server could not be bound, or has failed, at one of the moments.
abbrev pub EndpointFails : ℕ → List Moment → Type 0
EndpointFails http_port [] = ⊥
EndpointFails http_port (ticked tick ∷ ms) = EndpointFails http_port ms
EndpointFails http_port (ended server ∷ ms) =
    ((issue : Text) × (init_prometheus_http_endpoint server http_port ≡ err issue))
    ⊎ EndpointFails http_port ms

-- No discovery panics.
abbrev pub AreCalm : Json → List Moment → Type 0
AreCalm json [] = Unit {0}
AreCalm json (ticked tick ∷ ms) = IsCalm json tick.agent × AreCalm json ms
AreCalm json (ended server ∷ ms) = AreCalm json ms

-- The turns of the discovery loop.
abbrev pub ticks : List Moment → List Tick
ticks [] = []
ticks (ticked tick ∷ ms) = tick ∷ ticks ms
ticks (ended server ∷ ms) = ticks ms

-- How the command line and the runtime let the program through to the discovery loop.
pub record Starts (env : Environment) (s : Settings) : Type 0 where
  pub parsed : env.parse_args_or_exit arguments defaults ≡ ok s
  pub console : s.tokio_console ≡ true → env.init_console ≡ returns tt
  pub built : env.build ≡ ok tt

Result-cases {ℓ κ} :
    {A : Type ℓ} {E : Type κ} (r : Result A E) → ((a : A) × (r ≡ ok a)) ⊎ ((e : E) × (r ≡ err e))
Result-cases (ok a) = inl (a, refl)
Result-cases (err e) = inr (e, refl)

module _ (float : Float) (json : Json) where
  probing-going :
      (http_port : ℕ) (w : Watching) (ms : List Moment)
      → IsSound w
      → AreCalm json ms
      → ((probing float json http_port w ms ≡ aborted) × EndpointFails http_port ms)
        ⊎ ((w' : Watching) × (probing float json http_port w ms ≡ going w')
            × (watch_matching_services float json w (ticks ms) ≡ returns (ok w'))
            × ¬ EndpointFails http_port ms)
  unfolding probing on_turn on_endpoint watch_matching_services
  probing-going http_port w [] s calm = inr (w, refl, refl, λ h. h)
  probing-going http_port w (ticked tick ∷ ms) s calm =
      let (w₁, e, s₁) = turn-IsSound float json w tick s calm.0 in
      rw e (probing-going http_port w₁ ms s₁ calm.1)
  probing-going http_port w (ended server ∷ ms) s calm =
      elim (Result-cases (init_prometheus_http_endpoint server http_port)) [
        | inr (issue, e) ↦ inl (rw e refl, inl (issue, e))
        | inl (u, e) ↦ elim (probing-going http_port w ms s calm) [
          | inl (a, f) ↦ inl (rw e a, inr f)
          | inr (w', g, l, sound) ↦
              inr (w', rw e g, l, λ h. elim h [ inl (issue, e') ↦ absurd (cc) | inr f ↦ sound f ])
        ]
      ]

  on_parsed-Starts :
      (env : Environment) (s : Settings) (ms : List Moment)
      → Starts env s
      → main float json env ms
        ≡ probing float json s.http_port
            (init_probing s.services_tag s.consul_fqdn s.interval_check_ms env.now)
            ms
  unfolding main on_parsed on_runtime on_console
  on_parsed-Starts env s ms h = elim (Bool-cases s.tokio_console) [
    | inl console ↦ rw (h.parsed, console, h.console console, h.built) refl
    | inr plain ↦ rw (h.parsed, plain, h.built) refl
  ]

  -- The program, once it has started, probes until its endpoint fails: after any moments at which no
  -- discovery panics, it has aborted if the web server has failed at one of them, and else it is still in the
  -- discovery loop, which has made the turns that were among the moments.
  pub main-going :
      (env : Environment) (s : Settings) (ms : List Moment)
      → Starts env s
      → AreCalm json ms
      → ((main float json env ms ≡ aborted) × EndpointFails s.http_port ms)
        ⊎ ((w : Watching) × (main float json env ms ≡ going w)
            × (watch_matching_services float json
                  (init_probing s.services_tag s.consul_fqdn s.interval_check_ms env.now)
                  (ticks ms)
                ≡ returns (ok w))
            × ¬ EndpointFails s.http_port ms)
  main-going env s ms h calm = rw (on_parsed-Starts env s ms h) (
      probing-going s.http_port
        (init_probing s.services_tag s.consul_fqdn s.interval_check_ms env.now) ms
        (init_probing-IsSound s.services_tag s.consul_fqdn s.interval_check_ms env.now) calm)

  probing-never_returns :
      (http_port : ℕ) (w : Watching) (ms : List Moment) (r : Result (Unit {0}) ℕ)
      → IsSound w
      → probing float json http_port w ms ≢ returned r
  unfolding probing on_turn on_endpoint
  probing-never_returns http_port w [] r s e = cc
  probing-never_returns http_port w (ticked tick ∷ ms) r s e =
      elim (turn-cases float json w tick s) [
        | inl p ↦ cc (rw p at e)
        | inr (w₁, q, s₁) ↦ probing-never_returns http_port w₁ ms r s₁ (rw q at e)
      ]
  probing-never_returns http_port w (ended server ∷ ms) r s e =
      elim (Result-cases (init_prometheus_http_endpoint server http_port)) [
        | inr (issue, f) ↦ cc (rw f at e)
        | inl (u, f) ↦ probing-never_returns http_port w ms r s (rw f at e)
      ]

  on_runtime-returned :
      (built : Result (Unit {0}) Text) (s : Settings) (now : ℕ) (ms : List Moment)
      (r : Result (Unit {0}) ℕ)
      → on_runtime float json built s now ms ≡ returned r
      → (r ≡ err 1) × ((issue : Text) × (built ≡ err issue))
  unfolding on_runtime
  on_runtime-returned (ok u) s now ms r e = absurd (
      probing-never_returns s.http_port
        (init_probing s.services_tag s.consul_fqdn s.interval_check_ms now) ms r
        (init_probing-IsSound s.services_tag s.consul_fqdn s.interval_check_ms now) e)
  on_runtime-returned (err issue) s now ms r e = (cc, (issue, refl))

  on_console-returned :
      (o : Outcome (Unit {0})) (p : Process) {r : Result (Unit {0}) ℕ}
      → on_console o p ≡ returned r
      → p ≡ returned r
  unfolding on_console
  on_console-returned (returns u) p e = e
  on_console-returned panics p e = absurd (cc)

  if_console-returned :
      (console : Bool) (o : Outcome (Unit {0})) (p : Process) {r : Result (Unit {0}) ℕ}
      → (if console then on_console o p else p) ≡ returned r
      → p ≡ returned r
  if_console-returned true o p e = on_console-returned o p e
  if_console-returned false o p e = e

  on_parsed-returned :
      (env : Environment) (parsed : Result Settings ℕ) (ms : List Moment) (r : Result (Unit {0}) ℕ)
      → on_parsed float json env parsed ms ≡ returned r
      → (r ≡ err 1) × ((issue : Text) × (env.build ≡ err issue))
  unfolding on_parsed
  on_parsed-returned env (ok s) ms r e = on_runtime-returned env.build s env.now ms r (
      if_console-returned s.tokio_console env.init_console
        (on_runtime float json env.build s env.now ms) e)
  on_parsed-returned env (err code) ms r e = absurd (cc)

  -- `main` returns only where the runtime cannot be built, and then it returns 1: never a success, and never
  -- the 2 of a discovery loop that has failed, whatever happens.
  pub main-returned :
      (env : Environment) (ms : List Moment) (r : Result (Unit {0}) ℕ)
      → main float json env ms ≡ returned r
      → (r ≡ err 1) × ((issue : Text) × (env.build ≡ err issue))
  unfolding main
  main-returned env ms r e = on_parsed-returned env _ ms r e
