-- ===== src/Probes/Node/Failures.antt =====
-- The failures that the task of src/probes/mod.rs counts, against what its node has answered.
use probes.Prelude.{
  ℕ, zero, suc, ◌+◌, ◌≡◌, refl, ◌∙◌, ap, List, ◌++◌, Option, none, some, Result, ok, err, arith,
}
use probes.Prelude.Text.{Text, text}
use probes.Metrics.{MetricCall}
use probes.Metrics.Failures.{failures_in, failures_in-append}
use probes.Memcached.Cursor.{Buf}
use probes.Memcached.Command.{Command}
use probes.Memcached.Connection.{IoError, MemcachedClientError, Poll, ready, pending}
use probes.Memcached.Client.{Client, Exchange, ProbeScript, Ran, connect, probe}
use probes.Memcached.Client.Accounting.{
  Accounts, answered, timed_out, failed, ProbeAccounts, set_failed, both, probe-Accounts,
}
use probes.Memcached.Client.Service.{IsIdle, set_command, get_command}
use probes.Memcached.Client.Verdict.{named, Succeeds, probe-Told}
use probes.Probes.Node.{
  ProbeNode, TryRecv, message, closed, empty, World, Phase, connecting, probing, finished, crashed,
  hanging, Task, stop, stop_type, manage_failure, finish, after_failure, on_failure, on_connect,
  on_result, on_probe, on_poll, connect_poll, turn, step, run, begin,
}
use probes.Probes.Node.Safe.{IsTame}
use probes.Probes.Node.Steady.{IdlePhase, step-IdlePhase}

-- Requests count no failure.
Accounts-failures_in :
    (src : Buf) (c : Client) (t : Text) (cmd : Command) (ex : Exchange) (calls : List MetricCall)
    (o : Result (Unit {0}) MemcachedClientError)
    → Accounts src c t cmd ex calls o
    → failures_in calls ≡ 0
unfolding failures_in
Accounts-failures_in src c t cmd ex calls o (answered response status heard known e q) = rw q refl
Accounts-failures_in src c t cmd ex calls o (timed_out heard e q) = rw q refl
Accounts-failures_in src c t cmd ex calls o (failed x heard e q) = rw q refl

ProbeAccounts-failures_in :
    (src : Buf) (c : Client) (script : ProbeScript)
    (r : Ran (Result (Unit {0}) MemcachedClientError))
    → ProbeAccounts src c script r
    → failures_in r.calls ≡ 0
ProbeAccounts-failures_in src c script r (set_failed e bad a) =
    Accounts-failures_in src c (text "set") set_command script.set_exchange r.calls r.result a.1
ProbeAccounts-failures_in src c script r (both r₁ r₂ good a₁ a₂ same) =
    ap (λ (x : Ran (Result (Unit {0}) MemcachedClientError)). failures_in x.calls) same
    ∙ failures_in-append r₁.calls r₂.calls
    ∙ rw
        (
          Accounts-failures_in src c (text "set") set_command script.set_exchange r₁.calls r₁.result
              a₁.1,
          Accounts-failures_in src r₁.client (text "get") get_command script.get_exchange r₂.calls
              r₂.result a₂.1,
        )
        (omega arith)

-- 1 for an attempt to connect that fails.
abbrev pub connect_fails : Poll (Result (Unit {0}) IoError) → ℕ
connect_fails (ready (ok u)) = 0
connect_fails (ready (err x)) = 1
connect_fails pending = 0

unfoldable pub failed_connects : World → ℕ → ℕ
failed_connects w zero = 0
failed_connects w (suc k) = failed_connects w k + connect_fails (w.connects k)

-- 1 for a probe that is not answered twice.
abbrev pub probe_fails : Option Text → Option Text → ℕ
probe_fails none on_get = 1
probe_fails (some status) none = 1
probe_fails (some status) (some on_get) = 0

unfoldable pub failed_probes : (w : World) → IsTame w → ℕ → ℕ
failed_probes w tame zero = 0
failed_probes w tame (suc k) =
    failed_probes w tame k
    + probe_fails (named (tame.polite k).to_set) (named (tame.polite k).to_get)

silent : (xs ys : List MetricCall) → failures_in ys ≡ 0 → failures_in (xs ++ ys) ≡ failures_in xs
silent xs ys e = omega (arith, failures_in-append xs ys, e)

stop-silent : (n : ProbeNode) → failures_in (stop n) ≡ 0
unfolding stop stop_type failures_in
stop-silent n = refl

manage_failure-counts : (n : ProbeNode) → failures_in (manage_failure n) ≡ 1
unfolding manage_failure failures_in
manage_failure-counts n = omega arith

module _ (src : Buf) (w : World) (tame : IsTame w) where
  abbrev pub expected : Task → ℕ
  expected t = failed_connects w t.connected + failed_probes w tame t.probed

  abbrev pub HasCounted : Task → Type 0
  HasCounted t = failures_in t.calls ≡ expected t

  after_failure-HasCounted :
      (t : Task) (r : TryRecv) → HasCounted t → HasCounted (after_failure r t)
  unfolding after_failure finish
  after_failure-HasCounted t message q = silent t.calls (stop t.node) (stop-silent t.node) ∙ q
  after_failure-HasCounted t closed q = silent t.calls (stop t.node) (stop-silent t.node) ∙ q
  after_failure-HasCounted t empty q = q

  -- A failure is counted once.
  on_failure-HasCounted :
      (t : Task) → suc (failures_in t.calls) ≡ expected t → HasCounted (on_failure w t)
  unfolding on_failure
  on_failure-HasCounted t q =
      after_failure-HasCounted (record t { calls = t.calls ++ manage_failure t.node })
        (w.polls t.polled)
        (omega (
          arith,
          failures_in-append t.calls (manage_failure t.node),
          manage_failure-counts t.node,
          q,
        ))

  on_connect-HasCounted :
      (t : Task) (p : Poll (Result (Unit {0}) IoError))
      → w.connects t.connected ≡ p
      → HasCounted t
      → HasCounted (on_connect w t (connect_poll t.node p))
  unfolding on_connect connect_poll connect failed_connects
  on_connect-HasCounted t (ready (ok u)) e q = rw e (omega (arith, q))
  on_connect-HasCounted t (ready (err x)) e q =
      on_failure-HasCounted (record t { connected = suc t.connected }) (rw e (omega (arith, q)))
  on_connect-HasCounted t pending e q = q

  on_result-HasCounted :
      (t : Task) (c : Client) (on_set on_get : Option Text)
      (o : Result (Unit {0}) MemcachedClientError)
      → Succeeds on_set on_get o
      → failures_in t.calls + probe_fails on_set on_get ≡ expected t
      → HasCounted (on_result w t c o)
  unfolding on_result
  on_result-HasCounted t c none on_get o (x, bad) q =
      rw bad (on_failure-HasCounted t (omega (arith, q)))
  on_result-HasCounted t c (some status) none o (x, bad) q =
      rw bad (on_failure-HasCounted t (omega (arith, q)))
  on_result-HasCounted t c (some status) (some on_get) o good q = rw good (omega (arith, q))

  on_probe-HasCounted :
      (t : Task) (c : Client)
      → IsIdle c
      → HasCounted t
      → HasCounted (on_probe w t (probe src c (w.probes t.probed)))
  unfolding on_probe failed_probes
  on_probe-HasCounted t c idle q =
      let (r, ran, told) =
        probe-Told src c (w.probes t.probed) idle (tame.polite t.probed) (tame.known t.probed) in
      let none_new : failures_in r.calls ≡ 0 =
        ProbeAccounts-failures_in src c (w.probes t.probed) r
          (probe-Accounts src c (w.probes t.probed) ran) in
      rw ran (
        on_result-HasCounted (record t { probed = suc t.probed; calls = t.calls ++ r.calls })
          r.client (named (tame.polite t.probed).to_set) (named (tame.polite t.probed).to_get)
          r.result told.verdict (omega (arith, silent t.calls r.calls none_new, q)))

  on_poll-HasCounted :
      (t : Task) (c : Client) (r : TryRecv)
      → IsIdle c
      → HasCounted t
      → HasCounted (on_poll src w t c r)
  unfolding on_poll finish
  on_poll-HasCounted t c message idle q = silent t.calls (stop t.node) (stop-silent t.node) ∙ q
  on_poll-HasCounted t c closed idle q = silent t.calls (stop t.node) (stop-silent t.node) ∙ q
  on_poll-HasCounted t c empty idle q =
      on_probe-HasCounted (record t { polled = suc t.polled }) c idle q

  turn-HasCounted :
      (t : Task) (p : Phase)
      → t.phase ≡ p
      → IdlePhase p
      → HasCounted t
      → HasCounted (turn src w t p)
  unfolding turn
  turn-HasCounted t connecting e h q = on_connect-HasCounted t (w.connects t.connected) refl q
  turn-HasCounted t (probing c) e h q = on_poll-HasCounted t c (w.polls t.polled) h q
  turn-HasCounted t finished e h q = q
  turn-HasCounted t crashed e h q = q
  turn-HasCounted t hanging e h q = q

  run-HasCounted :
      (k : ℕ) (t : Task) → IdlePhase t.phase → HasCounted t → HasCounted (run src w k t)
  unfolding run step
  run-HasCounted zero t h q = q
  run-HasCounted (suc k) t h q =
      run-HasCounted k (turn src w t t.phase) (unfold step in step-IdlePhase src w tame.polite t h)
        (turn-HasCounted t t.phase refl h q)

  -- After any number of turns from the start, the failures counted are the attempts to connect that have failed
  -- and the probes that were not answered twice.
  pub run-failures_in : (n : ProbeNode) (k : ℕ) → HasCounted (run src w k (begin n))
  run-failures_in n k =
      run-HasCounted k (begin n) (unfold begin in tt)
        (unfold begin failures_in failed_connects failed_probes in omega arith)
