-- ===== src/Probes/Node/Lifecycle.antt =====
-- When the task of src/probes/mod.rs ends, and when it goes on.
use probes.Prelude.{
  ℕ, zero, suc, ◌+◌, ◌-◌, ◌*◌, ◌≤◌, ◌<◌, ◌≡◌, ◌≢◌, refl, ap, ◌∙◌, ◌⊎◌, inl, inr, ◌++◌, Result, ok,
  err, Outcome, returns, panics, arith,
}
use native.Mathlib.Decide.{dec_lt}
use probes.Memcached.Cursor.{Buf}
use probes.Memcached.Connection.{IoError, MemcachedClientError, Poll, ready, pending}
use probes.Memcached.Client.{Client, Ran, probe}
use probes.Probes.Node.{
  ProbeNode, TryRecv, message, closed, empty, World, Phase, connecting, probing, finished, crashed,
  hanging, Task, finish, after_failure, on_failure, on_connect, on_result, on_probe, on_poll,
  connect_poll, turn, step, run,
}

abbrev pub IsActive : Phase → Type 0
IsActive connecting = Unit {0}
IsActive (probing c) = Unit {0}
IsActive _ = ⊥

abbrev phase_rank : Phase → ℕ
phase_rank connecting = 2
phase_rank _ = 1

-- The turns that are still to come at most, once the channel tells to stop from look `k` on.
abbrev pub rank : ℕ → Task → ℕ
rank k t = 2 * (k - t.polled) + phase_rank t.phase

-- The node is told to stop, by a message or by a closed channel, and that stays so.
abbrev pub ToldToStop : World → ℕ → Type 0
ToldToStop w k = (i : ℕ) → k ≤ i → w.polls i ≢ empty

-- Every attempt to connect is answered.
abbrev pub Connects : World → Type 0
Connects w = (i : ℕ) → w.connects i ≢ pending

-- No probe that the task makes panics.
abbrev pub IsSafe : Buf → World → Task → Type 0
IsSafe src w t = (n : ℕ) → (run src w n t).phase ≢ crashed

-- The next turn does not, and the rest of them.
pub IsSafe-step :
    (src : Buf) (w : World) (t : Task)
    → IsSafe src w t
    → ((step src w t).phase ≢ crashed) × IsSafe src w (step src w t)
unfolding run
IsSafe-step src w t safe = (safe 1, λ n. safe (suc n))

abbrev Ahead : ℕ → ℕ → Task → Type 0
Ahead k m t = (t.phase ≡ finished) ⊎ (IsActive t.phase × (rank k t < m))

connect_poll-answered :
    (n : ProbeNode) (p : Poll (Result (Unit {0}) IoError))
    → p ≢ pending
    → connect_poll n p ≢ pending
unfolding connect_poll
connect_poll-answered n (ready a) h e = cc
connect_poll-answered n pending h e = h refl

module _ (src : Buf) (w : World) (k : ℕ) (told : ToldToStop w k) (answers : Connects w) where
  early : (i : ℕ) → w.polls i ≡ empty → i < k
  early i e = elim (dec_lt i k) [ yes h ↦ h | no h ↦ absurd (told i (omega arith) e) ]

  after_failure-Ahead :
      (t : Task) (r : TryRecv)
      → w.polls t.polled ≡ r
      → Ahead k (2 * (k - t.polled) + 1) (after_failure r t)
  unfolding after_failure finish
  after_failure-Ahead t message e = inl refl
  after_failure-Ahead t closed e = inl refl
  after_failure-Ahead t empty e = inr (tt, omega (arith, early t.polled e))

  on_failure-Ahead : (t : Task) → Ahead k (2 * (k - t.polled) + 1) (on_failure w t)
  unfolding on_failure
  on_failure-Ahead t = after_failure-Ahead (record t { calls = _ }) (w.polls t.polled) refl

  weaken : (m n : ℕ) (t : Task) → m ≤ n → Ahead k m t → Ahead k n t
  weaken m n t h (inl e) = inl e
  weaken m n t h (inr (a, b)) = inr (a, omega arith)

  on_connect-Ahead :
      (t : Task) (p : Poll (Result Client MemcachedClientError))
      → p ≢ pending
      → Ahead k (2 * (k - t.polled) + 2) (on_connect w t p)
  unfolding on_connect
  on_connect-Ahead t (ready (ok c)) h = inr (tt, omega arith)
  on_connect-Ahead t (ready (err e)) h =
      let t' : Task = record t { connected = suc t.connected } in
      weaken (2 * (k - t.polled) + 1) (2 * (k - t.polled) + 2) (on_failure w t') (omega arith)
        (on_failure-Ahead t')
  on_connect-Ahead t pending h = absurd (h refl)

  on_probe-Ahead :
      (t : Task) (o : Outcome (Ran (Result (Unit {0}) MemcachedClientError)))
      → (on_probe w t o).phase ≢ crashed
      → Ahead k (2 * (k - t.polled) + 2) (on_probe w t o)
  unfolding on_probe on_result
  on_probe-Ahead t panics h = absurd (h refl)
  on_probe-Ahead t (returns r) h = result_ahead r.result
    where
      t' : Task
      t' = record t { probed = suc t.probed; calls = t.calls ++ r.calls }

      result_ahead :
          (o : Result (Unit {0}) MemcachedClientError)
          → Ahead k (2 * (k - t.polled) + 2) (on_result w t' r.client o)
      result_ahead (ok _) = inr (tt, omega arith)
      result_ahead (err e) =
          weaken (2 * (k - t.polled) + 1) (2 * (k - t.polled) + 2) (on_failure w t') (omega arith)
            (on_failure-Ahead t')

  on_poll-Ahead :
      (t : Task) (c : Client) (r : TryRecv)
      → w.polls t.polled ≡ r
      → (on_poll src w t c r).phase ≢ crashed
      → Ahead k (2 * (k - t.polled) + 1) (on_poll src w t c r)
  unfolding on_poll finish
  on_poll-Ahead t c message e safe = inl refl
  on_poll-Ahead t c closed e safe = inl refl
  on_poll-Ahead t c empty e safe =
      let t' : Task = record t { polled = suc t.polled } in
      let o : Outcome (Ran (Result (Unit {0}) MemcachedClientError)) =
        probe src c (w.probes t.probed) in
      weaken (2 * (k - suc t.polled) + 2) (2 * (k - t.polled) + 1) (on_probe w t' o)
        (omega (arith, early t.polled e)) (on_probe-Ahead t' o safe)

  turn-Ahead :
      (t : Task) (p : Phase)
      → IsActive p
      → (turn src w t p).phase ≢ crashed
      → Ahead k (2 * (k - t.polled) + phase_rank p) (turn src w t p)
  unfolding turn
  turn-Ahead t connecting a safe =
      on_connect-Ahead t (connect_poll t.node (w.connects t.connected))
        (connect_poll-answered t.node (w.connects t.connected) (answers t.connected))
  turn-Ahead t (probing c) a safe = on_poll-Ahead t c (w.polls t.polled) refl safe
  turn-Ahead t finished a safe = absurd a
  turn-Ahead t crashed a safe = absurd a
  turn-Ahead t hanging a safe = absurd a

phase_rank_pos : (p : Phase) → 1 ≤ phase_rank p
phase_rank_pos connecting = omega arith
phase_rank_pos _ = omega arith

run-finished :
    (src : Buf) (w : World) (n : ℕ) (t : Task)
    → t.phase ≡ finished
    → (run src w n t).phase ≡ finished
unfolding run step
run-finished src w zero t e = e
run-finished src w (suc n) t e =
    run-finished src w n (turn src w t t.phase) (ap (λ p. (turn src w t p).phase) e ∙ e)

-- Once the channel tells to stop, by a message or because its sender is gone, the task ends: a node
-- that is connecting or probing has finished after twice as many turns as there are looks at the channel
-- before that, and two more, if every attempt to connect is answered and none of its probes panics.
pub run-stops :
    (src : Buf) (w : World) (k : ℕ)
    → ToldToStop w k
    → Connects w
    → (n : ℕ) (t : Task) → IsActive t.phase
    → IsSafe src w t
    → rank k t ≤ n
    → (run src w n t).phase ≡ finished
unfolding run step
run-stops src w k told answers zero t a safe h = absurd (omega (arith, phase_rank_pos t.phase))
run-stops src w k told answers (suc n) t a safe h =
    let (fine, rest) = IsSafe-step src w t safe in
    elim (turn-Ahead src w k told answers t t.phase a fine) [
      | inl e ↦ run-finished src w n (turn src w t t.phase) e
      | inr (a', less) ↦
          run-stops src w k told answers n (turn src w t t.phase) a' rest (omega arith)
    ]

module _ (src : Buf) (w : World) (quiet : (i : ℕ) → w.polls i ≡ empty) (answers : Connects w) where
  on_failure-IsActive : (t : Task) → IsActive (on_failure w t).phase
  unfolding on_failure after_failure
  on_failure-IsActive t = rw (quiet t.polled) tt

  on_connect-IsActive :
      (t : Task) (p : Poll (Result Client MemcachedClientError))
      → p ≢ pending
      → IsActive (on_connect w t p).phase
  unfolding on_connect
  on_connect-IsActive t (ready (ok c)) h = tt
  on_connect-IsActive t (ready (err e)) h =
      on_failure-IsActive (record t { connected = suc t.connected })
  on_connect-IsActive t pending h = absurd (h refl)

  on_result-IsActive :
      (t : Task) (c : Client) (o : Result (Unit {0}) MemcachedClientError)
      → IsActive (on_result w t c o).phase
  unfolding on_result
  on_result-IsActive t c (ok _) = tt
  on_result-IsActive t c (err e) = on_failure-IsActive t

  on_probe-IsActive :
      (t : Task) (o : Outcome (Ran (Result (Unit {0}) MemcachedClientError)))
      → (on_probe w t o).phase ≢ crashed
      → IsActive (on_probe w t o).phase
  unfolding on_probe
  on_probe-IsActive t (returns r) h =
      on_result-IsActive (record t { probed = suc t.probed; calls = t.calls ++ r.calls }) r.client
        r.result
  on_probe-IsActive t panics h = absurd (h refl)

  turn-IsActive :
      (t : Task) (p : Phase)
      → IsActive p
      → (turn src w t p).phase ≢ crashed
      → IsActive (turn src w t p).phase
  unfolding turn on_poll
  turn-IsActive t connecting a safe =
      on_connect-IsActive t (connect_poll t.node (w.connects t.connected))
        (connect_poll-answered t.node (w.connects t.connected) (answers t.connected))
  turn-IsActive t (probing c) a safe = rw (quiet t.polled) (
      on_probe-IsActive (record t { polled = suc t.polled }) (probe src c (w.probes t.probed))
        (rw (quiet t.polled) at safe))
  turn-IsActive t finished a safe = absurd a
  turn-IsActive t crashed a safe = absurd a
  turn-IsActive t hanging a safe = absurd a

  -- While nothing is on the channel and its sender is there, the task goes on: if every attempt to
  -- connect is answered and none of its probes panics, then however many of them fail, after any number
  -- of turns it is connecting or probing.
  pub run-goes_on :
      (n : ℕ) (t : Task) → IsActive t.phase → IsSafe src w t → IsActive (run src w n t).phase
  unfolding run step
  run-goes_on zero t a safe = a
  run-goes_on (suc n) t a safe =
      let (fine, rest) = IsSafe-step src w t safe in
      run-goes_on n (turn src w t t.phase) (turn-IsActive t t.phase a fine) rest
