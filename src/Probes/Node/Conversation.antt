-- ===== src/Probes/Node/Conversation.antt =====
-- What the task of src/probes/mod.rs says on a connection.
use probes.Prelude.{
  ℕ, zero, suc, ◌≤◌, ◌≡◌, refl, ap, ◌∙◌, [], ◌++◌, Result, ok, err, Outcome, returns, panics, arith,
  subst,
}
use probes.Prelude.Bytes.{Bytes}
use probes.Memcached.Cursor.{Buf}
use probes.Memcached.Connection
use probes.Memcached.Connection.{IoError, MemcachedClientError, Poll, ready, pending}
use probes.Memcached.Client.{Client, Ran, connect, probe}
use probes.Memcached.Client.Failing.{Returned}
use probes.Memcached.Client.Wire.{SentIfOk, probe_bytes, probe-Sent}
use probes.Probes.Node.{
  ProbeNode, TryRecv, message, closed, empty, World, Phase, connecting, probing, finished, crashed,
  hanging, Task, finish, after_failure, on_failure, on_connect, on_result, on_probe, on_poll,
  connect_poll, turn, step, run, begin,
}

-- The bytes of so many probes.
unfoldable pub conversation : ℕ → Bytes
conversation zero = []
conversation (suc k) = conversation k ++ probe_bytes

-- The connection has taken the bytes of some probes, of no more than have been made.
pub record HasSpoken (c : Client) (probed : ℕ) : Type 0 where
  pub rounds : ℕ
  pub made : rounds ≤ probed
  pub sent : c.connection.sent ≡ conversation rounds

abbrev SpokenPhase : Phase → ℕ → Type 0
SpokenPhase (probing c) probed = HasSpoken c probed
SpokenPhase _ probed = Unit {0}

abbrev Spoken : Task → Type 0
Spoken t = SpokenPhase t.phase t.probed

module _ (src : Buf) (w : World) where
  after_failure-Spoken : (t : Task) (r : TryRecv) → Spoken (after_failure r t)
  unfolding after_failure finish
  after_failure-Spoken t message = tt
  after_failure-Spoken t closed = tt
  after_failure-Spoken t empty = tt

  on_failure-Spoken : (t : Task) → Spoken (on_failure w t)
  unfolding on_failure
  on_failure-Spoken t = after_failure-Spoken _ (w.polls t.polled)

  on_connect-Spoken :
      (t : Task) (p : Poll (Result (Unit {0}) IoError))
      → Spoken (on_connect w t (connect_poll t.node p))
  unfolding on_connect connect_poll connect Connection.new conversation
  on_connect-Spoken t (ready (ok u)) = record { rounds = 0; made = omega arith; sent = refl }
  on_connect-Spoken t (ready (err x)) = on_failure-Spoken (record t { connected = suc t.connected })
  on_connect-Spoken t pending = tt

  on_result-Spoken :
      (t : Task) (c : Client) (o : Result (Unit {0}) MemcachedClientError)
      → (o ≡ ok tt → HasSpoken c t.probed)
      → Spoken (on_result w t c o)
  unfolding on_result
  on_result-Spoken t c (ok u) h = h refl
  on_result-Spoken t c (err x) h = on_failure-Spoken t

  -- A probe that succeeds is one round more.
  next_round :
      (c : Client) (probed : ℕ) (r : Ran (Result (Unit {0}) MemcachedClientError))
      → HasSpoken c probed
      → SentIfOk (c.connection.sent ++ probe_bytes) r
      → r.result ≡ ok tt
      → HasSpoken r.client (suc probed)
  unfolding conversation
  next_round c probed r h sent good = record {
    rounds = suc h.rounds;
    made = omega (arith, h.made);
    sent = sent good ∙ ap (λ bytes. bytes ++ probe_bytes) h.sent;
  }

  on_probe-Spoken :
      (t : Task) (c : Client) (o : Outcome (Ran (Result (Unit {0}) MemcachedClientError)))
      → HasSpoken c t.probed
      → Returned (SentIfOk (c.connection.sent ++ probe_bytes)) o
      → Spoken (on_probe w t o)
  unfolding on_probe
  on_probe-Spoken t c (returns r) h sent =
      on_result-Spoken (record t { probed = suc t.probed; calls = t.calls ++ r.calls }) r.client
        r.result (next_round c t.probed r h sent)
  on_probe-Spoken t c panics h sent = tt

  on_poll-Spoken :
      (t : Task) (c : Client) (r : TryRecv) → HasSpoken c t.probed → Spoken (on_poll src w t c r)
  unfolding on_poll finish
  on_poll-Spoken t c message h = tt
  on_poll-Spoken t c closed h = tt
  on_poll-Spoken t c empty h =
      on_probe-Spoken (record t { polled = suc t.polled }) c (probe src c (w.probes t.probed)) h
        (probe-Sent src c (w.probes t.probed))

  turn-Spoken :
      (t : Task) (p : Phase) → t.phase ≡ p → SpokenPhase p t.probed → Spoken (turn src w t p)
  unfolding turn
  turn-Spoken t connecting e h = on_connect-Spoken t (w.connects t.connected)
  turn-Spoken t (probing c) e h = on_poll-Spoken t c (w.polls t.polled) h
  turn-Spoken t finished e h = rw e tt
  turn-Spoken t crashed e h = rw e tt
  turn-Spoken t hanging e h = rw e tt

  run-Spoken : (k : ℕ) (t : Task) → Spoken t → Spoken (run src w k t)
  unfolding run step
  run-Spoken zero t h = h
  run-Spoken (suc k) t h = run-Spoken k (turn src w t t.phase) (turn-Spoken t t.phase refl h)

  -- What a task says: after any number of turns from the start, whatever its node answers, a task that probes
  -- has put on its connection nothing but whole probes, each the bytes of a set and then of a get, and no
  -- more of them than it has made.
  pub run-conversation :
      (n : ProbeNode) (k : ℕ) (t : Task) (c : Client)
      → run src w k (begin n) ≡ t
      → t.phase ≡ probing c
      → (rounds : ℕ) × (rounds ≤ t.probed) × (c.connection.sent ≡ conversation rounds)
  unfolding begin
  run-conversation n k t c ran is_probing =
      let h : SpokenPhase (probing c) t.probed =
        subst (λ p. SpokenPhase p t.probed) is_probing
          (subst Spoken ran (run-Spoken k (begin n) tt)) in
      (h.rounds, h.made, h.sent)
