-- ===== src/Probes/Node/Heeding.antt =====
-- A task of src/probes/mod.rs that hears the stop heeds it.
use probes.Prelude.{ℕ, ◌≡◌, refl, Result, ok, err}
use probes.Memcached.Cursor.{Buf}
use probes.Memcached.Connection.{IoError, MemcachedClientError, ready}
use probes.Memcached.Client.{Client, ProbeScript, connect}
use probes.Probes.Node.{
  message, World, Phase, connecting, probing, finished, crashed, hanging, Task, finish,
  after_failure, on_failure, on_connect, on_poll, connect_poll, turn, step, run,
}
use probes.Probes.Node.Lifecycle.{IsActive}

-- Every attempt to connect is answered, in whatever way, and every look at the channel finds the stop.
abbrev pub hears_stop : (ℕ → Result (Unit {0}) IoError) → (ℕ → ProbeScript) → World
hears_stop answers scripts = record {
  connects = λ i. ready (answers i);
  polls = λ i. message;
  probes = scripts;
}

-- A task that has finished after two turns in which it hears the stop and its attempts to connect are answered.
abbrev pub EndsSoon : Buf → Task → Type 0
EndsSoon src t =
    (answers : ℕ → Result (Unit {0}) IoError) (scripts : ℕ → ProbeScript)
    → (run src (hears_stop answers scripts) 2 t).phase ≡ finished

module _ (src : Buf) (answers : ℕ → Result (Unit {0}) IoError) (scripts : ℕ → ProbeScript) where
  abbrev w : World
  w = hears_stop answers scripts

  on_connect-stops :
      (t : Task) (r : Result Client MemcachedClientError)
      → (step src w (on_connect w t (ready r))).phase ≡ finished
  unfolding step turn on_connect on_poll on_failure after_failure finish
  on_connect-stops t (ok c) = refl
  on_connect-stops t (err e) = refl

  turn-stops : (t : Task) (p : Phase) → IsActive p → (step src w (turn src w t p)).phase ≡ finished
  unfolding turn connect_poll
  turn-stops t connecting a =
      on_connect-stops t (connect t.node.cluster_name t.node.socket (answers t.connected))
  turn-stops t (probing c) a = unfold step on_poll finish in refl
  turn-stops t finished a = absurd a
  turn-stops t crashed a = absurd a
  turn-stops t hanging a = absurd a

pub active-EndsSoon : (src : Buf) (t : Task) → IsActive t.phase → EndsSoon src t
unfolding run
active-EndsSoon src t a answers scripts = unfold step in turn-stops src answers scripts t t.phase a
