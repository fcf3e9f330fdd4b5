-- ===== src/Tests/Task.antt =====
-- The task of one node, src/probes/mod.rs, in concrete worlds.
use probes.Prelude.{
  ℕ, zero, suc, ◌+◌, ◌^◌, ◌≡◌, ◌≢◌, refl, List, [], ◌∷◌, ◌++◌, All, Result, ok, err, Outcome,
  returns, panics, arith, if◌then◌else◌, ltb, inl, inr,
}
use probes.Prelude.Text.{Text, text}
use probes.Memcached.Connection.{ready, refused, stalled}
use probes.Memcached.Client.{status_code, Exchange, ProbeScript}
use probes.Probes.Node
use probes.Probes.Node.{
  ProbeNode, TryRecv, message, closed, empty, World, connecting, probing, finished, crashed, Task,
  run, begin, stop,
}
use probes.Probes.Node.Lifecycle.{ToldToStop, Connects, IsSafe, run-stops}
use probes.Probes.Node.Safe.{IsTame, IsTame-IsSafe}
use probes.Probes.Node.Steady.{IdlePhase}
use probes.Memcached.Client.Polite.{Polite, PoliteProbe}
use probes.Memcached.Client.Verdict.{AreKnown}
use probes.Tests.Requests.{exchange_of, answer_of, answered_not_found}
use probes.Probes.Node.Tidy.{Tidy, run-begin-Tidy}
use probes.Probes.Node.Removal.{finished-removed}
use probes.Probes.Node.Series.{replay}
use probes.Tests.Instances.{cursor_buf, count_table}

abbrev pub node : ProbeNode
node = record {
  cluster_name = text "cluster";
  ip = text "10.0.0.1";
  port = 11213;
  socket = text "10.0.0.1:11213";
  interval_check_ms = 1000;
  stop_probe_resp_rx = 0;
}

made : Node.new (text "cluster") (text "10.0.0.1") 11213 1000 0 ≡ node
unfolding Node.new probes.Prelude.Text.decimal
made = refl

-- A server that refuses what is written.
abbrev pub exchange : Exchange
exchange = record {
  writes = record { write_all = refused 32; flush = stalled };
  reads = [];
  elapsed = 0;
}

-- Both requests are answered.
abbrev pub answered : ProbeScript
answered = record { set_exchange = exchange_of 1; get_exchange = exchange_of 1 }

-- Every attempt to connect succeeds and every probe is answered; the stop comes before the fourth look.
abbrev pub stopping : World
stopping = record {
  connects = λ i. ready (ok tt);
  polls = λ i. if ltb i 3 then empty else message;
  probes = λ i. answered;
}

-- No attempt to connect succeeds, and nobody tells to stop.
abbrev pub refusing : World
refusing = record {
  connects = λ i. ready (err 111);
  polls = λ i. empty;
  probes = λ i. record { set_exchange = exchange; get_exchange = exchange };
}

-- Every attempt to connect succeeds, every probe is answered, and nobody tells to stop.
abbrev pub answering : World
answering = record stopping { polls = λ i. empty }

pub stopping-ToldToStop : ToldToStop stopping 3
stopping-ToldToStop i h = ground arith

-- What is refused is less than an answer.
refused-Polite : Polite exchange
refused-Polite = Polite.unsent (cc)

refused-PoliteProbe : PoliteProbe (record { set_exchange = exchange; get_exchange = exchange })
refused-PoliteProbe = record { to_set = refused-Polite; to_get = refused-Polite }

pub answered-PoliteProbe : PoliteProbe answered
answered-PoliteProbe = record {
  to_set = Polite.whole (answer_of 1) answered_not_found;
  to_get = Polite.whole (answer_of 1) answered_not_found;
}

pub answered-AreKnown : AreKnown answered-PoliteProbe
unfolding status_code answered-PoliteProbe
answered-AreKnown = record { of_set = cc; of_get = cc }

stopping-IsTame : IsTame stopping
stopping-IsTame = record { polite = λ i. answered-PoliteProbe; known = λ i. answered-AreKnown }

pub answering-IsTame : IsTame answering
answering-IsTame = record { polite = λ i. answered-PoliteProbe; known = λ i. answered-AreKnown }

refusing-IsTame : IsTame refusing
refusing-IsTame = record {
  polite = λ i. refused-PoliteProbe;
  known = λ i. unfold refused-PoliteProbe refused-Polite in record { of_set = tt; of_get = tt };
}

pub stopping-Connects : Connects stopping
stopping-Connects i = cc

refusing-Connects : Connects refusing
refusing-Connects i = cc

pub stopping-IsSafe :
    (t : Task) → IdlePhase t.phase → t.phase ≢ crashed → IsSafe cursor_buf stopping t
stopping-IsSafe t = IsTame-IsSafe cursor_buf stopping t stopping-IsTame

abbrev started : Task
started = record {
  node = node;
  phase = connecting;
  connected = 0;
  polled = 0;
  probed = 0;
  calls = [];
  slept = 0;
}

run-stops_example : (run cursor_buf stopping 9 started).phase ≡ finished
run-stops_example =
    run-stops cursor_buf stopping 3 stopping-ToldToStop stopping-Connects 9 started tt
      (stopping-IsSafe started tt (cc)) (omega arith)

run-begin-Tidy_example : Tidy node (run cursor_buf stopping 9 (begin node))
run-begin-Tidy_example = run-begin-Tidy cursor_buf stopping node 9

stops_from_begin : (run cursor_buf stopping 9 (begin node)).phase ≡ finished
unfolding begin
stops_from_begin =
    run-stops cursor_buf stopping 3 stopping-ToldToStop stopping-Connects 9 started tt
      (stopping-IsSafe started tt (cc)) (omega arith)

finished-removed_example :
    replay count_table
      (run cursor_buf stopping 9 (begin node)).calls
      (λ ls. 7)
      (text "cluster" ∷ text "10.0.0.1:11213" ∷ text "KeyNotFound" ∷ text "get" ∷ [])
    ≡ 0
finished-removed_example =
    finished-removed count_table cursor_buf stopping node 9 (λ ls. 7) 1 (text "KeyNotFound")
      (text "get") stops_from_begin (unfold status_code in refl) (inr refl)
