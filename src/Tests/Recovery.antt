-- ===== src/Tests/Recovery.antt =====
-- A node that is slow once, and then answers: src/probes/mod.rs.
use probes.Prelude.{◌≤◌, ap, ◌∙◌, ◌+◌, ◌≢◌, ℕ, zero, suc, ◌≡◌, refl, [], ◌∷◌, ◌++◌, ok, arith}
use probes.Prelude.Bytes.{Bytes, be_bytes}
use probes.Prelude.Text.{text}
use probes.Metrics.{observe_response_time, inc_failure_probe}
use probes.Memcached.Header.Layout.{wire_bytes}
use probes.Memcached.Connection.{ready, received, written}
use probes.Memcached.Client.{Client, Exchange, ProbeScript, status_code}
use probes.Memcached.Client.Service.{after_request, set_command, get_command}
use probes.Memcached.Client.Polite.{Polite}
use probes.Memcached.Client.Verdict.{AreKnown, rows_of}
use probes.Metrics.Requests.{Row, labels, tally, requests_in}
use probes.Probes.Node.Counting.{answered_upto, run-answers}
use probes.Probes.Node.Counters.{run-counts, run-failures}
use probes.Probes.Node.Failures.{failed_connects, failed_probes}
use probes.Metrics.Failures.{replay_failures}
use probes.Probes.Node.Series.{replay}
use probes.Probes.Node.Conversation.{conversation, run-conversation}
use probes.Probes.Node.Running.{run-step}
use probes.Probes.Node.Lifecycle.{IsActive, run-goes_on}
use probes.Probes.Node.Safe.{IsTame, IsTame-IsSafe}
use probes.Memcached.Client.Failing.{silence}
use probes.Probes.Node.{World, TryRecv, empty, Task, probing, finished, crashed, run, begin, step}
use probes.Probes.Node.Steady.{IsPolite, both_counted, run-recovers}
use probes.Tests.Instances.{cursor_buf, count_table}
use probes.Tests.Requests.{client, answer_of, exchange_of, not_found-IsFrame, answered_not_found}
use probes.Tests.Task.{node}

-- Only a part of the answer comes before the deadline.
abbrev slow : Exchange
slow = record {
  writes = record { write_all = written; flush = written };
  reads = received (0x81 ∷ 1 ∷ 0 ∷ 0 ∷ []) ∷ [];
  elapsed = 0;
}

abbrev missing : Bytes
missing = 0 ∷ 0 ∷ 0 ∷ 1 ∷ 0 ∷ 0 ∷ 0 ∷ 0 ∷ 0 ∷ 0 ∷ 0 ∷ 0 ∷ 0 ∷ 0 ∷ 0 ∷ 0 ∷ 0 ∷ 0 ∷ 0 ∷ 0 ∷ []

abbrev scripts : ℕ → ProbeScript
scripts zero = record { set_exchange = slow; get_exchange = slow }
scripts (suc i) = record { set_exchange = exchange_of 1; get_exchange = exchange_of 1 }

abbrev slow_once : World
slow_once = record { connects = λ i. ready (ok tt); polls = λ i. empty; probes = scripts }

slow-Polite : Polite slow
slow-Polite =
    Polite.cut (answer_of 1) [] missing ((0x81 ∷ 1 ∷ 0 ∷ 0 ∷ []) ∷ []) [] refl not_found-IsFrame
      (cc, tt) (unfold wire_bytes be_bytes in refl, omega arith) refl silence

answered-Polite : Polite (exchange_of 1)
answered-Polite = Polite.whole (answer_of 1) answered_not_found

slow_once-IsPolite : IsPolite slow_once
slow_once-IsPolite zero = record { to_set = slow-Polite; to_get = slow-Polite }
slow_once-IsPolite (suc i) = record { to_set = answered-Polite; to_get = answered-Polite }

-- After the timeout the task has connected again.
abbrev back_again : Task
back_again = record {
  node = node;
  phase = probing client;
  connected = 2;
  polled = 2;
  probed = 1;
  calls =
      observe_response_time (text "cluster") (text "10.0.0.1:11213") (text "set") 100000000
      ∷ inc_failure_probe (text "cluster") (text "10.0.0.1:11213")
      ∷ [];
  slept = 500;
}

came_back : run cursor_buf slow_once 3 (begin node) ≡ back_again
unfolding run step begin cursor_buf probes.Memcached.Client.connect probes.Memcached.Client.probe
    probes.Memcached.Client.set_call probes.Memcached.Client.handler_with_timeout
    probes.Memcached.Client.handle_request probes.Memcached.Connection.send_request
    probes.Memcached.Connection.read_response probes.Memcached.Connection.parse_response
    probes.Memcached.Response.check probes.Memcached.Header.check probes.Memcached.Connection.new
    probes.Probes.Node.manage_failure
came_back = refl

run-recovers_example : step cursor_buf slow_once back_again ≡ record back_again {
  phase = probing (after_request (after_request client set_command) get_command);
  polled = 3;
  probed = 2;
  calls =
      back_again.calls ++ both_counted node slow_once 1 (text "KeyNotFound") (text "KeyNotFound");
  slept = 1500;
}
run-recovers_example =
    run-recovers cursor_buf slow_once node 3 back_again client (answer_of 1) (answer_of 1)
      (text "KeyNotFound") (text "KeyNotFound") slow_once-IsPolite came_back refl refl
      answered_not_found answered_not_found (unfold status_code in refl)
      (unfold status_code in refl)

-- What the task counts of the first three of its turns, and of six.
slow_once-AreKnown : (i : ℕ) → AreKnown (slow_once-IsPolite i)
unfolding slow_once-IsPolite slow-Polite answered-Polite status_code
slow_once-AreKnown zero = record { of_set = tt; of_get = tt }
slow_once-AreKnown (suc i) = record { of_set = cc; of_get = cc }

run-answers_example :
    ((run cursor_buf slow_once 6 (begin node)).phase ≢ crashed)
    × (requests_in (run cursor_buf slow_once 6 (begin node)).calls
        ≡ rows_of (text "cluster") (text "10.0.0.1:11213") (
            answered_upto slow_once slow_once-IsPolite
              (run cursor_buf slow_once 6 (begin node)).probed))
run-answers_example = run-answers cursor_buf slow_once slow_once-IsPolite node slow_once-AreKnown 6

abbrev get_row : Row
get_row = record {
  cluster_name = text "cluster";
  socket = text "10.0.0.1:11213";
  status = text "KeyNotFound";
  cmd_type = text "get";
}

slow_once-IsTame : IsTame slow_once
slow_once-IsTame = record { polite = slow_once-IsPolite; known = slow_once-AreKnown }

-- Nobody tells to stop, so the task goes on.
run-IsActive : IsActive (run cursor_buf slow_once 6 (begin node)).phase
run-IsActive =
    run-goes_on cursor_buf slow_once (λ i. refl) (λ i. cc) 6 (begin node) (unfold begin in tt)
      (IsTame-IsSafe cursor_buf slow_once (begin node) slow_once-IsTame (unfold begin in tt)
        (unfold begin in cc))

still_probing : (run cursor_buf slow_once 6 (begin node)).phase ≢ finished
still_probing h = absurd (rw h at run-IsActive)

-- Of two probes, the first was cut in its set, and the second answered.
one_get :
    tally get_row (
      rows_of
        (text "cluster")
        (text "10.0.0.1:11213")
        (answered_upto slow_once slow_once-IsPolite 2))
    ≡ 1
unfolding answered_upto slow_once-IsPolite slow-Polite answered-Polite status_code rows_of tally
    probes.Metrics.labels_eq probes.Prelude.Bytes.bytes_eq
one_get = refl

-- The first of them is the one that has failed.
one_failure : failed_probes slow_once slow_once-IsTame 2 ≡ 1
unfolding failed_probes slow_once-IsTame slow_once-IsPolite slow-Polite answered-Polite status_code
one_failure = refl

run-counts_example :
    replay count_table (run cursor_buf slow_once 6 (begin node)).calls (λ ls. 7) (labels get_row)
    ≡ 7
      + tally get_row (
          rows_of (text "cluster") (text "10.0.0.1:11213") (
            answered_upto slow_once slow_once-IsPolite
              (run cursor_buf slow_once 6 (begin node)).probed))
run-counts_example =
    run-counts cursor_buf slow_once slow_once-IsPolite node count_table (λ ls. 7) 6 get_row
      slow_once-AreKnown still_probing

run-failures_example :
    replay_failures count_table
      (run cursor_buf slow_once 6 (begin node)).calls
      (λ ls. 7)
      (text "cluster" ∷ text "10.0.0.1:11213" ∷ [])
    ≡ 7
      + (failed_connects slow_once (run cursor_buf slow_once 6 (begin node)).connected
          + failed_probes slow_once slow_once-IsTame
              (run cursor_buf slow_once 6 (begin node)).probed)
run-failures_example =
    run-failures cursor_buf slow_once slow_once-IsTame node count_table (λ ls. 7) 6 still_probing

-- The state behind the probe that is answered.
abbrev round_made : Task
round_made = record back_again {
  phase = probing (after_request (after_request client set_command) get_command);
  polled = 3;
  probed = 2;
  calls =
      back_again.calls ++ both_counted node slow_once 1 (text "KeyNotFound") (text "KeyNotFound");
  slept = 1500;
}

made_round : run cursor_buf slow_once 4 (begin node) ≡ round_made
made_round =
    run-step cursor_buf slow_once 3 (begin node)
    ∙ ap (step cursor_buf slow_once) came_back
    ∙ run-recovers cursor_buf slow_once node 3 back_again client (answer_of 1) (answer_of 1)
        (text "KeyNotFound") (text "KeyNotFound") slow_once-IsPolite came_back refl refl
        answered_not_found answered_not_found (unfold status_code in refl)
        (unfold status_code in refl)

run-conversation_example :
    (rounds : ℕ) × (rounds ≤ 2)
    × ((after_request (after_request client set_command) get_command).connection.sent
        ≡ conversation rounds)
run-conversation_example =
    run-conversation cursor_buf slow_once node 4 round_made
      (after_request (after_request client set_command) get_command) made_round refl
