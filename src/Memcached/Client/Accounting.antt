-- ===== src/Memcached/Client/Accounting.antt =====
-- What each request and each probe of src/memcached/mod.rs records in the metrics.
use probes.Prelude.{
  ℕ, ◌≡◌, refl, List, [], ◌∷◌, ◌++◌, none, some, Option-cases, Result, ok, err, Outcome, returns,
  panics, returns-injective, >>=-eq-returns, subst, sym, inl, inr, In, Bool-cases, ◌==◌, arith,
}
use probes.Prelude.Text.{Text, text}
use probes.Metrics.{MetricCall, inc_number_of_requests, observe_response_time}
use probes.Memcached.Cursor.{Buf}
use probes.Memcached.Response.{Response}
use probes.Memcached.Command.{Command}
use probes.Memcached.Connection.{
  Connection, MemcachedClientError, timeout, Poll, ready, pending, send_request, Reading,
  read_response,
}
use probes.Memcached.Connection.Parsing.{read_response-total}
use probes.Memcached.Client.Service.{set_command, get_command}
use probes.Memcached.Client.{
  Client, Exchange, ProbeScript, Ran, status_code, status_table, lookup_status, count_response,
  after_read, after_send, handle_request, handler_with_timeout, set_call, get_call, after_set,
  probe, timeout_nanos,
}

-- A name that the table gives stands in the table.
lookup_status-In :
    (code : ℕ) (status : Text) (table : List (ℕ × Text))
    → lookup_status code table ≡ some status
    → (k : ℕ) × In (k, status) table
unfolding lookup_status
lookup_status-In code status [] h = absurd (cc)
lookup_status-In code status ((k, name) ∷ table) h = elim (Bool-cases (k == code)) [
  | inl hit ↦ (k, inl (ground arith))
  | inr miss ↦ let (k', h') = lookup_status-In code status table (rw miss at h) in (k', inr h')
]

pub status_code-In :
    (code : ℕ) (status : Text)
    → status_code code ≡ some status
    → (k : ℕ) × In (k, status) status_table
unfolding status_code
status_code-In code status = lookup_status-In code status status_table

-- The client goes on talking for the same node.
pub record SameNode (c c' : Client) : Type 0 where
  pub same_cluster : c'.cluster_name ≡ c.cluster_name
  pub same_addr : c'.addr ≡ c.addr

-- What a request hears of the connection before the deadline: the error of a request that is not sent, what
-- read_response gives for one that is, or nothing.
pub data Heard (src : Buf) (c : Client) (cmd : Command) (ex : Exchange)
    (p : Poll (Result Response MemcachedClientError)) : Type 0 where
  unsent :
      (conn : Connection) (e : MemcachedClientError)
      → send_request c.connection cmd ex.writes ≡ (conn, ready (err e))
      → p ≡ ready (err e)
      → Heard src c cmd ex p
  stuck :
      (conn : Connection)
      → send_request c.connection cmd ex.writes ≡ (conn, pending)
      → p ≡ pending
      → Heard src c cmd ex p
  read :
      (conn : Connection) (reading : Reading)
      → send_request c.connection cmd ex.writes ≡ (conn, ready (ok tt))
      → read_response src conn (c.unread ++ ex.reads) ≡ returns reading
      → reading.result ≡ p
      → Heard src c cmd ex p

-- One request and what it records: the response that was read counts once under the name of its own status
-- and is timed; where nothing is heard before the deadline, the whole timeout is timed and nothing counted;
-- an error of the connection is passed on and records nothing.
pub data Accounts (src : Buf) (c : Client) (cmd_type : Text) (cmd : Command) (ex : Exchange)
    (calls : List MetricCall) (result : Result (Unit {0}) MemcachedClientError) : Type 0 where
  answered :
      (response : Response) (status : Text)
      → Heard src c cmd ex (ready (ok response))
      → status_code response.header.status ≡ some status
      → result ≡ ok tt
      → calls
        ≡ inc_number_of_requests c.cluster_name c.addr status cmd_type
          ∷ observe_response_time c.cluster_name c.addr cmd_type ex.elapsed
          ∷ []
      → Accounts src c cmd_type cmd ex calls result
  timed_out :
      Heard src c cmd ex pending
      → result ≡ err timeout
      → calls ≡ observe_response_time c.cluster_name c.addr cmd_type timeout_nanos ∷ []
      → Accounts src c cmd_type cmd ex calls result
  failed :
      (e : MemcachedClientError)
      → Heard src c cmd ex (ready (err e))
      → result ≡ err e
      → calls ≡ []
      → Accounts src c cmd_type cmd ex calls result

-- What `handle_request` may come to.
data Handled (src : Buf) (c : Client) (cmd_type : Text) (cmd : Command) (ex : Exchange)
    (out : Outcome (Ran (Poll (Result (Unit {0}) MemcachedClientError)))) : Type 0 where
  counted :
      (c' : Client) (response : Response) (status : Text)
      → SameNode c c'
      → Heard src c cmd ex (ready (ok response))
      → status_code response.header.status ≡ some status
      → out
        ≡ returns (record {
          client = c';
          calls =
              inc_number_of_requests c.cluster_name c.addr status cmd_type
              ∷ observe_response_time c.cluster_name c.addr cmd_type ex.elapsed
              ∷ [];
          result = ready (ok tt);
        })
      → Handled src c cmd_type cmd ex out
  unknown :
      (response : Response)
      → status_code response.header.status ≡ none
      → out ≡ panics
      → Handled src c cmd_type cmd ex out
  broken :
      (c' : Client) (e : MemcachedClientError)
      → SameNode c c'
      → Heard src c cmd ex (ready (err e))
      → out ≡ returns (record { client = c'; calls = []; result = ready (err e) })
      → Handled src c cmd_type cmd ex out
  waiting :
      (c' : Client)
      → SameNode c c'
      → Heard src c cmd ex pending
      → out ≡ returns (record { client = c'; calls = []; result = pending })
      → Handled src c cmd_type cmd ex out

module _ (src : Buf) (c : Client) (t : Text) (cmd : Command) (ex : Exchange) where
  after_read-Handled :
      (c' : Client) (p : Poll (Result Response MemcachedClientError))
      → SameNode c c'
      → Heard src c cmd ex p
      → Handled src c t cmd ex (after_read c' t ex.elapsed p)
  after_read-Handled c' (ready (ok r)) s h = elim (Option-cases (status_code r.header.status)) [
    | inl e ↦ unknown r e (unfold after_read count_response in rw e)
    | inr (status, e) ↦
        counted c' r status s h e
          (unfold after_read count_response in rw (e, s.same_cluster, s.same_addr))
  ]
  after_read-Handled c' (ready (err e)) s h = broken c' e s h (unfold after_read in refl)
  after_read-Handled c' pending s h = waiting c' s h (unfold after_read in refl)

  after_send-Handled :
      (sent : Connection × Poll (Result (Unit {0}) MemcachedClientError))
      → send_request c.connection cmd ex.writes ≡ sent
      → Handled src c t cmd ex (after_send src c t ex sent)
  after_send-Handled (conn, ready (ok _)) sent =
      let (r, e) = read_response-total src conn (c.unread ++ ex.reads) in
      unfold after_send in
      rw e (
        after_read-Handled (record c { connection = r.connection; unread = r.left }) r.result
          (record { same_cluster = refl; same_addr = refl }) (read conn r sent e refl))
  after_send-Handled (conn, ready (err e)) sent =
      broken (record c { connection = conn }) e (record { same_cluster = refl; same_addr = refl })
        (unsent conn e sent refl) (unfold after_send in refl)
  after_send-Handled (conn, pending) sent =
      waiting (record c { connection = conn }) (record { same_cluster = refl; same_addr = refl })
        (stuck conn sent refl) (unfold after_send in refl)

  handle_request-Handled : Handled src c t cmd ex (handle_request src c t cmd ex)
  handle_request-Handled = unfold handle_request in after_send-Handled _ refl

  -- A client that has run, and what it recorded for one request.
  abbrev pub Accounted : Ran (Result (Unit {0}) MemcachedClientError) → Type 0
  Accounted r = SameNode c r.client × Accounts src c t cmd ex r.calls r.result

  deadline-Accounted :
      {r : Ran (Result (Unit {0}) MemcachedClientError)}
      → Handled src c t cmd ex (handle_request src c t cmd ex)
      → handler_with_timeout src c t cmd ex ≡ returns r
      → Accounted r
  unfolding handler_with_timeout
  deadline-Accounted (counted c' response status s heard k e) h =
      subst Accounted (returns-injective (rw e at h))
        (s, answered response status heard k refl refl)
  deadline-Accounted (unknown response k e) h = absurd (cc (rw e at h))
  deadline-Accounted (broken c' e' s heard e) h =
      subst Accounted (returns-injective (rw e at h)) (s, failed e' heard refl refl)
  deadline-Accounted (waiting c' s heard e) h =
      subst Accounted (returns-injective (rw e at h))
        (s, timed_out heard refl (rw (s.same_cluster, s.same_addr)))

  -- Every request that returns accounts for itself under the labels of its own node: the response that was
  -- read is counted once under the name of its own status and timed; where nothing was heard before the
  -- deadline, the timeout is timed and nothing counted; and an error of the connection is passed on and
  -- records nothing.
  pub handler_with_timeout-Accounts :
      {r : Ran (Result (Unit {0}) MemcachedClientError)}
      → handler_with_timeout src c t cmd ex ≡ returns r
      → Accounted r
  handler_with_timeout-Accounts h = deadline-Accounted handle_request-Handled h

-- What a whole probe records: the failed set alone, or the answered set and then the get.
pub data ProbeAccounts (src : Buf) (c : Client) (script : ProbeScript)
    (r : Ran (Result (Unit {0}) MemcachedClientError)) : Type 0 where
  set_failed :
      (e : MemcachedClientError)
      → r.result ≡ err e
      → Accounted src c (text "set") set_command script.set_exchange r
      → ProbeAccounts src c script r
  both :
      (r₁ r₂ : Ran (Result (Unit {0}) MemcachedClientError))
      → r₁.result ≡ ok tt
      → Accounted src c (text "set") set_command script.set_exchange r₁
      → Accounted src r₁.client (text "get") get_command script.get_exchange r₂
      → r ≡ record { client = r₂.client; calls = r₁.calls ++ r₂.calls; result = r₂.result }
      → ProbeAccounts src c script r

after_set-Accounts :
    (src : Buf) (c : Client) (script : ProbeScript)
    (r₁ : Ran (Result (Unit {0}) MemcachedClientError)) (o : Result (Unit {0}) MemcachedClientError)
    {r : Ran (Result (Unit {0}) MemcachedClientError)}
    → r₁.result ≡ o
    → Accounted src c (text "set") set_command script.set_exchange r₁
    → after_set src script.get_exchange r₁ o ≡ returns r
    → ProbeAccounts src c script r
unfolding after_set
after_set-Accounts src c script r₁ (ok tt) same a h =
    let (r₂, got, e) = >>=-eq-returns (get_call src r₁.client script.get_exchange) _ h in
    both r₁ r₂ same a
      (unfold get_call in
        handler_with_timeout-Accounts src r₁.client (text "get") get_command script.get_exchange
          got)
      (sym (returns-injective e))
after_set-Accounts src c script r₁ (err e) same a h =
    subst (ProbeAccounts src c script) (returns-injective h) (set_failed e same a)

-- Every probe that returns accounts for the set alone if the set failed, and otherwise for the set and then
-- the get, which is made only after a set that was answered. To account for a request is: if a response was
-- read, to succeed, to count it once under the name of its own status, and to time it; if nothing was heard
-- of the connection before the deadline, to fail with a timeout, to time the whole timeout and to count
-- nothing; if the connection gave an error, to fail with this error and to record nothing; and each under
-- the labels of the client's own node.
pub probe-Accounts :
    (src : Buf) (c : Client) (script : ProbeScript)
    {r : Ran (Result (Unit {0}) MemcachedClientError)}
    → probe src c script ≡ returns r
    → ProbeAccounts src c script r
unfolding probe
probe-Accounts src c script h =
    let (r₁, did, e) = >>=-eq-returns (set_call src c script.set_exchange) _ h in
    after_set-Accounts src c script r₁ r₁.result refl
      (unfold set_call in
        handler_with_timeout-Accounts src c (text "set") set_command script.set_exchange did)
      e
