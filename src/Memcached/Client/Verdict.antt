-- ===== src/Memcached/Client/Verdict.antt =====
-- What a request of src/memcached/mod.rs comes to, by the answer of the server.
use probes.Prelude.{
  ◌≡◌, ◌≢◌, refl, ◌∙◌, List, [], ◌∷◌, ◌++◌, map, Option, none, some, Option-cases, Result, ok, err,
  Outcome-cases, returns, inl, inr,
}
use probes.Prelude.Text.{Text, text}
use probes.Metrics.Requests.{Row, requests_in, requests_in-append}
use probes.Memcached.Cursor.{Buf}
use probes.Memcached.Command.{Command}
use probes.Memcached.Connection.{MemcachedClientError, timeout}
use probes.Memcached.Client.{
  Client, Exchange, ProbeScript, Ran, status_code, handle_request, handler_with_timeout,
  after_deadline, set_call, get_call, probe, after_set,
}
use probes.Memcached.Client.Accounting.{
  SameNode, Accounts, answered, timed_out, failed, handler_with_timeout-Accounts,
}
use probes.Memcached.Client.Service.{IsIdle, request_answered, set_command, get_command}
use probes.Memcached.Client.Failing.{Gives, Failed, accepts, after_deadline-err}
use probes.Memcached.Client.Polite.{
  Polite, whole, unsent, cut, unsent-Failed, cut-Failed, PoliteProbe,
}

-- The status that a whole answer names.
abbrev pub named : {ex : Exchange} → Polite ex → Option Text
named (whole w a) = status_code w.status
named _ = none

-- A whole answer has a status of the table.
abbrev pub IsKnown : {ex : Exchange} → Polite ex → Type 0
IsKnown (whole w a) = status_code w.status ≢ none
IsKnown _ = Unit {0}

-- What a request comes to for this answer: an answer is counted, in one row, and leaves nothing unread; anything
-- else is an error and is not counted.
abbrev pub Told :
    Client → Text → Option Text → Ran (Result (Unit {0}) MemcachedClientError) → Type 0
Told c t (some status) r =
    (r.result ≡ ok tt)
    × IsIdle r.client
    × (requests_in r.calls
        ≡ record { cluster_name = c.cluster_name; socket = c.addr; status = status; cmd_type = t }
          ∷ [])
Told c t none r = ((e : MemcachedClientError) × (r.result ≡ err e)) × (requests_in r.calls ≡ [])

module _ (src : Buf) (c : Client) (t : Text) (cmd : Command) (ex : Exchange) where
  abbrev Comes : Option Text → Type 0
  Comes answer =
      (r : Ran (Result (Unit {0}) MemcachedClientError)) × (handler_with_timeout src c t cmd ex
        ≡ returns r)
      × SameNode c r.client
      × Told c t answer r

  Accounts-none :
      (r : Ran (Result (Unit {0}) MemcachedClientError))
      → r.result ≢ ok tt
      → Accounts src c t cmd ex r.calls r.result
      → Told c t none r
  unfolding requests_in
  Accounts-none r bad (answered response status heard k good e) = absurd (bad good)
  Accounts-none r bad (timed_out heard e q) = ((timeout, e), rw q refl)
  Accounts-none r bad (failed x heard e q) = ((x, e), rw q refl)

  Failed-Comes : Gives Failed (handle_request src c t cmd ex) → Comes none
  Failed-Comes h = elim (Outcome-cases (handle_request src c t cmd ex)) [
    | inl p ↦ absurd (rw p at h)
    | inr (r, e) ↦
        let ran : handler_with_timeout src c t cmd ex ≡ returns (after_deadline t r r.result) =
          unfold handler_with_timeout in rw e refl in
        let (same, accounts) = handler_with_timeout-Accounts src c t cmd ex ran in
        (
          after_deadline t r r.result,
          ran,
          same,
          Accounts-none (after_deadline t r r.result)
              (after_deadline-err t r r.result tt (rw e at h)) accounts,
        )
  ]

  pub handler_with_timeout-Told : IsIdle c → (p : Polite ex) → IsKnown p → Comes (named p)
  unfolding accepts
  handler_with_timeout-Told idle (whole w a) known = elim (Option-cases (status_code w.status)) [
    | inl e ↦ absurd (known e)
    | inr (status, e) ↦ rw e (
      _,
      request_answered src c t cmd ex w status idle a e,
      record { same_cluster = refl; same_addr = refl },
      (refl, record { no_bytes = refl; none_unread = refl }, unfold requests_in in refl),
    )
  ]
  handler_with_timeout-Told idle (unsent h) known = Failed-Comes (unsent-Failed src c t cmd ex h)
  handler_with_timeout-Told idle (cut w body missing chunks rest sent f full part e breaks) known =
      Failed-Comes
        (cut-Failed src c t cmd ex w body missing chunks rest idle sent f full part e breaks)

-- What the two answers of a probe name, each with the type of its request; the get counts only behind a set
-- that was answered.
abbrev pub named_both : Option Text → Option Text → List (Text × Text)
named_both none on_get = []
named_both (some status) none = (status, text "set") ∷ []
named_both (some status) (some on_get) = (status, text "set") ∷ (on_get, text "get") ∷ []

abbrev pub answers : {script : ProbeScript} → PoliteProbe script → List (Text × Text)
answers p = named_both (named p.to_set) (named p.to_get)

-- The rows of one node in which these answers count.
unfoldable pub rows_of : Text → Text → List (Text × Text) → List Row
rows_of cluster_name socket =
    map λ a. record { cluster_name = cluster_name; socket = socket; status = a.0; cmd_type = a.1 }

-- Both whole answers have statuses of the table.
pub record AreKnown {script : ProbeScript} (p : PoliteProbe script) : Type 0 where
  pub of_set : IsKnown p.to_set
  pub of_get : IsKnown p.to_get

-- The result of a probe for these two answers.
abbrev pub Succeeds : Option Text → Option Text → Result (Unit {0}) MemcachedClientError → Type 0
Succeeds none on_get o = (e : MemcachedClientError) × (o ≡ err e)
Succeeds (some status) none o = (e : MemcachedClientError) × (o ≡ err e)
Succeeds (some status) (some on_get) o = o ≡ ok tt

-- What a probe comes to for these two answers.
pub record ProbeTold (c : Client) (on_set on_get : Option Text)
    (r : Ran (Result (Unit {0}) MemcachedClientError)) : Type 0 where
  pub same : SameNode c r.client
  pub idle : r.result ≡ ok tt → IsIdle r.client
  pub verdict : Succeeds on_set on_get r.result
  pub requests : requests_in r.calls ≡ rows_of c.cluster_name c.addr (named_both on_set on_get)

same_node : {c c' c'' : Client} → SameNode c c' → SameNode c' c'' → SameNode c c''
same_node s s' = record {
  same_cluster = s'.same_cluster ∙ s.same_cluster;
  same_addr = s'.same_addr ∙ s.same_addr;
}

both-Told :
    (c : Client) (r₁ r₂ : Ran (Result (Unit {0}) MemcachedClientError)) (status : Text)
    (on_get : Option Text)
    → SameNode c r₁.client
    → SameNode r₁.client r₂.client
    → Told c (text "set") (some status) r₁
    → Told r₁.client (text "get") on_get r₂
    → ProbeTold c
        (some status)
        on_get
        (record { client = r₂.client; calls = r₁.calls ++ r₂.calls; result = r₂.result })
unfolding rows_of
both-Told c r₁ r₂ status none s₁ s₂ (good, idle, q₁) ((e, bad), q₂) = record {
  same = same_node s₁ s₂;
  idle = λ good. absurd (cc);
  verdict = (e, bad);
  requests = requests_in-append r₁.calls r₂.calls ∙ rw (q₁, q₂) refl;
}
both-Told c r₁ r₂ status (some on_get) s₁ s₂ (good, idle, q₁) (good', idle', q₂) = record {
  same = same_node s₁ s₂;
  idle = λ good. idle';
  verdict = good';
  requests =
      requests_in-append r₁.calls r₂.calls ∙ rw (q₁, q₂) (rw (s₁.same_cluster, s₁.same_addr) refl);
}

module _ (src : Buf) (c : Client) (script : ProbeScript) where
  abbrev ProbeComes : Option Text → Option Text → Type 0
  ProbeComes on_set on_get =
      (r : Ran (Result (Unit {0}) MemcachedClientError)) × (probe src c script ≡ returns r)
      × ProbeTold c on_set on_get r

  behind_set :
      (r : Ran (Result (Unit {0}) MemcachedClientError)) (on_set : Option Text)
      (p : Polite script.get_exchange)
      → IsKnown p
      → set_call src c script.set_exchange ≡ returns r
      → SameNode c r.client
      → Told c (text "set") on_set r
      → ProbeComes on_set (named p)
  unfolding probe after_set rows_of get_call
  behind_set r none p known ran same ((e, bad), q) = (
    r,
    rw ran (rw bad refl),
    record { same = same; idle = λ good. absurd (cc); verdict = (e, bad); requests = q },
  )
  behind_set r (some status) p known ran same (good, idle, q) =
      let (r', ran', same', told) =
        handler_with_timeout-Told src r.client (text "get") get_command script.get_exchange idle p
          known in
      (
        record { client = r'.client; calls = r.calls ++ r'.calls; result = r'.result },
        rw ran (rw good (rw ran' refl)),
        both-Told c r r' status (named p) same same' (good, idle, q) told,
      )

  -- A probe of an idle client comes to what its two answers name.
  pub probe-Told :
      IsIdle c
      → (p : PoliteProbe script) → AreKnown p
      → ProbeComes (named p.to_set) (named p.to_get)
  unfolding set_call
  probe-Told idle p known =
      let (r, ran, same, told) =
        handler_with_timeout-Told src c (text "set") set_command script.set_exchange idle p.to_set
          known.of_set in
      behind_set r (named p.to_set) p.to_get known.of_get ran same told
