-- ===== src/Consul/Http/Panics.antt =====
-- Which answers of the agent make a discovery of src/consul/mod.rs panic.
use probes.Prelude.{
  arith, ◌≡◌, ◌≢◌, refl, Option, none, some, Option-cases, true, Result, ok, err, returns, panics,
  ◌⊎◌, inl, inr, ◌↔◌,
}
use probes.Prelude.Bytes.{Bytes}
use probes.Prelude.Int.{ℤ}
use probes.Prelude.Numbers.{parse_i64}
use probes.Prelude.Text.{Text}
use probes.Prelude.Utf8.{from_utf8}
use probes.Consul.Json.{Json}
use probes.Consul.Extract.{get_watch_index}
use probes.Consul.Http.Ensures.{bind-panics, bind-panics_after}
use probes.Consul.Http.{
  Agent, HyperError, Response, or_transport, must, http_call, query_uri_of, index_of, check_status,
  check_uri,
}

-- The index header, where there is one, reads as a number.
abbrev pub IndexReads : Option (Option Text) → Type 0
IndexReads none = Unit {0}
IndexReads (some none) = ⊥
IndexReads (some (some header)) = parse_i64 header ≢ none

-- A response of success that the code cannot read: its index header is no text, or its index reads and
-- its body comes and is not UTF-8.
pub record Unreadable (resp : Response) : Type 0 where
  pub success : resp.is_success ≡ true
  pub unreadable :
      (resp.x_consul_index ≡ some none)
      ⊎ (IndexReads resp.x_consul_index
          × (bytes : Bytes) × (resp.body ≡ ok bytes)
          × (from_utf8 bytes ≡ none))

index_of-reads :
    (prev : ℤ) (header : Option (Option Text)) (i : ℤ)
    → index_of prev header ≡ returns (ok i)
    → IndexReads header
unfolding index_of
index_of-reads prev none i e = tt
index_of-reads prev (some none) i e = absurd (cc)
index_of-reads prev (some (some header)) i e = λ h. cc (rw h at e)

index_of-panics :
    (prev : ℤ) (header : Option (Option Text)) → index_of prev header ≡ panics → header ≡ some none
unfolding index_of
index_of-panics prev none h = absurd (cc)
index_of-panics prev (some none) h = refl
index_of-panics prev (some (some header)) h = elim (Option-cases (parse_i64 header)) [
  | inl e ↦ absurd (cc (rw e at h))
  | inr (i, e) ↦ absurd (cc (rw e at h))
]

IndexReads-ok :
    (prev : ℤ) (header : Option (Option Text))
    → IndexReads header
    → (i : ℤ) × (index_of prev header ≡ returns (ok i))
unfolding index_of
IndexReads-ok prev none h = (_, refl)
IndexReads-ok prev (some none) h = absurd h
IndexReads-ok prev (some (some header)) h = elim (Option-cases (parse_i64 header)) [
  | inl e ↦ absurd (h e)
  | inr (i, e) ↦ (get_watch_index prev i, rw e refl)
]

pub or_transport-ok {ℓ} :
    {A : Type ℓ} (r : Result A HyperError) {a : A} → or_transport r ≡ returns (ok a) → r ≡ ok a
or_transport-ok (ok b) h = cc
or_transport-ok (err e) h = absurd (cc)

or_transport-panics {ℓ} : {A : Type ℓ} (r : Result A HyperError) → or_transport r ≢ panics
or_transport-panics (ok b) h = cc
or_transport-panics (err e) h = cc

pub must-ok {ℓ} : {A : Type ℓ} (o : Option A) {a : A} → must o ≡ returns (ok a) → o ≡ some a
must-ok none h = absurd (cc)
must-ok (some b) h = cc

must-panics {ℓ} : {A : Type ℓ} (o : Option A) → must o ≡ panics → o ≡ none
must-panics none h = refl
must-panics (some a) h = absurd (cc)

check_uri-ok :
    (agent : Agent) (q : Text) {u : Unit {0}}
    → check_uri agent q ≡ returns (ok u)
    → agent.parses q ≡ true
unfolding check_uri
check_uri-ok agent q h = ground arith

check_uri-panics : (agent : Agent) (q : Text) → check_uri agent q ≢ panics
unfolding check_uri
check_uri-panics agent q h = ground arith

check_status-ok :
    (q : Text) (resp : Response) {u : Unit {0}}
    → check_status q resp ≡ returns (ok u)
    → resp.is_success ≡ true
unfolding check_status
check_status-ok q resp h = ground arith

check_status-panics : (q : Text) (resp : Response) → check_status q resp ≢ panics
unfolding check_status
check_status-panics q resp h = ground arith

module _ (json : Json) (agent : Agent) where
  -- The agent accepts the query and answers it with a response that the code cannot read.
  pub record Spoiled (q : Text) : Type 0 where
    pub response : Response
    pub accepted : agent.parses q ≡ true
    pub answered : agent.get q ≡ ok response
    pub unreadable : Unreadable response

  pub panics-Spoiled :
      (uri_str : Text) (prev : ℤ)
      → http_call json agent uri_str prev ≡ panics
      → Spoiled (query_uri_of uri_str prev)
  unfolding http_call
  panics-Spoiled uri_str prev h =
      let q : Text = query_uri_of uri_str prev in
      let (_, accepted, h₁) =
        bind-panics_after (check_uri agent q) _ (check_uri-panics agent q) h in
      let (resp, got, h₂) =
        bind-panics_after (or_transport (agent.get q)) _ (or_transport-panics (agent.get q)) h₁ in
      let (_, fine, h₃) =
        bind-panics_after (check_status q resp) _ (check_status-panics q resp) h₂ in
      record {
        response = resp;
        accepted = check_uri-ok agent q accepted;
        answered = or_transport-ok (agent.get q) got;
        unreadable = record {
          success = check_status-ok q resp fine;
          unreadable = elim (bind-panics (index_of prev resp.x_consul_index) _ h₃) [
            | inl p ↦ inl (index_of-panics prev resp.x_consul_index p)
            | inr (i, read, h₄) ↦
                let (bytes, came, h₅) =
                  bind-panics_after (or_transport resp.body) _ (or_transport-panics resp.body) h₄ in
                inr (
                  index_of-reads prev resp.x_consul_index i read,
                  bytes,
                  or_transport-ok resp.body came,
                  elim (bind-panics (must (from_utf8 bytes)) _ h₅) [
                    | inl p ↦ must-panics (from_utf8 bytes) p
                    | inr (t, _, h₆) ↦ absurd (cc)
                  ],
                )
          ];
        };
      }

  Spoiled-panics :
      (uri_str : Text) (prev : ℤ)
      → Spoiled (query_uri_of uri_str prev)
      → http_call json agent uri_str prev ≡ panics
  unfolding http_call check_uri check_status
  Spoiled-panics uri_str prev s = elim s.unreadable.unreadable [
    | inl e ↦ rw (s.accepted, s.answered, s.unreadable.success, e, index_of) refl
    | inr (reads, bytes, came, e) ↦
        let (i, got) = IndexReads-ok prev s.response.x_consul_index reads in
        rw (s.accepted, s.answered, s.unreadable.success, got, came, e) refl
  ]

  -- A call panics exactly where the agent accepts the query and answers it with success, and the answer has
  -- an index header that is no text, or a body that is not UTF-8 behind an index that reads; every other
  -- trouble is an error.
  pub http_call-panics :
      (uri_str : Text) (prev : ℤ)
      → (http_call json agent uri_str prev ≡ panics) ↔ Spoiled (query_uri_of uri_str prev)
  http_call-panics uri_str prev = (panics-Spoiled uri_str prev, Spoiled-panics uri_str prev)
