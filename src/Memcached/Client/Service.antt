-- ===== src/Memcached/Client/Service.antt =====
-- A node that answers: whole requests and probes of src/memcached/mod.rs against a server.
use probes.Prelude.{
  ◌≡◌, ◌≢◌, refl, sym, List, [], ◌∷◌, ◌++◌, append-nil, concat, All, none, some, ok, returns,
  panics, ◌∙◌,
}
use probes.Prelude.Bytes.{Bytes}
use probes.Prelude.Text.{Text, text}
use probes.Metrics.{inc_number_of_requests, observe_response_time}
use probes.Memcached.Cursor.{Buf}
use probes.Memcached.Header.Layout.{Wire, header_of}
use probes.Memcached.Command
use probes.Memcached.Command.{Command, set, get}
use probes.Memcached.Command.Set
use probes.Memcached.Command.Get
use probes.Memcached.Connection.{Connection, ready, written, send_request, read_response}
use probes.Memcached.Connection.Framing.{
  frame, IsFrame, response_of, chunks_of, read_response-frame,
}
use probes.Memcached.Client.{
  Client, Exchange, ProbeScript, status_code, handle_request, handler_with_timeout, set_call,
  get_call, probe, key, value, ttl,
}

-- The stream takes the request and answers with one response, cut anyhow.
pub record Answers (ex : Exchange) (w : Wire) : Type 0 where
  pub body : Bytes
  pub chunks : List Bytes
  pub whole : IsFrame w body
  pub full : All (λ xs. xs ≢ []) chunks
  pub arrives : concat chunks ≡ frame w body
  pub accepted : ex.writes ≡ record { write_all = written; flush = written }
  pub reads : ex.reads ≡ chunks_of chunks

-- Nothing received is left over.
pub record IsIdle (c : Client) : Type 0 where
  pub no_bytes : c.connection.buffer ≡ []
  pub none_unread : c.unread ≡ []

-- The client after a request, with no byte left over.
abbrev pub after_request : Client → Command → Client
after_request c cmd = record c {
  connection = record { sent = c.connection.sent ++ Command.as_bytes cmd; buffer = [] };
  unread = [];
}

both_nil :
    (xs : Bytes) (chunks : List Bytes)
    → All (λ ys. ys ≢ []) chunks
    → xs ++ concat chunks ≡ []
    → (xs ≡ []) × (chunks ≡ [])
both_nil [] [] full e = (refl, refl)
both_nil [] ([] ∷ chunks) full e = absurd (full.0 refl)
both_nil [] ((y ∷ ys) ∷ chunks) full e = absurd (cc)
both_nil (x ∷ xs) chunks full e = absurd (cc)

read-answer :
    (src : Buf) (c : Client) (cmd : Command) (ex : Exchange) (w : Wire)
    → IsIdle c
    → (a : Answers ex w)
    → read_response src
        (record c.connection { sent = c.connection.sent ++ Command.as_bytes cmd })
        (c.unread ++ ex.reads)
      ≡ returns (record {
        result = ready (ok (response_of w));
        connection = (after_request c cmd).connection;
        left = [];
      })
read-answer src c cmd ex w idle a =
    let sent_all : Connection = record {
      sent = c.connection.sent ++ Command.as_bytes cmd;
      buffer = [];
    } in
    let (k, left, result, same, full) =
      read_response-frame src w a.body [] sent_all a.chunks a.whole a.full
        (a.arrives ∙ sym (append-nil (frame w a.body))) in
    let (no_bytes, no_chunks) = both_nil k left full same in
    rw (idle.none_unread, idle.no_bytes, a.reads) (rw (no_bytes, no_chunks) at result)

-- A request to a node that answers, by the status of the answer.
module _ (src : Buf) (c : Client) (t : Text) (cmd : Command) (ex : Exchange) (w : Wire) where
  -- With nothing unread before it, a request that is answered with a status of the table succeeds, has
  -- sent just the command, is counted once under the name of the status and timed once, and leaves
  -- nothing unread, however the answer is cut.
  pub request_answered :
      (status : Text)
      → IsIdle c
      → Answers ex w
      → status_code w.status ≡ some status
      → handler_with_timeout src c t cmd ex
        ≡ returns (record {
          client = after_request c cmd;
          calls =
              inc_number_of_requests c.cluster_name c.addr status t
              ∷ observe_response_time c.cluster_name c.addr t ex.elapsed
              ∷ [];
          result = ok tt;
        })
  unfolding handler_with_timeout handle_request send_request header_of
  request_answered status idle a known = rw (a.accepted, read-answer src c cmd ex w idle a, known)

  -- With nothing unread before it, a request that is answered with a status that is not one of the nine
  -- in the table makes the task panic.
  pub request_unknown_status :
      IsIdle c
      → Answers ex w
      → status_code w.status ≡ none
      → handler_with_timeout src c t cmd ex ≡ panics
  unfolding handler_with_timeout handle_request send_request header_of
  request_unknown_status idle a unknown =
      rw (a.accepted, read-answer src c cmd ex w idle a, unknown)

abbrev pub set_command : Command
set_command = set (Set.new key value ttl)

abbrev pub get_command : Command
get_command = get (Get.new key)

-- A whole probe, with nothing unread before it, of a node that answers both requests with a known
-- status, however the answers are cut: it succeeds, has sent just the set and the get, has recorded
-- one request and one time for each, and leaves the client with nothing unread.
pub probe_answered :
    (src : Buf) (c : Client) (script : ProbeScript) (w₁ w₂ : Wire) (status₁ status₂ : Text)
    → IsIdle c
    → Answers script.set_exchange w₁
    → Answers script.get_exchange w₂
    → status_code w₁.status ≡ some status₁
    → status_code w₂.status ≡ some status₂
    → probe src c script
      ≡ returns (record {
        client = after_request (after_request c set_command) get_command;
        calls =
            inc_number_of_requests c.cluster_name c.addr status₁ (text "set")
            ∷ observe_response_time c.cluster_name c.addr (text "set") script.set_exchange.elapsed
            ∷ inc_number_of_requests c.cluster_name c.addr status₂ (text "get")
            ∷ observe_response_time c.cluster_name c.addr (text "get") script.get_exchange.elapsed
            ∷ [];
        result = ok tt;
      })
unfolding probe set_call get_call
probe_answered src c script w₁ w₂ status₁ status₂ idle a₁ a₂ known₁ known₂ = rw (
  request_answered src c (text "set") set_command script.set_exchange w₁ status₁ idle a₁ known₁,
  request_answered src (after_request c set_command) (text "get") get_command script.get_exchange w₂
      status₂ (record { no_bytes = refl; none_unread = refl }) a₂ known₂,
)
