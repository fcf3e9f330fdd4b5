-- ===== src/Memcached/Client/Failing.antt =====
-- Requests of src/memcached/mod.rs that fail.
use probes.Prelude.{
  ℕ, ◌≡◌, ◌≢◌, refl, ap, List, [], ◌∷◌, ◌++◌, append-nil, concat, All, Result, ok, err, Outcome,
  returns, panics, ◌∙◌,
}
use probes.Prelude.Bytes.{Bytes}
use probes.Prelude.Text.{Text}
use probes.Memcached.Cursor.{Buf}
use probes.Memcached.Header.Layout.{Wire}
use probes.Memcached.Response.{Response}
use probes.Memcached.Command.{Command}
use probes.Memcached.Connection.{
  Connection, IoError, MemcachedClientError, Poll, ready, pending, ReadEvent, received, failed,
  WriteEvent, WriteScript, written, refused, stalled, Reading, send_request, read_response,
}
use probes.Memcached.Connection.Framing.{IsFrame, chunks_of}
use probes.Memcached.Connection.Ending.{IsCut, read_response-cut}
use probes.Memcached.Client.{Client, Exchange, Ran, after_deadline, after_send, after_read}

-- The stream falls silent, ends, or fails.
pub data Breaks : List ReadEvent → Type 0 where
  silence : Breaks []
  closed : (es : List ReadEvent) → Breaks (received [] ∷ es)
  broken : (e : IoError) (es : List ReadEvent) → Breaks (failed e ∷ es)

-- Awaiting gives an error, or nothing.
abbrev pub Fails {ℓ} : {A : Type ℓ} → Poll (Result A MemcachedClientError) → Type 0
Fails (ready (ok a)) = ⊥
Fails (ready (err e)) = Unit
Fails pending = Unit

-- What holds of the value that is returned, where one is.
abbrev pub Returned {ℓ} : {A : Type ℓ} → (A → Type 0) → Outcome A → Type 0
Returned P (returns a) = P a
Returned P panics = Unit

-- A value is returned, and this holds of it.
abbrev pub Gives {ℓ} : {A : Type ℓ} → (A → Type 0) → Outcome A → Type 0
Gives P (returns a) = P a
Gives P panics = ⊥

pub Returned-eq {ℓ} :
    {A : Type ℓ} (P : A → Type 0) (o : Outcome A) {a : A} → o ≡ returns a → Returned P o → P a
Returned-eq P o e h = rw e at h

unfoldable pub accepts : WriteScript
accepts = record { write_all = written; flush = written }

pub send_request-Fails :
    (ws : WriteScript) (c : Connection) (cmd : Command)
    → ws ≢ accepts
    → Fails (send_request c cmd ws).1
unfolding send_request accepts
send_request-Fails ws c cmd h = by_answers ws.write_all ws.flush h
  where
    by_answers :
        (a f : WriteEvent)
        → ◌≢◌ {A = WriteScript}
            (record { write_all = a; flush = f })
            (record { write_all = written; flush = written })
        → Fails (send_request c cmd (record { write_all = a; flush = f })).1
    by_answers written written h = absurd (h refl)
    by_answers written (refused e) h = tt
    by_answers written stalled h = tt
    by_answers (refused e) f h = tt
    by_answers stalled f h = tt

abbrev pub Failed : Ran (Poll (Result (Unit {0}) MemcachedClientError)) → Type 0
Failed r = Fails r.result

pub after_send-Failed :
    (src : Buf) (c : Client) (t : Text) (ex : Exchange)
    (p : Connection × Poll (Result (Unit {0}) MemcachedClientError))
    → Fails p.1
    → Gives Failed (after_send src c t ex p)
unfolding after_send
after_send-Failed src c t ex (conn, ready (ok u)) f = absurd f
after_send-Failed src c t ex (conn, ready (err x)) f = tt
after_send-Failed src c t ex (conn, pending) f = tt

pub read-cut :
    (src : Buf) (w : Wire) (body missing : Bytes) (c : Connection) (chunks : List Bytes)
    (rest : List ReadEvent)
    → IsFrame w body
    → All (λ xs. xs ≢ []) chunks
    → IsCut w body (c.buffer ++ concat chunks) missing
    → Breaks rest
    → (r : Reading) × (read_response src c (chunks_of chunks ++ rest) ≡ returns r) × Fails r.result
read-cut src w body missing c chunks _ f full part silence =
    let (_, _, e) = read_response-cut src w body missing c chunks [] 0 f full part in
    (_, ap (read_response src c) (append-nil (chunks_of chunks)) ∙ e, tt)
read-cut src w body missing c chunks _ f full part (closed es) =
    let (e, _, _) = read_response-cut src w body missing c chunks es 0 f full part in (_, e, tt)
read-cut src w body missing c chunks _ f full part (broken x es) =
    let (_, e, _) = read_response-cut src w body missing c chunks es x f full part in (_, e, tt)

pub after_read-Failed :
    (c : Client) (t : Text) (elapsed : ℕ) (p : Poll (Result Response MemcachedClientError))
    → Fails p
    → Gives Failed (after_read c t elapsed p)
unfolding after_read
after_read-Failed c t elapsed (ready (ok x)) f = absurd f
after_read-Failed c t elapsed (ready (err x)) f = tt
after_read-Failed c t elapsed pending f = tt

pub after_deadline-err :
    (t : Text) (r : Ran (Poll (Result (Unit {0}) MemcachedClientError)))
    (p : Poll (Result (Unit {0}) MemcachedClientError)) (u : Unit {0})
    → Fails p
    → (after_deadline t r p).result ≢ ok u
unfolding after_deadline
after_deadline-err t r (ready (ok x)) u f e = absurd f
after_deadline-err t r (ready (err x)) u f e = cc
after_deadline-err t r pending u f e = cc
