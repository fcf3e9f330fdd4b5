-- ===== src/Consul/Http/Index.antt =====
-- The watch index of src/consul/mod.rs, through a whole call.
use probes.Prelude.{◌≡◌, refl, ◌⊎◌, inl, Option, none, some, ok, returns, arith}
use probes.Prelude.Int.{ℤ, pos, ◌≤ℤ◌}
use probes.Prelude.Numbers.{parse_i64}
use probes.Prelude.Text.{Text}
use probes.Prelude.Utf8.{from_utf8}
use probes.Consul.Json.{Json}
use probes.Consul.Http.Ensures.{Ensures, Ensures-bind, Ensures-ok}
use probes.Consul.Extract.{get_watch_index}
use probes.Consul.Http.{
  Agent, must, HttpCall, index_of, check_status, check_uri, http_call, or_bad_index, query_uri_of,
  or_transport,
}

-- What may be sent as the next index after `prev`.
pub record IsWatchIndex (prev next : ℤ) : Type 0 where
  pub not_negative : pos 0 ≤ℤ next
  pub reset_or_on : (next ≡ pos 0) ⊎ (prev ≤ℤ next)

-- `get_watch_index` gives an index that may be sent next, for any two indexes.
pub get_watch_index-IsWatchIndex : (prev index : ℤ) → IsWatchIndex prev (get_watch_index prev index)
unfolding get_watch_index
get_watch_index-IsWatchIndex prev index = record {
  not_negative = ground arith;
  reset_or_on = ground arith;
}

index_of-Ensures :
    (prev : ℤ) (header : Option (Option Text)) → Ensures (IsWatchIndex prev) (index_of prev header)
unfolding index_of Ensures
index_of-Ensures prev none = record { not_negative = ground arith; reset_or_on = inl refl }
index_of-Ensures prev (some none) = tt
index_of-Ensures prev (some (some text)) =
    Ensures-bind (IsWatchIndex prev) (or_bad_index text (parse_i64 text)) _
      (λ i _. get_watch_index-IsWatchIndex prev i)

module _ (json : Json) (agent : Agent) where
  abbrev IsNext : ℤ → HttpCall json agent → Type 0
  IsNext prev call = IsWatchIndex prev call.index

  http_call-Ensures :
      (uri : Text) (prev : ℤ) → Ensures (IsNext prev) (http_call json agent uri prev)
  unfolding http_call Ensures
  http_call-Ensures uri prev =
      let q : Text = query_uri_of uri prev in
      Ensures-bind (IsNext prev) (check_uri agent q) _ (λ _ _.
        Ensures-bind (IsNext prev) (or_transport (agent.get q)) _ (λ resp _.
          Ensures-bind (IsNext prev) (check_status q resp) _ (λ _ _.
            Ensures-bind (IsNext prev) (index_of prev resp.x_consul_index) _ (λ i got.
              Ensures-bind (IsNext prev) (or_transport resp.body) _ (λ bytes _.
                Ensures-bind (IsNext prev) (must (from_utf8 bytes)) _ (λ body _.
                  Ensures-ok (IsWatchIndex prev) _ got
                    (index_of-Ensures prev resp.x_consul_index)))))))

  -- Every call that succeeds, whatever the agent answers, gives an index that may be sent next: it is
  -- not negative, and it is 0 or no lower than the index of the call.
  pub http_call-IsWatchIndex :
      (uri : Text) (prev : ℤ) (call : HttpCall json agent)
      → http_call json agent uri prev ≡ returns (ok call)
      → IsWatchIndex prev call.index
  http_call-IsWatchIndex uri prev call h = Ensures-ok (IsNext prev) _ h (http_call-Ensures uri prev)
