-- ===== src/Probes/Node/Cleanup.antt =====
-- What the task of src/probes/mod.rs records in the metrics, and what its `stop` takes away again.
use probes.Prelude.{
  ℕ, ◌≡◌, refl, ◌∙◌, ◌⊎◌, inl, inr, List, ◌++◌, All, In, In-append_left, In-append_right, In-map,
  All-append, some, Result,
}
use probes.Prelude.Text.{Text, text}
use probes.Metrics.{
  MetricCall, inc_number_of_requests, remove_number_of_requests, observe_response_time,
  remove_response_time, inc_failure_probe, remove_failure_probe,
}
use probes.Memcached.Cursor.{Buf}
use probes.Memcached.Command.{Command}
use probes.Memcached.Connection.{MemcachedClientError}
use probes.Memcached.Client.Service.{set_command, get_command}
use probes.Memcached.Client.{Client, Exchange, ProbeScript, Ran, status_code, status_table}
use probes.Memcached.Client.Accounting.{
  status_code-In, SameNode, Accounts, answered, timed_out, failed, ProbeAccounts, set_failed, both,
}
use probes.Probes.Node.{ProbeNode, stop, stop_type}

-- A call that touches a series which `stop` of this node removes.
pub data Covered (n : ProbeNode) (call : MetricCall) : Type 0 where
  request :
      (status t : Text)
      → call ≡ inc_number_of_requests n.cluster_name n.socket status t
      → In (remove_number_of_requests n.cluster_name n.socket status t) (stop n)
      → Covered n call
  time :
      (t : Text) (nanos : ℕ)
      → call ≡ observe_response_time n.cluster_name n.socket t nanos
      → In (remove_response_time n.cluster_name n.socket t) (stop n)
      → Covered n call
  failure :
      call ≡ inc_failure_probe n.cluster_name n.socket
      → In (remove_failure_probe n.cluster_name n.socket) (stop n)
      → Covered n call

-- The two types of command.
abbrev pub IsType : Text → Type 0
IsType t = (t ≡ text "set") ⊎ (t ≡ text "get")

stop_type-In :
    (n : ProbeNode) (t : Text) (call : MetricCall)
    → IsType t
    → In call (stop_type n t)
    → In call (stop n)
unfolding stop
stop_type-In n t call (inl e) h =
    inr (In-append_left call (stop_type n (text "set")) (stop_type n (text "get")) (rw e at h))
stop_type-In n t call (inr e) h =
    inr (In-append_right call (stop_type n (text "set")) (stop_type n (text "get")) (rw e at h))

pub request-In :
    (n : ProbeNode) (t : Text) (code : ℕ) (status : Text)
    → IsType t
    → status_code code ≡ some status
    → In (remove_number_of_requests n.cluster_name n.socket status t) (stop n)
request-In n t code status h known =
    let (k, row) = status_code-In code status known in
    stop_type-In n t (remove_number_of_requests n.cluster_name n.socket status t) h (
      unfold stop_type in
      inr (
        In-map (λ entry. remove_number_of_requests n.cluster_name n.socket entry.1 t) (k, status)
          status_table row))

time-In :
    (n : ProbeNode) (t : Text)
    → IsType t
    → In (remove_response_time n.cluster_name n.socket t) (stop n)
time-In n t h =
    stop_type-In n t (remove_response_time n.cluster_name n.socket t) h
      (unfold stop_type in inl refl)

-- The client talks to the node that the task probes.
pub record IsFor (n : ProbeNode) (c : Client) : Type 0 where
  pub cluster : c.cluster_name ≡ n.cluster_name
  pub address : c.addr ≡ n.socket

Accounts-Covered :
    (src : Buf) (n : ProbeNode) (c : Client) (t : Text) (cmd : Command) (ex : Exchange)
    (calls : List MetricCall) (o : Result (Unit {0}) MemcachedClientError)
    → IsFor n c
    → IsType t
    → Accounts src c t cmd ex calls o
    → All (Covered n) calls
Accounts-Covered src n c t cmd ex calls o f h (answered r status heard known e e') =
    rw (e', f.cluster, f.address)
      (
        request status t refl (request-In n t r.header.status status h known),
        (time t ex.elapsed refl (time-In n t h), tt),
      )
Accounts-Covered src n c t cmd ex calls o f h (timed_out heard e e') =
    rw (e', f.cluster, f.address) (time t _ refl (time-In n t h), tt)
Accounts-Covered src n c t cmd ex calls o f h (failed x heard e e') = rw e' tt

pub SameNode-IsFor : (n : ProbeNode) (c c' : Client) → IsFor n c → SameNode c c' → IsFor n c'
SameNode-IsFor n c c' f s = record {
  cluster = s.same_cluster ∙ f.cluster;
  address = s.same_addr ∙ f.address;
}

-- What a probe that returns records is covered, and the client is still the node's.
pub probe-Covered :
    (src : Buf) (n : ProbeNode) (c : Client) (script : ProbeScript)
    (r : Ran (Result (Unit {0}) MemcachedClientError))
    → IsFor n c
    → ProbeAccounts src c script r
    → All (Covered n) r.calls × IsFor n r.client
probe-Covered src n c script r f (set_failed e e' (s, a)) = (
  Accounts-Covered src n c (text "set") set_command script.set_exchange r.calls r.result f
      (inl refl) a,
  SameNode-IsFor n c r.client f s,
)
probe-Covered src n c script r f (both r₁ r₂ e (s₁, a₁) (s₂, a₂) same) =
    let f₁ : IsFor n r₁.client = SameNode-IsFor n c r₁.client f s₁ in
    let covered : All (Covered n) (r₁.calls ++ r₂.calls) =
      All-append (Covered n) r₁.calls r₂.calls
        (Accounts-Covered src n c (text "set") set_command script.set_exchange r₁.calls r₁.result f
          (inl refl) a₁)
        (Accounts-Covered src n r₁.client (text "get") get_command script.get_exchange r₂.calls
          r₂.result f₁ (inr refl) a₂) in
    rw same (covered, SameNode-IsFor n r₁.client r₂.client f₁ s₂)
