-- ===== src/Probes/Services/Ledger.antt =====
-- No probe is lost or stopped twice: the account of the stop channels of src/probes/mod.rs.
use mathlib.Core.List.{Perm, perm_middle, perm_append_singleton, map-append}
use mathlib.Core.List.Perm
use probes.Prelude.{
  ℕ, zero, suc, ◌≡◌, refl, ap, List, [], ◌∷◌, ◌++◌, append_assoc, map, none, some, Option-cases,
  false, Bool-cases, inl, inr, arith,
}
use probes.Prelude.Map
use probes.Prelude.Map.{
  Map, contains_key, is_some, Distinct, values, insert_new, insert-Distinct, remove-Distinct,
  values-remove,
}
use probes.Prelude.Text.{Text}
use probes.Consul.Node.{ConsulClient, ServiceNode}
use probes.Probes.Services.{
  Spawned, ProbeServices, new, keys_to_stop, stop_sender, stop_node, stop_all, stop_nodes_probe,
  spawn_node, start_node, start_nodes_probe, sync,
}

abbrev pub receivers : List Spawned → List ℕ
receivers = map (λ t. t.receiver)

-- 0, 1, …, n - 1
abbrev pub upto : ℕ → List ℕ
upto zero = []
upto (suc n) = upto n ++ n ∷ []

-- Every task has a channel of its own, and its sender is either kept, under one key, or has been used,
-- once.
pub record Ledger (s : ProbeServices) : Type 0 where
  pub distinct : Distinct s.probe_nodes
  pub balance : Perm (values s.probe_nodes ++ s.stopped) (receivers s.spawned)
  pub fresh : receivers s.spawned ≡ upto s.channels

absent : (k : Text) (m : Map ℕ) → contains_key k m ≡ false → Map.get k m ≡ none
unfolding contains_key
absent k m h = ground arith

spawn_node-Ledger :
    (k : Text) (n : ServiceNode) (s : ProbeServices)
    → Map.get k s.probe_nodes ≡ none
    → Ledger s
    → Ledger (spawn_node k n s)
unfolding spawn_node
spawn_node-Ledger k n s new_key l = record {
  distinct = insert-Distinct k s.channels s.probe_nodes l.distinct;
  balance =
      rw (insert_new k s.channels s.probe_nodes new_key, map-append, map-append)
        (rw append_assoc (
          Perm.trans (perm_middle (values s.probe_nodes) s.stopped) (
            Perm.trans (Perm.cons s.channels l.balance)
              (Perm.symm (perm_append_singleton s.channels (receivers s.spawned))))));
  fresh = rw map-append (ap (λ t. t ++ s.channels ∷ []) l.fresh);
}

start_node-Ledger :
    (k : Text) (n : ServiceNode) (s : ProbeServices) → Ledger s → Ledger (start_node k n s)
unfolding start_node
start_node-Ledger k n s l = elim (Bool-cases (contains_key k s.probe_nodes)) [
  | inl there ↦ rw there l
  | inr missing ↦ rw missing (spawn_node-Ledger k n s (absent k s.probe_nodes missing) l)
]

start-Ledger : (d : Map ServiceNode) (s : ProbeServices) → Ledger s → Ledger (start_nodes_probe d s)
unfolding start_nodes_probe
start-Ledger [] s l = l
start-Ledger ((k, n) ∷ rest) s l = start-Ledger rest (start_node k n s) (start_node-Ledger k n s l)

stop_node-Ledger : (s : ProbeServices) (k : Text) → Ledger s → Ledger (stop_node s k)
unfolding stop_node
stop_node-Ledger s k l = elim (Option-cases (Map.get k s.probe_nodes)) [
  | inl e ↦ rw (e, stop_sender) l
  | inr (tx, e) ↦
      rw (e, stop_sender)
        (record {
          distinct = remove-Distinct k s.probe_nodes l.distinct;
          balance = Perm.trans (moved tx e) l.balance;
          fresh = l.fresh;
        })
]
  where
    moved :
        (tx : ℕ)
        → Map.get k s.probe_nodes ≡ some tx
        → Perm
            (values (Map.remove k s.probe_nodes) ++ (s.stopped ++ tx ∷ []))
            (values s.probe_nodes ++ s.stopped)
    moved tx e =
        Perm.trans
          (Perm.append_left (values (Map.remove k s.probe_nodes))
            (perm_append_singleton tx s.stopped))
          (Perm.trans (perm_middle (values (Map.remove k s.probe_nodes)) s.stopped) (
            Perm.append_right s.stopped
              (Perm.symm (values-remove k tx s.probe_nodes l.distinct e))))

stop_all-Ledger : (s : ProbeServices) (ks : List Text) → Ledger s → Ledger (stop_all s ks)
unfolding stop_all
stop_all-Ledger s [] l = l
stop_all-Ledger s (k ∷ ks) l = stop_all-Ledger (stop_node s k) ks (stop_node-Ledger s k l)

pub new-Ledger :
    (client : ConsulClient) (tag : Text) (interval : ℕ) → Ledger (new client tag interval)
unfolding new
new-Ledger client tag interval = record { distinct = tt; balance = Perm.rfl; fresh = refl }

-- A discovery keeps the account: if before it each task that was ever spawned has a channel of its
-- own, and either its sender is kept, under exactly one key, or the sender has been used, exactly
-- once, then so it is after it.
pub sync-Ledger : (d : Map ServiceNode) (s : ProbeServices) → Ledger s → Ledger (sync d s)
unfolding sync stop_nodes_probe
sync-Ledger d s l =
    stop_all-Ledger (start_nodes_probe d s)
      (keys_to_stop d (Map.keys (start_nodes_probe d s).probe_nodes)) (start-Ledger d s l)
