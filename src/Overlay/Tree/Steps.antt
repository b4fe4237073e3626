-- ===== src/Overlay/Tree/Steps.antt =====
-- The life of a `StreamTree` of core/src/overlay/tree.rs as a relation: what its owner,
-- core/src/overlay/topology/manager.rs, and the measurements of its peers can do to it.
use open_broadcast_network.Prelude.{ℕ, Eq}
use open_broadcast_network.Prelude.Maps.{modify}
use open_broadcast_network.Overlay.Floats.{Floats}
use open_broadcast_network.Overlay.Peer.{PeerRole}
use open_broadcast_network.Overlay.Tree.Node.{update_metrics, record_failure, record_success}
use open_broadcast_network.Overlay.Tree.Stream.{
  StreamTree, set_source, add_peer, remove_peer, handle_temporary_disconnect, handle_reconnection,
}
use open_broadcast_network.Overlay.Tree.Rebalance.{rebalance}

module _ (F : Floats) {P : Type 0} ⦃e : Eq P⦄ where
  pub data Step (t : StreamTree F P) : StreamTree F P → Type 0 where
    sets_source : (p : P) (now : ℕ) → Step t (set_source F p now t).0
    joins :
        (p : P) (role : PeerRole) (bandwidth now : ℕ) → Step t (add_peer F p role bandwidth now t).0
    leaves : (p : P) → Step t (remove_peer F p t).0
    drops_out : (p : P) (grace now : ℕ) → Step t (handle_temporary_disconnect F p grace now t).0
    comes_back : (p : P) → Step t (handle_reconnection F p t).0
    rebalances : (now : ℕ) → Step t (rebalance F now t).0
    measures :
        (p : P) (bandwidth latency : ℕ) (success_rate : F.F32) (now : ℕ)
        → Step t (record t {
          nodes = modify p (update_metrics F bandwidth latency success_rate now) t.nodes;
        })
    fails : (p : P) → Step t (record t { nodes = modify p (record_failure F) t.nodes })
    succeeds : (p : P) → Step t (record t { nodes = modify p (record_success F) t.nodes })

  pub data Reach (t : StreamTree F P) : StreamTree F P → Type 0 where
    here : Reach t t
    next : {u v : StreamTree F P} → Reach t u → Step u v → Reach t v
