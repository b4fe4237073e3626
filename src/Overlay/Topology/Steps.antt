-- ===== src/Overlay/Topology/Steps.antt =====
-- The life of a `TopologyManager` of core/src/overlay/topology/manager.rs as a relation: the calls of
-- the program and the steps of its two background tasks.
use open_broadcast_network.Prelude.{ℕ, List, Eq}
use open_broadcast_network.Prelude.Bytes.{bytes_eq}
use open_broadcast_network.Overlay.Floats.{Floats}
use open_broadcast_network.Overlay.Peer.{PeerRole}
use open_broadcast_network.Overlay.Topology.{
  ManagerConfig, TopologyManager, start, stop, update_config, add_peer_to_stream,
  remove_peer_from_stream, record_connection_success, record_connection_failure, update_peer,
  remove_peer, rebalance_stream, rebalance_found, check_health, cleanup_health_records,
}

module _ (F : Floats) {P Q : Type 0} ⦃e : Eq P⦄ where
  pub data Call (m : TopologyManager F P Q) : TopologyManager F P Q → Type 0 where
    starts : Call m (start F m)
    stops : Call m (stop F m)
    configures : (config : ManagerConfig F) → Call m (update_config F config m)
    adds :
        (stream_id : List ℕ) (peer : P) (role : PeerRole) (now : ℕ)
        → Call m (add_peer_to_stream F stream_id peer role now m)
    drops :
        (stream_id : List ℕ) (peer : P) (now : ℕ)
        → Call m (remove_peer_from_stream F stream_id peer now m).0
    succeeds : (peer : P) (now : ℕ) → Call m (record_connection_success F peer now m)
    fails : (peer : P) (now : ℕ) → Call m (record_connection_failure F peer now m)
    updates : (peer : P) (q : Q) → Call m (update_peer F peer q m)
    removes : (peer : P) → Call m (remove_peer F peer m)
    rebalances_stream :
        (stream_id : List ℕ) (now : ℕ) → Call m (rebalance_stream F stream_id now m).0
    rebalances_found : (stream_id : List ℕ) (now : ℕ) → Call m (rebalance_found F stream_id now m)
    checks :
        (config : ManagerConfig F) (peer : P) (now : ℕ) → Call m (check_health F config peer now m)
    cleans : (max_age now : ℕ) → Call m (cleanup_health_records F max_age now m)

  pub data Run (m : TopologyManager F P Q) : TopologyManager F P Q → Type 0 where
    idle : Run m m
    after : {u v : TopologyManager F P Q} → Run m u → Call u v → Run m v
