-- ===== src/Overlay/Topology/Tests.antt =====
-- Runs of core/src/overlay/topology/manager.rs on one stream, with numbers of two decimals for its
-- floats.
use open_broadcast_network.Prelude.{ℕ, ◌+◌, arith, ◌≡◌, refl, true, some, [], ◌∷◌, nat_eq}
use open_broadcast_network.Prelude.Maps.{get, insert, contains_key, modify}
use open_broadcast_network.Overlay.Peer.{publisher, relay}
use open_broadcast_network.Overlay.Tests.{fixed_point, config}
use open_broadcast_network.Overlay.Tree.Node
use open_broadcast_network.Overlay.Tree.Node.{can_accept_children, add_child}
use open_broadcast_network.Overlay.Tree.Stream.{find_parent_for_peer, best_parent, better, attach}
use open_broadcast_network.Overlay.Topology.{
  ManagerConfig, TopologyManager, ok, peer_not_in_stream, stream_not_found, get_relay_path,
  get_stream_publisher, add_peer_to_stream, remove_peer_from_stream, record_connection_failure, new,
}
use open_broadcast_network.Overlay.Topology.Bounds.{ManagerFits}
use open_broadcast_network.Overlay.Topology.Steps.{idle, after, adds, fails, drops}
use open_broadcast_network.Overlay.Topology.Runs.{manager_stays_bounded}
use open_broadcast_network.Overlay.Topology.Failures.{
  failures, is_marked, fail_all, failures_degrade,
}

abbrev settings : ManagerConfig fixed_point
settings = record {
  tree = config;
  min_relay_quality = 60;
  max_consecutive_failures = 3;
  min_success_rate = 70;
  health_record_expiry = 600;
  rebalance_threshold = 10;
  default_bandwidth = 1_000_000;
}

abbrev unused : TopologyManager fixed_point ℕ ℕ
unused = new fixed_point 1 settings

abbrev joined : TopologyManager fixed_point ℕ ℕ
joined =
    add_peer_to_stream fixed_point (7 ∷ []) 2 relay 1
      (add_peer_to_stream fixed_point (7 ∷ []) 1 publisher 0 unused)

manager_stays_bounded_example :
    ManagerFits fixed_point
      (remove_peer_from_stream fixed_point
        (7 ∷ [])
        2
        3
        (record_connection_failure fixed_point 2 2 joined)).0
manager_stays_bounded_example = manager_stays_bounded fixed_point 1 settings (
    after
      (after (after (after idle (adds (7 ∷ []) 1 publisher 0)) (adds (7 ∷ []) 2 relay 1))
        (fails 2 2))
      (drops (7 ∷ []) 2 3))

failures_degrade_example :
    (is_marked fixed_point 2 (fail_all fixed_point 2 (5 ∷ 6 ∷ 7 ∷ []) unused) ≡ true)
    × (failures fixed_point 2 (fail_all fixed_point 2 (5 ∷ 6 ∷ 7 ∷ []) unused)
        ≡ failures fixed_point 2 unused + 3)
unfolding failures get new
failures_degrade_example =
    failures_degrade fixed_point 2 5 (6 ∷ 7 ∷ []) unused (omega arith) (omega arith)

publisher_known : get_stream_publisher fixed_point (7 ∷ []) joined ≡ ok 1
unfolding get_stream_publisher add_peer_to_stream new get insert contains_key find_parent_for_peer
    best_parent better can_accept_children Node.new attach modify add_child
publisher_known = refl

path_of_relay : get_relay_path fixed_point 3 (7 ∷ []) 2 joined ≡ some (ok (1 ∷ 2 ∷ []))
unfolding get_relay_path add_peer_to_stream new get insert contains_key find_parent_for_peer
    best_parent better can_accept_children Node.new attach modify add_child
path_of_relay = refl

no_such_peer : get_relay_path fixed_point 3 (7 ∷ []) 3 joined ≡ some peer_not_in_stream
unfolding get_relay_path add_peer_to_stream new get insert contains_key find_parent_for_peer
    best_parent better can_accept_children Node.new attach modify add_child
no_such_peer = refl

no_such_stream : get_relay_path fixed_point 3 [] 2 joined ≡ some (stream_not_found [])
unfolding get_relay_path add_peer_to_stream new get insert
no_such_stream = refl
