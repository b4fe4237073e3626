-- ===== src/Overlay/Topology/Runs.antt =====
-- The bounds of core/src/overlay/topology/manager.rs over any run of its calls and tasks.
use open_broadcast_network.Prelude.{ℕ, true, false, List, All-keep, Eq, leb, Option-cases, inl, inr}
use open_broadcast_network.Prelude.Bytes.{bytes_eq}
use open_broadcast_network.Prelude.Maps.{get}
use open_broadcast_network.Prelude.Maps.Keys.{Entries-insert, Entries-modify}
use open_broadcast_network.Overlay.Floats.{Floats}
use open_broadcast_network.Overlay.Tree.Steps.{joins, leaves, rebalances}
use open_broadcast_network.Overlay.Tree.FanOut.{TreeFits}
use open_broadcast_network.Overlay.Tree.FanOut.Runs.{Step-TreeFits}
use open_broadcast_network.Overlay.Topology.{
  ManagerConfig, TopologyManager, new, start, stop, update_config, remove_from_tree,
  add_peer_to_stream, remove_peer_from_stream, health_of, record_connection_success,
  record_connection_failure, update_peer, remove_peer, rebalance_stream, rebalance_found,
  check_health, cleanup_health_records,
}
use open_broadcast_network.Overlay.Topology.Health.{
  ConnectionHealth, record_success, record_failure, update_degraded_status,
}
use open_broadcast_network.Overlay.Topology.Steps.{
  Call, starts, stops, configures, adds, drops, succeeds, fails, updates, removes,
  rebalances_stream, rebalances_found, checks, cleans, Run, idle, after,
}
use open_broadcast_network.Overlay.Topology.Bounds.{
  IsShort, ManagerFits, record_success-IsShort, record_failure-IsShort, flagged-IsShort,
  claim_source-TreeFits, rebalance_over-TreeFits, settle-fits, remove_from_tree-TreeFits,
  map_trees-fits, tree_found-TreeFits, tree_of-TreeFits, health_of-IsShort, with_trees, with_health,
}

module _ (F : Floats) {P Q : Type 0} ⦃e : Eq P⦄ where
  remove_peer_from_stream-fits :
      (stream_id : List ℕ) (peer : P) (now : ℕ) (m : TopologyManager F P Q)
      → ManagerFits F m
      → ManagerFits F (remove_peer_from_stream F stream_id peer now m).0
  unfolding remove_peer_from_stream
  remove_peer_from_stream-fits stream_id peer now m h =
      elim (Option-cases (get stream_id m.trees)) [
        | inl q ↦ rw (q, remove_peer_from_stream) h
        | inr (t, q) ↦
            rw (q, remove_peer_from_stream)
              (with_trees F _ h (
                settle-fits F stream_id now _ m.trees
                  (Step-TreeFits F (leaves peer) (tree_found-TreeFits F stream_id m h q))
                  h.trees_fit))
      ]

  rebalance_stream-fits :
      (stream_id : List ℕ) (now : ℕ) (m : TopologyManager F P Q)
      → ManagerFits F m
      → ManagerFits F (rebalance_stream F stream_id now m).0
  unfolding rebalance_stream
  rebalance_stream-fits stream_id now m h = elim (Option-cases (get stream_id m.trees)) [
    | inl q ↦ rw (q, rebalance_stream) h
    | inr (t, q) ↦
        rw (q, rebalance_stream)
          (with_trees F _ h (
            Entries-insert (λ _ t. TreeFits F t) stream_id _ m.trees
              (Step-TreeFits F (rebalances now) (tree_found-TreeFits F stream_id m h q))
              h.trees_fit))
  ]

  success-fits :
      (peer : P) (now : ℕ) (m : TopologyManager F P Q)
      → ManagerFits F m
      → ManagerFits F (record_connection_success F peer now m)
  unfolding record_connection_success
  success-fits peer now m h =
      let r = record_success F now (health_of F peer now m) in
      with_health F peer _ m
        (flagged-IsShort F (F.le32 m.config.min_relay_quality r.quality) false r
          (record_success-IsShort F now _ (health_of-IsShort F peer now m h)))
        h

  failure-fits :
      (peer : P) (now : ℕ) (m : TopologyManager F P Q)
      → ManagerFits F m
      → ManagerFits F (record_connection_failure F peer now m)
  unfolding record_connection_failure
  failure-fits peer now m h =
      let r = record_failure F now (health_of F peer now m) in
      with_health F peer _ m
        (flagged-IsShort F (leb m.config.max_consecutive_failures r.consecutive_failures) true r
          (record_failure-IsShort F now _ (health_of-IsShort F peer now m h)))
        h

  Call-ManagerFits : {m n : TopologyManager F P Q} → Call F m n → ManagerFits F m → ManagerFits F n
  unfolding start stop update_config add_peer_to_stream update_peer remove_peer rebalance_found
      check_health cleanup_health_records update_degraded_status IsShort
  Call-ManagerFits starts h = record {
    trees_fit = h.trees_fit;
    histories_short = h.histories_short;
  }
  Call-ManagerFits stops h = record { trees_fit = h.trees_fit; histories_short = h.histories_short }
  Call-ManagerFits (configures config) h = record {
    trees_fit = h.trees_fit;
    histories_short = h.histories_short;
  }
  Call-ManagerFits {m} (adds stream_id peer role now) h = with_trees F _ h (
      Entries-insert (λ _ t. TreeFits F t) stream_id _ m.trees
        (rebalance_over-TreeFits F m.config.rebalance_threshold now _ (
          Step-TreeFits F (joins peer role m.config.default_bandwidth now)
            (claim_source-TreeFits F peer role _ (tree_of-TreeFits F stream_id now m h))))
        h.trees_fit)
  Call-ManagerFits {m} (drops stream_id peer now) h =
      remove_peer_from_stream-fits stream_id peer now m h
  Call-ManagerFits {m} (succeeds peer now) h = success-fits peer now m h
  Call-ManagerFits {m} (fails peer now) h = failure-fits peer now m h
  Call-ManagerFits (updates peer q) h = record {
    trees_fit = h.trees_fit;
    histories_short = h.histories_short;
  }
  Call-ManagerFits {m} (removes peer) h = record {
    trees_fit =
        map_trees-fits F (remove_from_tree F peer) (remove_from_tree-TreeFits F peer) m.trees
          h.trees_fit;
    histories_short = h.histories_short;
  }
  Call-ManagerFits {m} (rebalances_stream stream_id now) h = rebalance_stream-fits stream_id now m h
  Call-ManagerFits {m} (rebalances_found stream_id now) h = with_trees F _ h (
      Entries-modify (λ _ t. TreeFits F t) stream_id _ m.trees
        (λ j t k. Step-TreeFits F (rebalances now) k) h.trees_fit)
  Call-ManagerFits {m} (checks config peer now) h =
      with_health F peer _ m (health_of-IsShort F peer now m h) h
  Call-ManagerFits {m} (cleans max_age now) h = record {
    trees_fit = h.trees_fit;
    histories_short =
        All-keep (λ (r : P × ConnectionHealth F). IsShort F r.1) _ m.connection_health
          h.histories_short;
  }

  Run-ManagerFits : {m n : TopologyManager F P Q} → ManagerFits F m → Run F m n → ManagerFits F n
  Run-ManagerFits h idle = h
  Run-ManagerFits h (after r c) = Call-ManagerFits c (Run-ManagerFits h r)

  -- Whatever the program and the background tasks ask of a new manager, in any order, with any
  -- configurations and under any floating-point arithmetic: in the tree of every stream each peer has
  -- at most seven children and a limit between one and seven, at least three for a publisher, and no
  -- health record ever holds more than ten measurements.
  pub manager_stays_bounded :
      (local_peer_id : P) (config : ManagerConfig F) {m : TopologyManager F P Q}
      → Run F (new F local_peer_id config) m
      → ManagerFits F m
  unfolding new
  manager_stays_bounded local_peer_id config r =
      Run-ManagerFits (record { trees_fit = tt; histories_short = tt }) r
