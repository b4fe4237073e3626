-- ===== src/Overlay/Topology.antt =====
-- core/src/overlay/topology/manager.rs: the manager of the trees of all streams. A call runs
-- to its end in one step, since it holds the lock that it needs; the two background tasks take a
-- step for each tree or peer, between which they hold none. What the manager keeps of a peer is
-- `Q`, which it only stores; the clock's reading is an argument.
use open_broadcast_network.Prelude.{
  ℕ, ◌+◌, ◌-◌, Bool, true, false, ◌&&◌, not, Option, none, some, String, List, [], ◌∷◌, length, map,
  keep, Eq, ltb, leb, nat_beq, if◌then◌else◌,
}
use open_broadcast_network.Prelude.Bytes.{bytes_eq}
use open_broadcast_network.Prelude.Maps.{get, insert, modify, remove, contains_key}
use open_broadcast_network.Overlay.Floats.{Floats}
use open_broadcast_network.Overlay.Peer.{PeerRole, is_publisher}
use open_broadcast_network.Overlay.Tree.Node.{TreeNode}
use open_broadcast_network.Overlay.Tree.Stream
use open_broadcast_network.Overlay.Tree.Stream.{
  TopologyConfig, StreamTree, add_peer, is_some, get_path_to_peer,
}
use open_broadcast_network.Overlay.Tree.Rebalance.{rebalance}
use open_broadcast_network.Overlay.Topology.Health
use open_broadcast_network.Overlay.Topology.Health.{
  ConnectionHealth, default_health, record_success, record_failure, update_degraded_status,
}
pub mod Health
pub mod Steps
pub mod Bounds
pub mod Runs
pub mod Failures
pub mod Tests

-- The fields of `TopologyConfig`: those that the trees read, and those that the manager reads.
pub record ManagerConfig (F : Floats) : Type 0 where
  pub tree : TopologyConfig F
  pub min_relay_quality : F.F32
  pub max_consecutive_failures : ℕ
  pub min_success_rate : F.F32
  pub health_record_expiry : ℕ
  pub rebalance_threshold : ℕ
  pub default_bandwidth : ℕ

-- `tasks` is how many background tasks run.
pub record TopologyManager (F : Floats) (P Q : Type 0) : Type 0 where
  pub local_peer_id : P
  pub config : ManagerConfig F
  pub peers : List (P × Q)
  pub trees : List (List ℕ × StreamTree F P)
  pub tasks : ℕ
  pub connection_health : List (P × ConnectionHealth F)

-- `Result<A, OverlayError>`; every error of the manager is a `TopologyError`.
pub data Topological (A : Type 0) : Type 0 where
  ok : A → Topological A
  stream_not_found : List ℕ → Topological A
  peer_not_in_stream : Topological A
  no_source_found : List ℕ → Topological A

module _ (F : Floats) {P Q : Type 0} where
  unfoldable pub new : P → ManagerConfig F → TopologyManager F P Q
  new local_peer_id config = record {
    local_peer_id = local_peer_id;
    config = config;
    peers = [];
    trees = [];
    tasks = 0;
    connection_health = [];
  }

  unfoldable pub start : TopologyManager F P Q → TopologyManager F P Q
  start m = record m { tasks = m.tasks + 2 }

  unfoldable pub stop : TopologyManager F P Q → TopologyManager F P Q
  stop m = record m { tasks = 0 }

  unfoldable pub update_config : ManagerConfig F → TopologyManager F P Q → TopologyManager F P Q
  update_config config m = record m { config = config }

module _ (F : Floats) {P : Type 0} where
  unfoldable pub map_trees :
      (StreamTree F P → StreamTree F P)
      → List (List ℕ × StreamTree F P)
      → List (List ℕ × StreamTree F P)
  map_trees f [] = []
  map_trees f ((id, t) ∷ rest) = (id, f t) ∷ map_trees f rest

  -- A publisher is the source of a tree that has none.
  unfoldable pub claim_source : P → PeerRole → StreamTree F P → StreamTree F P
  claim_source peer role t =
      if is_publisher role && not (is_some t.source) then record t { source = some peer } else t

module _ (F : Floats) {P : Type 0} ⦃e : Eq P⦄ where
  unfoldable pub rebalance_over : ℕ → ℕ → StreamTree F P → StreamTree F P
  unfolding rebalance
  rebalance_over threshold now t =
      if ltb threshold (length t.nodes) then (rebalance F now t).0 else t

  -- A tree after a peer has left: removed where it is empty, else rebalanced.
  unfoldable pub settle :
      List ℕ → ℕ → StreamTree F P → List (List ℕ × StreamTree F P) → List (List ℕ × StreamTree F P)
  unfolding rebalance
  settle stream_id now t trees =
      if nat_beq (length t.nodes) 0
      then remove stream_id trees
      else insert stream_id (rebalance F now t).0 trees

  unfoldable pub remove_from_tree : P → StreamTree F P → StreamTree F P
  unfolding Stream.remove_peer
  remove_from_tree peer t = if contains_key peer t.nodes then (Stream.remove_peer F peer t).0 else t

module _ (F : Floats) {P Q : Type 0} ⦃e : Eq P⦄ where
  unfoldable pub tree_of : List ℕ → ℕ → TopologyManager F P Q → StreamTree F P
  unfolding Stream.new
  tree_of stream_id now m = elim (get stream_id m.trees) [
    | none ↦ Stream.new F stream_id m.config.tree now
    | some t ↦ t
  ]

  unfoldable pub add_peer_to_stream :
      List ℕ → P → PeerRole → ℕ → TopologyManager F P Q → TopologyManager F P Q
  unfolding tree_of claim_source add_peer rebalance_over
  add_peer_to_stream stream_id peer role now m =
      let claimed = claim_source F peer role (tree_of stream_id now m) in
      let joined = (add_peer F peer role m.config.default_bandwidth now claimed).0 in
      record m {
        trees = insert stream_id (rebalance_over F m.config.rebalance_threshold now joined) m.trees;
      }

  unfoldable pub remove_peer_from_stream :
      List ℕ → P → ℕ → TopologyManager F P Q → TopologyManager F P Q × Topological (Unit {0})
  unfolding Stream.remove_peer settle
  remove_peer_from_stream stream_id peer now m = elim (get stream_id m.trees) [
    | none ↦ (m, stream_not_found stream_id)
    | some t ↦
        (record m { trees = settle F stream_id now (Stream.remove_peer F peer t).0 m.trees }, ok tt)
  ]

  unfoldable pub health_of : P → ℕ → TopologyManager F P Q → ConnectionHealth F
  unfolding default_health
  health_of peer now m = elim (get peer m.connection_health) [
    | none ↦ default_health F now
    | some h ↦ h
  ]

  unfoldable pub record_connection_success : P → ℕ → TopologyManager F P Q → TopologyManager F P Q
  unfolding health_of record_success
  record_connection_success peer now m =
      let h = record_success F now (health_of peer now m) in
      let cleared =
        (if F.le32 m.config.min_relay_quality h.quality
          then record h { is_degraded = false }
          else h) in
      record m { connection_health = insert peer cleared m.connection_health }

  unfoldable pub record_connection_failure : P → ℕ → TopologyManager F P Q → TopologyManager F P Q
  unfolding health_of record_failure
  record_connection_failure peer now m =
      let h = record_failure F now (health_of peer now m) in
      let marked =
        (if leb m.config.max_consecutive_failures h.consecutive_failures
          then record h { is_degraded = true }
          else h) in
      record m { connection_health = insert peer marked m.connection_health }

  unfoldable pub update_peer : P → Q → TopologyManager F P Q → TopologyManager F P Q
  update_peer peer_id peer m = record m { peers = insert peer_id peer m.peers }

  unfoldable pub remove_peer : P → TopologyManager F P Q → TopologyManager F P Q
  unfolding remove_from_tree map_trees
  remove_peer peer m = record m {
    peers = remove peer m.peers;
    trees = map_trees F (remove_from_tree F peer) m.trees;
  }

  -- The loop of `get_path_to_peer` runs on fuel: nothing where that does not last.
  unfoldable pub get_relay_path :
      ℕ → List ℕ → P → TopologyManager F P Q → Option (Topological (List P))
  unfolding get_path_to_peer
  get_relay_path fuel stream_id target m = elim (get stream_id m.trees) [
    | none ↦ some (stream_not_found stream_id)
    | some t ↦ elim (get_path_to_peer F fuel target t) [
      | none ↦ none
      | some none ↦ some peer_not_in_stream
      | some (some path) ↦ some (ok path)
    ]
  ]

  unfoldable pub get_stream_publisher : List ℕ → TopologyManager F P Q → Topological P
  get_stream_publisher stream_id m = elim (get stream_id m.trees) [
    | none ↦ stream_not_found stream_id
    | some t ↦ elim t.source [ none ↦ no_source_found stream_id | some p ↦ ok p ]
  ]

  unfoldable pub rebalance_stream :
      List ℕ → ℕ → TopologyManager F P Q → TopologyManager F P Q × Topological (Unit {0})
  unfolding rebalance
  rebalance_stream stream_id now m = elim (get stream_id m.trees) [
    | none ↦ (m, stream_not_found stream_id)
    | some t ↦ (record m { trees = insert stream_id (rebalance F now t).0 m.trees }, ok tt)
  ]

  unfoldable pub get_stream_peers : List ℕ → TopologyManager F P Q → Topological (List P)
  get_stream_peers stream_id m = elim (get stream_id m.trees) [
    | none ↦ stream_not_found stream_id
    | some t ↦ ok (map (λ (n : P × TreeNode F P). n.0) t.nodes)
  ]

  -- What `periodic_rebalance` does to one of the trees that it found.
  unfoldable pub rebalance_found : List ℕ → ℕ → TopologyManager F P Q → TopologyManager F P Q
  unfolding rebalance
  rebalance_found stream_id now m = record m {
    trees = modify stream_id (λ t. (rebalance F now t).0) m.trees;
  }

  -- What `monitor_connection_health` does for one of the peers that it found. The task has a copy
  -- of the configuration, from when it was started.
  unfoldable pub check_health :
      ManagerConfig F → P → ℕ → TopologyManager F P Q → TopologyManager F P Q
  unfolding health_of update_degraded_status
  check_health config peer now m = record m {
    connection_health =
        insert peer
          (update_degraded_status F config.min_relay_quality config.max_consecutive_failures
            config.min_success_rate now (health_of peer now m))
          m.connection_health;
  }

  unfoldable pub cleanup_health_records : ℕ → ℕ → TopologyManager F P Q → TopologyManager F P Q
  cleanup_health_records max_age now m = record m {
    connection_health =
        keep (λ (r : P × ConnectionHealth F). not (ltb max_age (now - r.1.last_checked)))
          m.connection_health;
  }
