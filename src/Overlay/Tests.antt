-- ===== src/Overlay/Tests.antt =====
-- Runs of core/src/overlay/tree.rs on small trees, with numbers of two decimals for its floats.
use mathlib.Core.List.{reverse}
use open_broadcast_network.Prelude.{
  ℕ, ◌+◌, ◌-◌, ◌*◌, ◌/◌, ◌^◌, ◌≤◌, ◌≡◌, refl, true, false, none, some, List, [], ◌∷◌, length,
  nat_eq, add64, ◌==◌, ltb, leb, min, max, arith, All,
}
use open_broadcast_network.Prelude.Maps.{
  get, insert, remove, modify, contains_key, contains, set_insert, set_remove,
}
use open_broadcast_network.Overlay.Floats.{Floats}
use open_broadcast_network.Overlay.Peer.{publisher, relay}
use open_broadcast_network.Overlay.Tree.Node
use open_broadcast_network.Overlay.Tree.Node.{
  TreeNode, update_metrics, adjust_fan_out, latency_factor, clamp, can_accept_children, add_child,
  remove_child,
}
use open_broadcast_network.Overlay.Tree.Stream
use open_broadcast_network.Overlay.Tree.Stream.{
  RelayScoreWeights, TopologyConfig, StreamTree, no_parent, set_source, better, best_parent, attach,
  attach_best, find_parent_for_peer, add_peer, remove_peer, detach, reconnect_children,
  get_path_to_peer,
}
use open_broadcast_network.Overlay.Tree.Steps.{here, next, sets_source, joins}
use open_broadcast_network.Overlay.Tree.Search.{Precedes, best_parent_optimal}
use open_broadcast_network.Overlay.Tree.FanOut.{TreeFits}
use open_broadcast_network.Overlay.Tree.FanOut.Runs.{fan_out_stays_bounded}
use open_broadcast_network.Overlay.Tree.Links.{Linked}
use open_broadcast_network.Overlay.Topology.{claim_source}
use open_broadcast_network.Overlay.Tree.Links.Joins
use open_broadcast_network.Overlay.Tree.Links.Joins.{Join, join_all, build, build-Linked}
use open_broadcast_network.Overlay.Tree.Paths.{
  Climbs, get_path_to_peer-Climbs, get_path_to_peer_endless,
}
use open_broadcast_network.Overlay.Mesh.Network
use open_broadcast_network.Overlay.Mesh.Limits
use open_broadcast_network.Overlay.Mesh.Runs
use open_broadcast_network.Overlay.Mesh.Links.{linked}
use open_broadcast_network.Overlay.Mesh.Build
use open_broadcast_network.Overlay.Mesh.Build.{build-Mutual}
use open_broadcast_network.Overlay.Mesh.Runs.{connections_stay_limited}

abbrev pub fixed_point : Floats
fixed_point = record {
  F32 = ℕ;
  F64 = ℕ;
  literal32 = λ n d. n * 100 / d;
  literal64 = λ n d. n * 100 / d;
  neg_infinity32 = 0;
  add32 = λ a b. a + b;
  sub32 = λ a b. a - b;
  mul32 = λ a b. a * b / 100;
  div32 = λ a b. a * 100 / b;
  min32 = min;
  lt32 = ltb;
  le32 = leb;
  from_nat32 = λ n. n * 100;
  to_usize = λ a. a / 100;
  from_nat64 = λ n. n * 100;
  to_f32 = λ a. a;
  add64 = λ a b. a + b;
  sub64 = λ a b. a - b;
  mul64 = λ a b. a * b / 100;
  div64 = λ a b. a * 100 / b;
  min64 = min;
  max64 = max;
  log10 = λ a. a;
  to_radians = λ a. a;
  sin = λ a. a;
  cos = λ a. a;
  sqrt = λ a. a;
  atan2 = λ a b. a;
}

abbrev pub config : TopologyConfig fixed_point
config = record {
  max_tree_depth = 4;
  enable_geo_aware = false;
  prefer_same_region = false;
  score_weights = record {
    bandwidth_weight = 40;
    latency_weight = 30;
    geo_weight = 20;
    quality_weight = 10;
  };
}

abbrev empty_tree : StreamTree fixed_point ℕ
empty_tree = Stream.new fixed_point [] config 0

abbrev relay_joins : ℕ → Join ℕ
relay_joins p = record { peer = p; role = relay; bandwidth = 4_000_000; now = 5 }

fan_out_stays_bounded_example :
    TreeFits fixed_point
      (add_peer fixed_point 2 relay 4_000_000 1 (set_source fixed_point 1 0 empty_tree).0).0
fan_out_stays_bounded_example =
    fan_out_stays_bounded fixed_point [] config 0
      (next (next here (sets_source 1 0)) (joins 2 relay 4_000_000 1))

-- The publisher becomes the source.
abbrev publisher_joins : Join ℕ
publisher_joins = record { peer = 1; role = publisher; bandwidth = 4_000_000; now = 5 }

abbrev small_tree : StreamTree fixed_point ℕ
small_tree = build fixed_point [] config (some 1) 0 (relay_joins 2 ∷ [])

abbrev child_node : TreeNode fixed_point ℕ
child_node = record {
  peer_id = 2;
  role = relay;
  parent = some 1;
  children = [];
  depth = 1;
  bandwidth = 4_000_000;
  latency = 0;
  max_children = 3;
  connection_quality = 100;
  last_updated = 5;
  failure_count = 0;
  location = none;
}

child_of_small_tree : get 2 small_tree.nodes ≡ some child_node
unfolding build join_all Joins.join claim_source add_peer set_source find_parent_for_peer
    attach_best attach best_parent better Stream.new Node.new Node.source can_accept_children
    add_child get insert modify contains_key contains set_insert add64
child_of_small_tree = refl

small_tree-Linked : Linked 1 small_tree.nodes
small_tree-Linked = build-Linked fixed_point [] config (some 1) 0 (relay_joins 2 ∷ []) (omega arith)

get_path_to_peer-Climbs_example :
    (path : List ℕ) × (get_path_to_peer fixed_point 2 2 small_tree ≡ some (some (reverse path)))
    × Climbs fixed_point small_tree 2 path
    × (length path ≤ 1 + 1)
get_path_to_peer-Climbs_example =
    get_path_to_peer-Climbs fixed_point 1 small_tree 2 child_node 2 small_tree-Linked
      child_of_small_tree (omega arith)

best_parent_optimal_example :
    ((p : ℕ)
      → (best_parent fixed_point 3 small_tree.nodes no_parent).parent ≡ some p
      → (n : TreeNode fixed_point ℕ) × (get p small_tree.nodes ≡ some n)
        × (can_accept_children fixed_point n ≡ true)
        × ((p == 3) ≡ false)
        × All
            (λ c.
              can_accept_children fixed_point c.1 ≡ true
              → (c.0 == 3) ≡ false
              → Precedes fixed_point n c.1)
            small_tree.nodes)
    × ((best_parent fixed_point 3 small_tree.nodes no_parent).parent ≡ none
        → All
            (λ c.
              can_accept_children fixed_point c.1 ≡ true
              → (c.0 == 3) ≡ false
              → 2 ^ 64 - 1 ≤ c.1.depth)
            small_tree.nodes)
best_parent_optimal_example =
    best_parent_optimal fixed_point 3 small_tree.nodes small_tree-Linked.distinct

-- A run that ends in a loop of parents: the source's connection drops below 0.5, peer 2 has room for
-- one child, peers 3 and 4 hang below it in a row, and peer 2 leaves.
abbrev measured : ℕ → ℕ → ℕ → StreamTree fixed_point ℕ → StreamTree fixed_point ℕ
measured p bandwidth success t = record t {
  nodes = modify p (update_metrics fixed_point bandwidth 0 success 5) t.nodes;
}

abbrev before_leave : StreamTree fixed_point ℕ
before_leave =
    (add_peer fixed_point 4 relay 4_000_000 5 (
      measured 2 500_000 100
        (add_peer fixed_point 3 relay 4_000_000 5 (measured 1 4_000_000 40 small_tree)).0)).0

abbrev looped_tree : StreamTree fixed_point ℕ
looped_tree = (remove_peer fixed_point 2 before_leave).0

abbrev upper_node : TreeNode fixed_point ℕ
upper_node = record child_node { peer_id = 3; parent = some 4; children = 4 ∷ []; depth = 4 }

abbrev lower_node : TreeNode fixed_point ℕ
lower_node = record child_node { peer_id = 4; parent = some 3; children = 3 ∷ []; depth = 3 }

looped_nodes :
    (get 3 looped_tree.nodes ≡ some upper_node) × (get 4 looped_tree.nodes ≡ some lower_node)
unfolding build join_all Joins.join claim_source add_peer set_source find_parent_for_peer
    attach_best attach best_parent better Stream.new Node.new Node.source can_accept_children
    add_child get insert modify contains_key contains set_insert add64 remove_peer detach
    reconnect_children remove set_remove remove_child update_metrics adjust_fan_out latency_factor
    clamp
looped_nodes = (refl, refl)

get_path_to_peer_endless_example : get_path_to_peer fixed_point 100 3 looped_tree ≡ none
get_path_to_peer_endless_example =
    get_path_to_peer_endless fixed_point looped_tree 3 4 upper_node lower_node looped_nodes.0 refl
      looped_nodes.1 refl 100

connections_stay_limited_example :
    Limits.Nodes {P = ℕ}
      (Network.remove_peer 2
        (Network.add_peer 3 relay 7
          (Network.add_peer 2 relay 9 (Network.set_source 1 (Network.new_mesh [])).0).0).0).0.nodes
connections_stay_limited_example = connections_stay_limited [] (
    Runs.next
      (Runs.next (Runs.next (Runs.next Runs.here (Runs.sets_source 1)) (Runs.joins 2 relay 9))
        (Runs.joins 3 relay 7))
      (Runs.leaves 2))

abbrev mesh_join : ℕ → Build.Join ℕ
mesh_join p = record { peer = p; role = relay; bandwidth = p }

abbrev small_mesh : Network.StreamMesh ℕ
small_mesh = Build.build [] 1 (mesh_join 2 ∷ mesh_join 3 ∷ [])

links_of_small_mesh : linked small_mesh.nodes 3 2 ≡ true
unfolding Build.build Build.join_all Network.add_peer Network.set_source Network.new_mesh
    Network.new_node Network.connect_peer_to_mesh Network.connect_to_source
    Network.connect_candidates Network.connect_candidate Network.candidates_for
    Network.sort_candidates Network.insert_candidate Network.connect Network.can_accept_connections
    get insert modify contains_key contains set_insert
links_of_small_mesh = refl

build-Mutual_example : linked small_mesh.nodes 2 3 ≡ true
build-Mutual_example = build-Mutual [] 1 (mesh_join 2 ∷ mesh_join 3 ∷ []) 3 2 links_of_small_mesh
