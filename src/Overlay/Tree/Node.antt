-- ===== src/Overlay/Tree/Node.antt =====
-- `TreeNode` of core/src/overlay/tree.rs. A peer id is libp2p's, an abstract type with an equality
-- test; `Instant` is a number, and the clock's reading is an argument.
use open_broadcast_network.Prelude.{
  ℕ, ◌+◌, ◌-◌, ◌/◌, Bool, not, ◌&&◌, Option, none, List, [], length, Eq, add64, ltb, max,
  if◌then◌else◌,
}
use open_broadcast_network.Prelude.Maps.{set_insert, set_remove}
use open_broadcast_network.Overlay.Floats.{Floats}
use open_broadcast_network.Overlay.Peer.{PeerRole, publisher, is_consumer, is_publisher}
use open_broadcast_network.Overlay.Geo.{GeoLocation}

abbrev pub default_max_children : ℕ
default_max_children = 3

abbrev pub absolute_max_children : ℕ
absolute_max_children = 7

pub record TreeNode (F : Floats) (P : Type 0) : Type 0 where
  pub peer_id : P
  pub role : PeerRole
  pub parent : Option P
  pub children : List P
  pub depth : ℕ
  pub bandwidth : ℕ
  pub latency : ℕ
  pub max_children : ℕ
  pub connection_quality : F.F32
  pub last_updated : ℕ
  pub failure_count : ℕ
  pub location : Option (GeoLocation F)

-- `x.clamp(lo, hi)`
unfoldable pub clamp : ℕ → ℕ → ℕ → ℕ
clamp x lo hi = if ltb x lo then lo else if ltb hi x then hi else x

unfoldable pub latency_factor : (F : Floats) → ℕ → F.F32
latency_factor F latency =
    if ltb latency 50
    then F.literal32 1 1
    else if ltb latency 100
    then F.literal32 9 10
    else if ltb latency 200
    then F.literal32 7 10
    else if ltb latency 500
    then F.literal32 5 10
    else F.literal32 3 10

module _ (F : Floats) {P : Type 0} where
  unfoldable pub new : P → PeerRole → ℕ → TreeNode F P
  new peer_id role now = record {
    peer_id = peer_id;
    role = role;
    parent = none;
    children = [];
    depth = 0;
    bandwidth = 0;
    latency = 0;
    max_children = default_max_children;
    connection_quality = F.literal32 1 1;
    last_updated = now;
    failure_count = 0;
    location = none;
  }

  unfoldable pub source : P → ℕ → TreeNode F P
  source peer_id now = record {
    peer_id = peer_id;
    role = publisher;
    parent = none;
    children = [];
    depth = 0;
    bandwidth = 0;
    latency = 0;
    max_children = default_max_children + 1;
    connection_quality = F.literal32 1 1;
    last_updated = now;
    failure_count = 0;
    location = none;
  }

  -- `MIN_CONNECTION_QUALITY` is 0.5.
  unfoldable pub can_accept_children : TreeNode F P → Bool
  can_accept_children n =
      not (is_consumer n.role)
      && (ltb (length n.children) n.max_children && F.le32 (F.literal32 1 2) n.connection_quality)

  unfoldable pub adjust_fan_out : TreeNode F P → TreeNode F P
  unfolding clamp
  adjust_fan_out n =
      let capacity = n.bandwidth / 500_000 in
      let adjusted = F.to_usize (F.mul32 (F.from_nat32 capacity) n.connection_quality) in
      let new_max = clamp adjusted 1 absolute_max_children in
      record n {
        max_children = if is_publisher n.role then max new_max default_max_children else new_max;
      }

  unfoldable pub update_metrics : ℕ → ℕ → F.F32 → ℕ → TreeNode F P → TreeNode F P
  update_metrics bandwidth latency success_rate now n = adjust_fan_out (record n {
    bandwidth = bandwidth;
    latency = latency;
    last_updated = now;
    connection_quality = F.mul32 (latency_factor F latency) success_rate;
  })

  unfoldable pub record_failure : TreeNode F P → TreeNode F P
  record_failure n = adjust_fan_out (record n {
    failure_count = add64 n.failure_count 1;
    connection_quality = F.mul32 n.connection_quality (F.literal32 8 10);
  })

  unfoldable pub record_success : TreeNode F P → TreeNode F P
  record_success n = adjust_fan_out (record n {
    failure_count = n.failure_count - 1;
    connection_quality =
        F.min32 (F.add32 n.connection_quality (F.literal32 1 10)) (F.literal32 1 1);
  })

module _ (F : Floats) {P : Type 0} ⦃e : Eq P⦄ where
  -- The callers drop the answer, which is `can_accept_children`.
  unfoldable pub add_child : P → TreeNode F P → TreeNode F P
  add_child peer n =
      if can_accept_children F n then record n { children = set_insert peer n.children } else n

  unfoldable pub remove_child : P → TreeNode F P → TreeNode F P
  remove_child peer n = record n { children = set_remove peer n.children }
