-- ===== src/Overlay/Tree/Stream.antt =====
-- `StreamTree` of core/src/overlay/tree.rs: peers join, leave, drop out and come back. A map is
-- iterated in the order of its list; the program's `HashMap` has no order that it could rely on.
use open_broadcast_network.Prelude.{
  ℕ, zero, suc, ◌-◌, ◌^◌, Bool, true, false, not, ◌&&◌, ◌||◌, Option, none, some, List, [], ◌∷◌,
  ◌++◌, add64, Eq, ◌==◌, ltb, nat_beq, if◌then◌else◌,
}
use mathlib.Core.List.{reverse}
use open_broadcast_network.Prelude.Maps.{get, insert, remove, modify, contains_key}
use open_broadcast_network.Overlay.Floats.{Floats}
use open_broadcast_network.Overlay.Peer.{PeerRole}
use open_broadcast_network.Overlay.Tree.Node
use open_broadcast_network.Overlay.Tree.Node.{
  TreeNode, can_accept_children, add_child, remove_child, record_success,
}

pub record RelayScoreWeights (F : Floats) : Type 0 where
  pub bandwidth_weight : F.F32
  pub latency_weight : F.F32
  pub geo_weight : F.F32
  pub quality_weight : F.F32

-- The fields of `TopologyConfig` that the tree reads.
pub record TopologyConfig (F : Floats) : Type 0 where
  pub max_tree_depth : ℕ
  pub enable_geo_aware : Bool
  pub prefer_same_region : Bool
  pub score_weights : RelayScoreWeights F

pub record StreamTree (F : Floats) (P : Type 0) : Type 0 where
  pub stream_id : List ℕ
  pub nodes : List (P × TreeNode F P)
  pub source : Option P
  pub disconnected_nodes : List (P × (TreeNode F P × ℕ))
  pub last_rebalanced : ℕ
  pub rebalance_count : ℕ
  pub config : TopologyConfig F

-- `best_parent`, `best_depth` and `best_bandwidth` of the loop.
pub record Best (P : Type 0) : Type 0 where
  pub parent : Option P
  pub depth : ℕ
  pub bandwidth : ℕ

-- `usize::MAX` is the depth to beat at the start.
abbrev pub no_parent : {P : Type 0} → Best P
no_parent = record { parent = none; depth = 2 ^ 64 - 1; bandwidth = 0 }

abbrev pub is_some {ℓ} : {A : Type ℓ} → Option A → Bool
is_some none = false
is_some (some p) = true

abbrev pub some_path {ℓ} : {A : Type ℓ} → List A → Option (List A)
some_path [] = none
some_path (p ∷ ps) = some (p ∷ ps)

module _ (F : Floats) {P : Type 0} where
  unfoldable pub new : List ℕ → TopologyConfig F → ℕ → StreamTree F P
  new stream_id config now = record {
    stream_id = stream_id;
    nodes = [];
    source = none;
    disconnected_nodes = [];
    last_rebalanced = now;
    rebalance_count = 0;
    config = config;
  }

  unfoldable pub unexpired : ℕ → ℕ → List (P × (TreeNode F P × ℕ)) → List (P × (TreeNode F P × ℕ))
  unexpired grace now [] = []
  unexpired grace now ((p, (n, time)) ∷ rest) =
      let others = unexpired grace now rest in
      if ltb grace (now - time) then others else (p, (n, time)) ∷ others

module _ (F : Floats) {P : Type 0} ⦃e : Eq P⦄ where
  unfoldable pub set_source : P → ℕ → StreamTree F P → StreamTree F P × Bool
  set_source peer now t = if is_some t.source then (t, false) else (
    record t { nodes = insert peer (Node.source F peer now) t.nodes; source = some peer },
    true,
  )

  unfoldable pub better : P → P → TreeNode F P → Best P → Bool
  better peer candidate n best =
      can_accept_children F n
      && (not (candidate == peer)
          && (ltb n.depth best.depth
              || nat_beq n.depth best.depth && ltb best.bandwidth n.bandwidth))

  unfoldable pub best_parent : P → List (P × TreeNode F P) → Best P → Best P
  best_parent peer [] best = best
  best_parent peer ((candidate, n) ∷ rest) best = best_parent peer rest (
      if better peer candidate n best
      then record { parent = some candidate; depth = n.depth; bandwidth = n.bandwidth }
      else best)

  -- The link between a peer and its new parent.
  unfoldable pub attach : P → P → ℕ → StreamTree F P → StreamTree F P
  attach peer parent depth t = record t {
    nodes =
        modify peer (λ n. record n { parent = some parent; depth = add64 depth 1 })
          (modify parent (add_child F peer) t.nodes);
  }

  unfoldable pub attach_best : P → Best P → StreamTree F P → StreamTree F P × Bool
  attach_best peer best t = elim best.parent [
    | none ↦ (t, false)
    | some parent ↦ (attach peer parent best.depth t, true)
  ]

  unfoldable pub find_parent_for_peer : P → StreamTree F P → StreamTree F P × Bool
  unfolding attach_best
  find_parent_for_peer peer t = elim t.source [
    | none ↦ (t, false)
    | some source ↦
        if peer == source
        then (t, true)
        else attach_best peer (best_parent peer t.nodes no_parent) t
  ]

  -- A consumer and any other peer take the same two steps.
  unfoldable pub add_peer : P → PeerRole → ℕ → ℕ → StreamTree F P → StreamTree F P × Bool
  add_peer peer role bandwidth now t =
      if contains_key peer t.nodes
      then (t, false)
      else (let fresh = Node.new F peer role now in
          find_parent_for_peer peer
            (record t { nodes = insert peer (record fresh { bandwidth = bandwidth }) t.nodes }))

  -- The peer out of its parent's children, and out of the tree.
  unfoldable pub detach : P → TreeNode F P → StreamTree F P → StreamTree F P
  detach peer n t =
      let left : List (P × TreeNode F P) = elim n.parent [
        | none ↦ t.nodes
        | some parent ↦ modify parent (remove_child F peer) t.nodes
      ] in
      record t { nodes = remove peer left }

  -- `for child_id in children`
  unfoldable pub reconnect_children : List P → StreamTree F P → StreamTree F P
  reconnect_children [] t = t
  reconnect_children (child ∷ children) t =
      reconnect_children children
        (find_parent_for_peer child
          (record t { nodes = modify child (λ n. record n { parent = none }) t.nodes })).0

  abbrev pub is_source : P → StreamTree F P → Bool
  is_source peer t = elim t.source [ none ↦ false | some source ↦ peer == source ]

  unfoldable pub remove_peer : P → StreamTree F P → StreamTree F P × Bool
  unfolding detach
  remove_peer peer t = elim (get peer t.nodes) [
    | none ↦ (t, false)
    | some n ↦
        if is_source peer t
        then (t, false)
        else (reconnect_children n.children (detach peer n t), true)
  ]

  unfoldable pub cleanup_disconnected_nodes : ℕ → ℕ → StreamTree F P → StreamTree F P
  unfolding unexpired
  cleanup_disconnected_nodes grace now t = record t {
    disconnected_nodes = unexpired F grace now t.disconnected_nodes;
  }

  unfoldable pub handle_temporary_disconnect : P → ℕ → ℕ → StreamTree F P → StreamTree F P × Bool
  unfolding detach
  handle_temporary_disconnect peer grace now t = elim (get peer t.nodes) [
    | none ↦ (t, false)
    | some n ↦
        if is_source peer t
        then (t, false)
        else (let saved = record t {
          disconnected_nodes = insert peer (n, now) t.disconnected_nodes;
        } in
            (
              cleanup_disconnected_nodes grace now
                  (reconnect_children n.children (detach peer n saved)),
              true,
            ))
  ]

  unfoldable pub handle_reconnection : P → StreamTree F P → StreamTree F P × Bool
  handle_reconnection peer t = elim (get peer t.disconnected_nodes) [
    | none ↦ (t, false)
    | some (n, time) ↦
        let back = record_success F (record n { parent = none; children = [] }) in
        (
          (find_parent_for_peer peer (record t {
            disconnected_nodes = remove peer t.disconnected_nodes;
            nodes = insert peer back t.nodes;
          })).0,
          true,
        )
  ]

  -- The loop of `get_path_to_peer`: it pushes the peer and goes on to its parent. `none` means that
  -- the fuel ran out.
  unfoldable pub path_loop : ℕ → P → List P → StreamTree F P → Option (List P)
  path_loop zero current path t = none
  path_loop (suc fuel) current path t = elim (get current t.nodes) [
    | none ↦ some path
    | some n ↦ elim n.parent [
      | none ↦ some (path ++ current ∷ [])
      | some parent ↦ path_loop fuel parent (path ++ current ∷ []) t
    ]
  ]

  -- The outer option is the fuel's; the inner one is the method's.
  unfoldable pub get_path_to_peer : ℕ → P → StreamTree F P → Option (Option (List P))
  unfolding path_loop
  get_path_to_peer fuel peer t =
      if contains_key peer t.nodes
      then elim (path_loop fuel peer [] t) [
        | none ↦ none
        | some path ↦ some (some_path (reverse path))
      ]
      else some none
