-- ===== src/Overlay/Tree/Rebalance.antt =====
-- `StreamTree::rebalance` of core/src/overlay/tree.rs, with its scores, and the tree's statistics.
use open_broadcast_network.Prelude.{
  ℕ, ◌-◌, ◌/◌, Bool, true, false, not, ◌&&◌, ◌||◌, Option, none, some, List, [], ◌∷◌, length, take,
  min, max, add64, Eq, ◌==◌, ltb, leb, nat_beq, if◌then◌else◌,
}
use open_broadcast_network.Prelude.Maps.{get, modify}
use open_broadcast_network.Overlay.Floats.{Floats}
use open_broadcast_network.Overlay.Geo.{GeoLocation, distance_to, is_same_region}
use open_broadcast_network.Overlay.Tree.Node.{
  TreeNode, can_accept_children, add_child, remove_child,
}
use open_broadcast_network.Overlay.Tree.Stream.{
  RelayScoreWeights, TopologyConfig, StreamTree, is_some, find_parent_for_peer,
}

module _ (F : Floats) where
  -- `MAX_EARTH_DISTANCE_KM` is 20000.
  unfoldable pub distance_score : TopologyConfig F → GeoLocation F → GeoLocation F → F.F32
  distance_score config loc1 loc2 =
      let one = F.literal64 1 1 in
      let share = F.div64 (distance_to F loc1 loc2) (F.literal64 20_000 1) in
      let score = F.to_f32 (F.max64 (F.sub64 one share) (F.literal64 0 1)) in
      if config.prefer_same_region && is_same_region F loc1 loc2
      then F.min32 (F.mul32 score (F.literal32 12 10)) (F.literal32 1 1)
      else score

  unfoldable pub located_score :
      TopologyConfig F → Option (GeoLocation F) → Option (GeoLocation F) → F.F32
  unfolding distance_score
  located_score config (some loc1) (some loc2) = distance_score config loc1 loc2
  located_score config _ _ = F.literal32 5 10

module _ (F : Floats) {P : Type 0} where
  unfoldable pub calculate_geo_score : TopologyConfig F → TreeNode F P → TreeNode F P → F.F32
  unfolding located_score
  calculate_geo_score config node1 node2 =
      if config.enable_geo_aware
      then located_score F config node1.location node2.location
      else F.literal32 5 10

  unfoldable pub calculate_candidate_score :
      TopologyConfig F → TreeNode F P → TreeNode F P → RelayScoreWeights F → ℕ → F.F32
  unfolding calculate_geo_score
  calculate_candidate_score config candidate child weights max_depth =
      let one = F.literal32 1 1 in
      let depth_score =
        if ltb 0 max_depth
        then F.sub32 one (F.div32 (F.from_nat32 candidate.depth) (F.from_nat32 max_depth))
        else one in
      let bw_score =
        if ltb 0 candidate.bandwidth
        then F.to_f32 (
            F.min64 (F.div64 (F.log10 (F.from_nat64 candidate.bandwidth)) (F.literal64 10 1))
              (F.literal64 1 1))
        else F.literal32 0 1 in
      let lat_score =
        if ltb candidate.latency 500
        then F.sub32 one (F.div32 (F.from_nat32 candidate.latency) (F.literal32 500 1))
        else F.literal32 0 1 in
      F.add32
        (F.add32
          (F.add32 (F.mul32 depth_score weights.quality_weight)
            (F.mul32 bw_score weights.bandwidth_weight))
          (F.mul32 lat_score weights.latency_weight))
        (F.mul32 (calculate_geo_score config candidate child) weights.geo_weight)

  unfoldable pub is_overloaded : TreeNode F P → Bool
  is_overloaded n =
      ltb 200 n.latency && ltb 1 (length n.children)
      || (leb (n.max_children - 1) (length n.children)
          || F.lt32 n.connection_quality (F.literal32 7 10))

  unfoldable pub is_candidate : TreeNode F P → Bool
  is_candidate n =
      can_accept_children F n
      && (ltb (length n.children) (n.max_children - 1)
          && F.lt32 (F.literal32 8 10) n.connection_quality)

  -- The ids of the nodes that pass a test.
  unfoldable pub ids_of : (TreeNode F P → Bool) → List (P × TreeNode F P) → List P
  ids_of test [] = []
  ids_of test ((id, n) ∷ rest) = if test n then id ∷ ids_of test rest else ids_of test rest

  -- How many children a node gives up at most.
  unfoldable pub to_move : TreeNode F P → ℕ
  to_move n =
      if F.lt32 n.connection_quality (F.literal32 5 10)
      then max (length n.children) 1 / 2
      else max (length n.children) 1 / 3

-- `best_parent` and `best_score` of the inner loop.
pub record BestScore (F : Floats) (P : Type 0) : Type 0 where
  pub parent : Option P
  pub score : F.F32

module _ (F : Floats) {P : Type 0} ⦃e : Eq P⦄ where
  unfoldable pub consider : StreamTree F P → P → TreeNode F P → P → BestScore F P → BestScore F P
  consider t child child_node candidate best =
      if candidate == child then best else elim (get candidate t.nodes) [
        | none ↦ best
        | some n ↦
            let score =
              calculate_candidate_score F t.config n child_node t.config.score_weights
                t.config.max_tree_depth in
            if can_accept_children F n && F.lt32 best.score score
            then record { parent = some candidate; score = score }
            else best
      ]

  unfoldable pub best_candidate :
      StreamTree F P → P → TreeNode F P → List P → BestScore F P → BestScore F P
  best_candidate t child child_node [] best = best
  best_candidate t child child_node (c ∷ cs) best =
      best_candidate t child child_node cs (consider t child child_node c best)

  abbrev pub depth_of : P → List (P × TreeNode F P) → ℕ
  depth_of p nodes = elim (get p nodes) [ none ↦ 0 | some n ↦ n.depth ]

  unfoldable pub move_to : P → P → P → StreamTree F P → StreamTree F P
  move_to overloaded child parent t =
      let moved =
        modify parent (add_child F child) (modify overloaded (remove_child F child) t.nodes) in
      record t {
        nodes =
            modify child
              (λ n. record n { parent = some parent; depth = add64 (depth_of parent moved) 1 })
              moved;
      }

  unfoldable pub move_child : P → List P → P → StreamTree F P × Bool → StreamTree F P × Bool
  move_child overloaded candidates child (t, changed) = elim (get child t.nodes) [
    | none ↦ (t, changed)
    | some child_node ↦
        elim (best_candidate t child child_node candidates
          (record { parent = none; score = F.neg_infinity32 })).parent [
            | none ↦ (t, changed)
            | some parent ↦ (move_to overloaded child parent t, true)
          ]
  ]

  unfoldable pub move_children : P → List P → List P → StreamTree F P × Bool → StreamTree F P × Bool
  move_children overloaded candidates [] r = r
  move_children overloaded candidates (child ∷ children) r =
      move_children overloaded candidates children (move_child overloaded candidates child r)

  unfoldable pub relieve_node : List P → P → StreamTree F P × Bool → StreamTree F P × Bool
  relieve_node candidates overloaded r = elim (get overloaded r.0.nodes) [
    | none ↦ r
    | some n ↦
        move_children overloaded candidates
          (take (min (to_move F n) (length n.children)) n.children) r
  ]

  unfoldable pub relieve : List P → List P → StreamTree F P × Bool → StreamTree F P × Bool
  relieve candidates [] r = r
  relieve candidates (overloaded ∷ others) r =
      relieve candidates others (relieve_node candidates overloaded r)

  unfoldable pub is_orphan : Option P → P → TreeNode F P → Bool
  is_orphan source id n =
      not (is_some n.parent) && elim source [ none ↦ false | some src ↦ not (id == src) ]

  unfoldable pub orphans : Option P → List (P × TreeNode F P) → List P
  orphans source [] = []
  orphans source ((id, n) ∷ rest) =
      if is_orphan source id n then id ∷ orphans source rest else orphans source rest

  unfoldable pub adopt : List P → StreamTree F P × Bool → StreamTree F P × Bool
  adopt [] r = r
  adopt (id ∷ ids) (t, changed) =
      let (t', found) = find_parent_for_peer F id t in adopt ids (t', found || changed)

  unfoldable pub rebalance : ℕ → StreamTree F P → StreamTree F P × Bool
  unfolding orphans
  rebalance now t =
      let t' = record t { last_rebalanced = now; rebalance_count = add64 t.rebalance_count 1 } in
      let overloaded = ids_of F (is_overloaded F) t.nodes in
      let candidates = ids_of F (is_candidate F) t.nodes in
      if nat_beq (length candidates) 0 || nat_beq (length overloaded) 0
      then (t', false)
      else (let moved = relieve candidates overloaded (t', false) in
          adopt (orphans moved.0.source moved.0.nodes) moved)
