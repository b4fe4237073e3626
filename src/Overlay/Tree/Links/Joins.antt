-- ===== src/Overlay/Tree/Links/Joins.antt =====
-- A tree of core/src/overlay/tree.rs that peers only joined, as core/src/overlay/topology/manager.rs
-- adds them.
use mathlib.Core.Path.{subst}
use open_broadcast_network.Prelude.{
  ℕ, ◌+◌, ◌^◌, ◌<◌, ◌≤◌, ◌≡◌, beq_refl, le→ltb_false, refl, inl, inr, false, not, ◌&&◌, Option,
  none, some, List, [], ◌∷◌, length, Eq, Bool-cases, arith,
}
use open_broadcast_network.Prelude.Maps.{get, insert, contains_key, get-insert, contains_key-get}
use open_broadcast_network.Overlay.Floats.{Floats}
use open_broadcast_network.Overlay.Peer.{PeerRole, is_publisher}
use open_broadcast_network.Overlay.Topology.{
  TopologyManager, claim_source, tree_of, rebalance_over, add_peer_to_stream,
}
use open_broadcast_network.Prelude.Bytes.{bytes_eq}
use open_broadcast_network.Overlay.Tree.Node
use open_broadcast_network.Overlay.Tree.Node.{TreeNode}
use open_broadcast_network.Overlay.Tree.Stream
use open_broadcast_network.Overlay.Tree.Stream.{
  is_some, TopologyConfig, StreamTree, attach, best_parent, no_parent, set_source,
  find_parent_for_peer, add_peer,
}
use open_broadcast_network.Overlay.Tree.Search.{find_parent_cases, best_parent_host}
use open_broadcast_network.Overlay.Tree.Links.{Linked, empty-Linked, leaf-Linked, attach-Linked}

module _ {F : Floats} {P : Type 0} ⦃e : Eq P⦄ where
  weaken : (k : ℕ) (nodes : List (P × TreeNode F P)) → Linked k nodes → Linked (k + 1) nodes
  weaken k nodes h = record {
    distinct = h.distinct;
    up = h.up;
    down = h.down;
    shallow = λ id n q. omega (arith, h.shallow id n q);
  }

  missing :
      (p : P) (nodes : List (P × TreeNode F P)) → contains_key p nodes ≡ false → get p nodes ≡ none
  missing p nodes h = ground (arith, contains_key-get p nodes)

  place_leaf :
      (k : ℕ) (peer : P) (leaf : TreeNode F P) (t : StreamTree F P)
      → Linked k t.nodes
      → get peer t.nodes ≡ some leaf
      → leaf.parent ≡ none
      → leaf.children ≡ []
      → k + 1 < 2 ^ 64
      → Linked (k + 1) (find_parent_for_peer F peer t).0.nodes
  place_leaf k peer leaf t h there root alone room = elim (find_parent_cases F peer t) [
    | inl same ↦ rw same (weaken k t.nodes h)
    | inr (parent, best, q) ↦
        let (host, at_parent, accepts, other, depth) =
          best_parent_host F peer parent t.nodes h.distinct best in
        rw (q, ← depth)
          (attach-Linked k peer parent leaf host t h there at_parent root alone accepts other room)
  ]

  add_peer-Linked :
      (k : ℕ) (p : P) (role : PeerRole) (bandwidth now : ℕ) (t : StreamTree F P)
      → Linked k t.nodes
      → k + 1 < 2 ^ 64
      → Linked (k + 1) (add_peer F p role bandwidth now t).0.nodes
  unfolding add_peer Node.new
  add_peer-Linked k p role bandwidth now t h room = elim (Bool-cases (contains_key p t.nodes)) [
    | inl there ↦ rw (there, add_peer) (weaken k t.nodes h)
    | inr fresh ↦
        let base : TreeNode F P = Node.new F p role now in
        let leaf : TreeNode F P = record base { bandwidth = bandwidth } in
        rw (fresh, add_peer)
          (place_leaf k p leaf (record t { nodes = insert p leaf t.nodes })
            (leaf-Linked k p leaf t.nodes h (missing p t.nodes fresh) refl refl refl)
            (ground (arith, get-insert p p leaf t.nodes, e.beq_iff p p)) refl refl room)
  ]

-- A peer that joins: its id, role and bandwidth, and the clock's reading.
pub record Join (P : Type 0) : Type 0 where
  pub peer : P
  pub role : PeerRole
  pub bandwidth : ℕ
  pub now : ℕ

module _ (F : Floats) {P : Type 0} ⦃e : Eq P⦄ where
  -- What `add_peer_to_stream` of the manager does to a tree that is not due for rebalancing: the first
  -- publisher becomes the source of a tree that has none.
  unfoldable pub join : Join P → StreamTree F P → StreamTree F P
  unfolding claim_source
  join j t = (add_peer F j.peer j.role j.bandwidth j.now (claim_source F j.peer j.role t)).0

  unfoldable pub join_all : List (Join P) → StreamTree F P → StreamTree F P
  unfolding join
  join_all [] t = t
  join_all (j ∷ js) t = join_all js (join j t)

  claim_source-Linked :
      (k : ℕ) (p : P) (role : PeerRole) (t : StreamTree F P)
      → Linked k t.nodes
      → Linked k (claim_source F p role t).nodes
  unfolding claim_source
  claim_source-Linked k p role t h =
      elim (Bool-cases (is_publisher role && not (is_some t.source))) [
        | inl claims ↦ rw claims h
        | inr has_one ↦ rw has_one h
      ]

  join_all-Linked :
      (js : List (Join P)) (k : ℕ) (t : StreamTree F P)
      → Linked k t.nodes
      → k + length js < 2 ^ 64
      → Linked (k + length js) (join_all js t).nodes
  unfolding join_all join
  join_all-Linked [] k t h room = subst (λ (m : ℕ). Linked m t.nodes) (omega arith) h
  join_all-Linked (j ∷ js) k t h room =
      let claimed = claim_source-Linked k j.peer j.role t h in
      subst (λ (m : ℕ). Linked m (join_all js (join j t)).nodes) (omega arith)
        (join_all-Linked js (k + 1) (join j t)
          (add_peer-Linked k j.peer j.role j.bandwidth j.now (claim_source F j.peer j.role t)
            claimed (omega arith))
          (omega arith))

  -- A new tree, whose owner may set a source first, and the peers that then join.
  unfoldable pub build : List ℕ → TopologyConfig F → Option P → ℕ → List (Join P) → StreamTree F P
  build id config none now js = join_all js (Stream.new F id config now)
  build id config (some source) now js =
      join_all js (set_source F source now (Stream.new F id config now)).0

  pub build-Linked :
      (id : List ℕ) (config : TopologyConfig F) (first : Option P) (now : ℕ) (js : List (Join P))
      → length js < 2 ^ 64
      → Linked (length js) (build id config first now js).nodes
  unfolding build set_source Stream.new Node.source
  build-Linked id config none now js room =
      subst (λ (m : ℕ). Linked m (build id config none now js).nodes) (omega arith)
        (join_all-Linked js 0 (Stream.new F id config now) (empty-Linked 0) (omega arith))
  build-Linked id config (some source) now js room =
      subst (λ (m : ℕ). Linked m (build id config (some source) now js).nodes) (omega arith)
        (join_all-Linked js 0 (set_source F source now (Stream.new F id config now)).0
          (leaf-Linked 0 source (Node.source F source now) [] (empty-Linked 0) (unfold get in refl)
            refl refl refl)
          (omega arith))

module _ (F : Floats) {P Q : Type 0} ⦃e : Eq P⦄ where
  -- The tree of a stream after the manager has added a peer to it and has not rebalanced it.
  add_peer_to_stream-join :
      (stream_id : List ℕ) (p : P) (role : PeerRole) (now : ℕ) (m : TopologyManager F P Q)
      → let j : Join P = record {
        peer = p;
        role = role;
        bandwidth = m.config.default_bandwidth;
        now = now;
      } in
        let joined = join F j (tree_of F stream_id now m) in
        length joined.nodes ≤ m.config.rebalance_threshold
        → get stream_id (add_peer_to_stream F stream_id p role now m).trees ≡ some joined
  unfolding add_peer_to_stream rebalance_over join
  add_peer_to_stream-join stream_id p role now m small =
      let joined =
        (add_peer F p role m.config.default_bandwidth now
          (claim_source F p role (tree_of F stream_id now m))).0 in
      rw
        (
          get-insert stream_id stream_id,
          beq_refl stream_id,
          le→ltb_false m.config.rebalance_threshold (length joined.nodes) small,
        )
        refl
