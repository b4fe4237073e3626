-- ===== src/Overlay/Tree/Links.antt =====
-- Parents, children and depths in core/src/overlay/tree.rs while peers join.
pub mod Joins
use open_broadcast_network.Prelude.{
  ℕ, suc, ◌+◌, ◌-◌, ◌^◌, ◌≤◌, ◌<◌, ◌≡◌, refl, sym, ◌∙◌, ◌≢◌, ◌⊎◌, inl, inr, Bool, true, false, not,
  ◌&&◌, ◌||◌, Option, none, some, List, [], ◌∷◌, add64, add64_small, Eq, ◌==◌, beq_refl,
  if◌then◌else◌, Bool-cases, Option-cases, arith,
}
use open_broadcast_network.Prelude.Maps.{
  get, insert, modify, contains_key, contains, set_insert, get-insert, get-modify_found,
  contains_key-get,
}
use open_broadcast_network.Prelude.Maps.Sets.{contains-set_insert}
use open_broadcast_network.Prelude.Maps.Distinct.{Distinct, Distinct-insert, Distinct-modify}
use open_broadcast_network.Overlay.Floats.{Floats}
use open_broadcast_network.Overlay.Tree.Node.{TreeNode, can_accept_children, add_child}
use open_broadcast_network.Overlay.Tree.Stream.{StreamTree, attach}

module _ {F : Floats} {P : Type 0} ⦃e : Eq P⦄ where
  -- Each peer is there once. A peer's parent is in the tree, has it as a child, and is one step less
  -- deep; a peer's child is in the tree and has it as its parent; and no peer is deeper than `k`.
  pub record Linked (k : ℕ) (nodes : List (P × TreeNode F P)) : Type 0 where
    pub distinct : Distinct nodes
    pub up :
        (id p : P) (n : TreeNode F P)
        → get id nodes ≡ some n
        → n.parent ≡ some p
        → (m : TreeNode F P) × (get p nodes ≡ some m)
          × (contains id m.children ≡ true)
          × (n.depth ≡ m.depth + 1)
    pub down :
        (id c : P) (n : TreeNode F P)
        → get id nodes ≡ some n
        → contains c n.children ≡ true
        → (m : TreeNode F P) × (get c nodes ≡ some m) × (m.parent ≡ some id)
    pub shallow : (id : P) (n : TreeNode F P) → get id nodes ≡ some n → n.depth ≤ k

  pub empty-Linked : (k : ℕ) → Linked k []
  unfolding get
  empty-Linked k = record {
    distinct = tt;
    up = λ id p n h. cc;
    down = λ id c n h. cc;
    shallow = λ id n h. cc;
  }

  module _ (k : ℕ) (peer : P) (leaf : TreeNode F P) (nodes : List (P × TreeNode F P))
      (linked : Linked k nodes) where
    -- A peer without parent and children joins.
    pub leaf-Linked :
        get peer nodes ≡ none
        → leaf.parent ≡ none
        → leaf.children ≡ []
        → leaf.depth ≡ 0
        → Linked k (insert peer leaf nodes)
    unfolding contains
    leaf-Linked missing root alone top = record {
      distinct = Distinct-insert peer leaf nodes linked.distinct;
      up = λ id p n h q.
          let old : get id nodes ≡ some n = ground (arith, get-insert peer id leaf nodes) in
          let (m, there, child, depth) = linked.up id p n old q in
          (m, ground (arith, get-insert peer p leaf nodes, e.beq_iff peer p), child, depth);
      down = λ id c n h q.
          let old : get id nodes ≡ some n = ground (arith, get-insert peer id leaf nodes) in
          let (m, there, up) = linked.down id c n old q in
          (m, ground (arith, get-insert peer c leaf nodes, e.beq_iff peer c), up);
      shallow = λ id n h. ground (arith, get-insert peer id leaf nodes, linked.shallow id n);
    }

  module _ (k : ℕ) (peer parent : P) (leaf host : TreeNode F P) (t : StreamTree F P)
      (linked : Linked k t.nodes) (at_peer : get peer t.nodes ≡ some leaf)
      (at_parent : get parent t.nodes ≡ some host) (root : leaf.parent ≡ none)
      (alone : leaf.children ≡ []) (accepts : can_accept_children F host ≡ true)
      (other : (parent == peer) ≡ false) (room : k + 1 < 2 ^ 64) where
    placed : TreeNode F P
    placed = record leaf { parent = some parent; depth = host.depth + 1 }

    hosting : TreeNode F P
    hosting = record host { children = set_insert peer host.children }

    attached : List (P × TreeNode F P)
    attached = (attach F peer parent host.depth t).nodes

    place : TreeNode F P → TreeNode F P
    place n = record n { parent = some parent; depth = add64 host.depth 1 }

    place_leaf : place leaf ≡ placed
    unfolding place placed
    place_leaf = ground (arith, add64_small host.depth 1, linked.shallow parent host at_parent)

    host_leaf : add_child F peer host ≡ hosting
    unfolding add_child hosting
    host_leaf = ground (arith, accepts)

    peer_kept : get peer (modify parent (add_child F peer) t.nodes) ≡ some leaf
    peer_kept =
        get-modify_found parent peer (add_child F peer) t.nodes at_parent ∙ rw (other) at_peer

    get-attached :
        (j : P)
        → get j attached
          ≡ (if peer == j then some placed else if parent == j then some hosting else get j t.nodes)
    unfolding attached attach place
    get-attached j =
        get-modify_found peer j place (modify parent (add_child F peer) t.nodes) peer_kept
        ∙ rw (place_leaf, get-modify_found parent j (add_child F peer) t.nodes at_parent, host_leaf)

    -- Who has a child, or is one, is not the peer that joins.
    has_child :
        (p c : P) (m : TreeNode F P)
        → get p t.nodes ≡ some m
        → contains c m.children ≡ true
        → (peer == p) ≡ false
    unfolding contains
    has_child p c m h q = ground (arith, e.beq_iff peer p)

    is_child :
        (c p : P) (m : TreeNode F P)
        → get c t.nodes ≡ some m
        → m.parent ≡ some p
        → (peer == c) ≡ false
    is_child c p m h q = ground (arith, e.beq_iff peer c)

    -- Every other peer is there as before; the parent has one child more.
    old_attached :
        (p : P) (m : TreeNode F P)
        → get p t.nodes ≡ some m
        → (peer == p) ≡ false
        → (m' : TreeNode F P) × (get p attached ≡ some m')
          × (m'.parent ≡ m.parent)
          × (m'.depth ≡ m.depth)
          × ((c : P) → contains c m.children ≡ true → contains c m'.children ≡ true)
    unfolding hosting
    old_attached p m h q = elim (Bool-cases (parent == p)) [
      | inl is_parent ↦ (
        hosting,
        ground (arith, get-attached p),
        ground (arith, e.beq_iff parent p),
        ground (arith, e.beq_iff parent p),
        λ c r. ground (arith, e.beq_iff parent p, contains-set_insert peer c host.children),
      )
      | inr elsewhere ↦ (m, ground (arith, get-attached p), refl, refl, λ c r. r)
    ]

    up_attached :
        (id p : P) (n : TreeNode F P)
        → get id attached ≡ some n
        → n.parent ≡ some p
        → (m : TreeNode F P) × (get p attached ≡ some m)
          × (contains id m.children ≡ true)
          × (n.depth ≡ m.depth + 1)
    unfolding placed hosting
    up_attached id p n h q = elim (Bool-cases (peer == id)) [
      | inl is_peer ↦ (
        hosting,
        ground (
          arith,
          get-attached id,
          get-attached p,
          e.beq_iff parent p,
          e.beq_iff peer p,
          e.beq_iff parent peer,
        ),
        ground (arith, contains-set_insert peer id host.children),
        ground (arith, get-attached id),
      )
      | inr not_peer ↦ elim (Bool-cases (parent == id)) [
        | inl is_parent ↦
            let up : host.parent ≡ some p = ground (arith, get-attached id) in
            let (m, there, child, depth) = linked.up parent p host at_parent up in
            let (m', there', same, level, more) =
              old_attached p m there (has_child p parent m there child) in
            (
              m',
              there',
              more id (ground (arith, e.beq_iff parent id)),
              ground (arith, get-attached id),
            )
        | inr not_parent ↦
            let old : get id t.nodes ≡ some n = ground (arith, get-attached id) in
            let (m, there, child, depth) = linked.up id p n old q in
            let (m', there', same, level, more) =
              old_attached p m there (has_child p id m there child) in
            (m', there', more id child, omega arith)
      ]
    ]

    old_down :
        (id c : P) (n : TreeNode F P)
        → get id t.nodes ≡ some n
        → contains c n.children ≡ true
        → (m : TreeNode F P) × (get c attached ≡ some m) × (m.parent ≡ some id)
    old_down id c n h q =
        let (m, there, up) = linked.down id c n h q in
        let (m', there', same, level, more) = old_attached c m there (is_child c id m there up) in
        (m', there', same ∙ up)

    down_attached :
        (id c : P) (n : TreeNode F P)
        → get id attached ≡ some n
        → contains c n.children ≡ true
        → (m : TreeNode F P) × (get c attached ≡ some m) × (m.parent ≡ some id)
    unfolding placed hosting contains
    down_attached id c n h q = elim (Bool-cases (peer == id)) [
      | inl is_peer ↦ absurd (ground (arith, get-attached id))
      | inr not_peer ↦ elim (Bool-cases (parent == id)) [
        | inl is_parent ↦ elim (Bool-cases (peer == c)) [
          | inl new ↦ (placed, ground (arith, get-attached c), ground (arith, e.beq_iff parent id))
          | inr old ↦
              let (m, there, up) =
                old_down parent c host at_parent
                  (ground (arith, get-attached id, contains-set_insert peer c host.children)) in
              (m, there, ground (arith, e.beq_iff parent id))
        ]
        | inr not_parent ↦ old_down id c n (ground (arith, get-attached id)) q
      ]
    ]

    -- The new link keeps the others, and goes one step deeper at most.
    pub attach-Linked : Linked (k + 1) (attach F peer parent host.depth t).nodes
    unfolding attached attach placed hosting
    attach-Linked = record {
      distinct = Distinct-modify peer _ _ (Distinct-modify parent _ t.nodes linked.distinct);
      up = up_attached;
      down = down_attached;
      shallow = λ id n h.
          ground
            (arith, get-attached id, linked.shallow id n, linked.shallow parent host at_parent);
    }
