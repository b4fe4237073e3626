-- ===== src/Overlay/Tree/Search.antt =====
-- What a search for a parent in core/src/overlay/tree.rs can do.
use open_broadcast_network.Prelude.{
  ◌-◌, ◌^◌, ◌≤◌, ◌<◌, ap, All-map, ◌≡◌, refl, sym, ◌⊎◌, inl, inr, true, false, Option, none, some,
  List, [], ◌∷◌, Eq, ◌==◌, All, if◌then◌else◌, Bool-cases, Option-cases, arith,
}
use open_broadcast_network.Prelude.Maps.Distinct.{Distinct, IsEntry, get_of_entry}
use open_broadcast_network.Prelude.Maps.{get}
use open_broadcast_network.Overlay.Tree.Node.{TreeNode, can_accept_children}
use open_broadcast_network.Overlay.Floats.{Floats}
use open_broadcast_network.Overlay.Tree.Stream.{
  StreamTree, Best, best_parent, no_parent, better, attach, find_parent_for_peer,
}

module _ (F : Floats) {P : Type 0} ⦃e : Eq P⦄ where
  -- A search for a parent changes nothing, or attaches the peer to the best parent.
  pub find_parent_cases :
      (peer : P) (t : StreamTree F P)
      → ((find_parent_for_peer F peer t).0 ≡ t)
        ⊎ ((parent : P) × ((best_parent F peer t.nodes no_parent).parent ≡ some parent)
            × ((find_parent_for_peer F peer t).0
                ≡ attach F peer parent (best_parent F peer t.nodes no_parent).depth t))
  unfolding find_parent_for_peer
  find_parent_cases peer t = go t.source refl
    where
      Cases : Type 0
      Cases =
          ((find_parent_for_peer F peer t).0 ≡ t)
          ⊎ ((parent : P) × ((best_parent F peer t.nodes no_parent).parent ≡ some parent)
              × ((find_parent_for_peer F peer t).0
                  ≡ attach F peer parent (best_parent F peer t.nodes no_parent).depth t))

      go : (s : Option P) → t.source ≡ s → Cases
      go none q = inl (ground arith)
      go (some source) q = elim (Bool-cases (peer == source)) [
        | inl same ↦ inl (ground arith)
        | inr other ↦ elim (Option-cases (best_parent F peer t.nodes no_parent).parent) [
          | inl nobody ↦ inl (ground arith)
          | inr (parent, b) ↦ inr (parent, b, ground arith)
        ]
      ]

  better_stays :
      (peer c : P) (n : TreeNode F P) (nodes : List (P × TreeNode F P)) (best : Best P)
      → better F peer c n best ≡ false
      → better F peer c n (best_parent F peer nodes best) ≡ false
  unfolding best_parent
  better_stays peer c n [] best h = h
  better_stays peer c n ((d, m) ∷ nodes) best h =
      better_stays peer c n nodes
        (if better F peer d m best
          then record { parent = some d; depth = m.depth; bandwidth = m.bandwidth }
          else best)
        (unfold better in ground arith)

  none_better :
      (peer : P) (nodes : List (P × TreeNode F P)) (best : Best P)
      → All (λ c. better F peer c.0 c.1 (best_parent F peer nodes best) ≡ false) nodes
  unfolding best_parent
  none_better peer [] best = tt
  none_better peer ((d, m) ∷ nodes) best =
      let best' : Best P =
        (if better F peer d m best
          then record { parent = some d; depth = m.depth; bandwidth = m.bandwidth }
          else best) in
      (
        better_stays peer d m nodes best' (unfold better in ground arith),
        none_better peer nodes best',
      )

  -- The peer `p` is an entry of the tree that can take the child, and its depth and bandwidth are
  -- those of `best`.
  abbrev pub Offers : P → P → Best P → List (P × TreeNode F P) → Type 0
  Offers peer p best nodes =
      (n : TreeNode F P) × IsEntry p n nodes
      × (can_accept_children F n ≡ true)
      × ((p == peer) ≡ false)
      × (n.depth ≡ best.depth)
      × (n.bandwidth ≡ best.bandwidth)

  Offers-more :
      (peer p : P) (best : Best P) (c : P × TreeNode F P) (nodes : List (P × TreeNode F P))
      → Offers peer p best nodes
      → Offers peer p best (c ∷ nodes)
  Offers-more peer p best c nodes (n, entry, a, o, d, w) = (n, inr entry, a, o, d, w)

  first-Offers :
      (peer d p : P) (m : TreeNode F P) (nodes : List (P × TreeNode F P)) (best result : Best P)
      → better F peer d m best ≡ true
      → result ≡ record { parent = some d; depth = m.depth; bandwidth = m.bandwidth }
      → result.parent ≡ some p
      → Offers peer p result ((d, m) ∷ nodes)
  unfolding better
  first-Offers peer d p m nodes best result b q h =
      (m, inl (ground arith, refl), ground arith, ground (arith), ground arith, ground arith)

  best-Offers :
      (peer p : P) (nodes : List (P × TreeNode F P)) (best result : Best P)
      → best_parent F peer nodes best ≡ result
      → result.parent ≡ some p
      → (result ≡ best) ⊎ Offers peer p result nodes
  unfolding best_parent
  best-Offers peer p [] best result eq h = inl (sym eq)
  best-Offers peer p ((d, m) ∷ nodes) best result eq h =
      elim (Bool-cases (better F peer d m best)) [
        | inl wins ↦
            elim (best-Offers peer p nodes
              (record { parent = some d; depth = m.depth; bandwidth = m.bandwidth }) result
              (rw wins at eq) h) [
                | inl first ↦ inr (first-Offers peer d p m nodes best result wins first h)
                | inr later ↦ inr (Offers-more peer p result (d, m) nodes later)
              ]
        | inr loses ↦ elim (best-Offers peer p nodes best result (rw loses at eq) h) [
          | inl same ↦ inl same
          | inr later ↦ inr (Offers-more peer p result (d, m) nodes later)
        ]
      ]

  -- Nobody was chosen: the search stands where it began.
  none_chosen :
      (peer : P) (nodes : List (P × TreeNode F P)) (best : Best P)
      → (best_parent F peer nodes best).parent ≡ none
      → best_parent F peer nodes best ≡ best
  unfolding best_parent
  none_chosen peer [] best h = refl
  none_chosen peer ((d, m) ∷ nodes) best h = elim (Bool-cases (better F peer d m best)) [
    | inl wins ↦
        let picked : Best P = record {
          parent = some d;
          depth = m.depth;
          bandwidth = m.bandwidth;
        } in
        let k : (best_parent F peer nodes picked).parent ≡ none = rw (wins, best_parent) at h in
        absurd (ground (arith, none_chosen peer nodes picked k))
    | inr loses ↦ rw loses (none_chosen peer nodes best (rw (loses, best_parent) at h))
  ]

  -- The node `n` comes before the node `c` in the order of the search: it is shallower, or as deep
  -- and with at least the bandwidth.
  abbrev pub Precedes : TreeNode F P → TreeNode F P → Type 0
  Precedes n c = (n.depth < c.depth) ⊎ ((n.depth ≡ c.depth) × (c.bandwidth ≤ n.bandwidth))

  Precedes-of_better :
      (peer c : P) (m n : TreeNode F P) (best : Best P)
      → better F peer c m best ≡ false
      → n.depth ≡ best.depth
      → n.bandwidth ≡ best.bandwidth
      → can_accept_children F m ≡ true
      → (c == peer) ≡ false
      → Precedes n m
  unfolding better
  Precedes-of_better peer c m n best b d w a o = ground arith

  full_of_better :
      (peer c : P) (m : TreeNode F P)
      → better F peer c m no_parent ≡ false
      → can_accept_children F m ≡ true
      → (c == peer) ≡ false
      → 2 ^ 64 - 1 ≤ m.depth
  unfolding better
  full_of_better peer c m b a o = ground arith

  -- The chosen parent, with the depth that was found for it.
  pub best_parent_host :
      (peer p : P) (nodes : List (P × TreeNode F P))
      → Distinct nodes
      → (best_parent F peer nodes no_parent).parent ≡ some p
      → (n : TreeNode F P) × (get p nodes ≡ some n)
        × (can_accept_children F n ≡ true)
        × ((p == peer) ≡ false)
        × (n.depth ≡ (best_parent F peer nodes no_parent).depth)
  best_parent_host peer p nodes d h =
      elim (best-Offers peer p nodes no_parent (best_parent F peer nodes no_parent) refl h) [
        | inl start ↦ absurd (ground (arith, ap Best.parent start))
        | inr (n, entry, accepts, other, depth, bandwidth) ↦
            (n, get_of_entry p n nodes d entry, accepts, other, depth)
      ]

  -- The search for a parent is right. If it chooses a peer, that peer is in the tree, is not the child
  -- itself and can accept children, and it precedes every other peer of which this is true: it is
  -- shallower, or as deep with at least the bandwidth. If it chooses nobody, then no other peer
  -- less than 2^64 - 1 deep can accept children.
  pub best_parent_optimal :
      (peer : P) (nodes : List (P × TreeNode F P))
      → Distinct nodes
      → ((p : P)
          → (best_parent F peer nodes no_parent).parent ≡ some p
          → (n : TreeNode F P) × (get p nodes ≡ some n)
            × (can_accept_children F n ≡ true)
            × ((p == peer) ≡ false)
            × All
                (λ c. can_accept_children F c.1 ≡ true → (c.0 == peer) ≡ false → Precedes n c.1)
                nodes)
        × ((best_parent F peer nodes no_parent).parent ≡ none
            → All
                (λ c.
                  can_accept_children F c.1 ≡ true → (c.0 == peer) ≡ false → 2 ^ 64 - 1 ≤ c.1.depth)
                nodes)
  best_parent_optimal peer nodes d = (
    λ p h. elim (best-Offers peer p nodes no_parent (best_parent F peer nodes no_parent) refl h) [
      | inl start ↦ absurd (ground (arith, ap Best.parent start))
      | inr (n, entry, accepts, other, depth, bandwidth) ↦ (
        n,
        get_of_entry p n nodes d entry,
        accepts,
        other,
        All-map
            (λ c b a o.
              Precedes-of_better peer c.0 c.1 n (best_parent F peer nodes no_parent) b depth
                bandwidth a o)
            nodes (none_better peer nodes no_parent),
      )
    ],
    λ h.
        All-map
          (λ c b a o.
            full_of_better peer c.0 c.1 (rw (none_chosen peer nodes no_parent h) at b) a o)
          nodes (none_better peer nodes no_parent),
  )
