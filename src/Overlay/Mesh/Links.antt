-- ===== src/Overlay/Mesh/Links.antt =====
-- The links of core/src/overlay/mesh/network.rs: who has whom among its connections.
use open_broadcast_network.Prelude.{
  ◌≡◌, refl, ap, ◌∙◌, Bool, true, false, ◌&&◌, ◌||◌, Option, none, some, List, Eq, ◌==◌, Bool-cases,
  inl, inr, arith,
}
use open_broadcast_network.Prelude.Maps.{contains, get, modify, get-modify, get-modify_found}
use open_broadcast_network.Prelude.Maps.Sets.{contains-set_insert}
use open_broadcast_network.Overlay.Mesh.Network.{MeshNode, can_accept_connections, connect}

module _ {P : Type 0} ⦃e : Eq P⦄ where
  -- Whether the first peer has the second among its connections.
  abbrev pub linked : List (P × MeshNode P) → P → P → Bool
  linked nodes p q = elim (get p nodes) [ none ↦ false | some n ↦ contains q n.peers ]

  -- Whether a peer is there and has room.
  abbrev pub accepts : List (P × MeshNode P) → P → Bool
  accepts nodes p = elim (get p nodes) [ none ↦ false | some n ↦ can_accept_connections n ]

  -- Every link has its other side.
  abbrev pub Mutual : List (P × MeshNode P) → Type 0
  Mutual nodes = (p q : P) → linked nodes p q ≡ true → linked nodes q p ≡ true

  pub linked-connect :
      (k j p q : P) (nodes : List (P × MeshNode P))
      → accepts nodes k ≡ true
      → linked (modify k (connect j) nodes) p q ≡ (linked nodes p q || (k == p && j == q))
  unfolding connect
  linked-connect k j p q nodes room = go (get k nodes) refl
    where
      go :
          (o : Option (MeshNode P))
          → get k nodes ≡ o
          → linked (modify k (connect j) nodes) p q ≡ (linked nodes p q || (k == p && j == q))
      go none at = ground (arith, room, at)
      go (some n) at = elim (Bool-cases (k == p)) [
        | inl same ↦ ground (
          arith,
          get-modify_found k p (connect j) nodes at,
          at,
          room,
          same,
          e.beq_iff k p,
          contains-set_insert j q n.peers,
        )
        | inr other ↦ ground (arith, get-modify k p (connect j) nodes, other)
      ]

  pub accepts-connect_other :
      (k j p : P) (nodes : List (P × MeshNode P))
      → (k == p) ≡ false
      → accepts (modify k (connect j) nodes) p ≡ accepts nodes p
  accepts-connect_other k j p nodes other = ground (arith, get-modify k p (connect j) nodes, other)

  -- Both sides of a link.
  pub linked-link :
      (a b p q : P) (nodes : List (P × MeshNode P))
      → accepts nodes a ≡ true
      → accepts nodes b ≡ true
      → (b == a) ≡ false
      → linked (modify a (connect b) (modify b (connect a) nodes)) p q
        ≡ ((linked nodes p q || (b == p && a == q)) || (a == p && b == q))
  linked-link a b p q nodes ra rb other =
      linked-connect a b p q (modify b (connect a) nodes)
        (accepts-connect_other b a a nodes other ∙ ra)
      ∙ ap (λ l. l || (a == p && b == q)) (linked-connect b a p q nodes rb)

  pub Mutual-link :
      (a b : P) (nodes : List (P × MeshNode P))
      → accepts nodes a ≡ true
      → accepts nodes b ≡ true
      → (b == a) ≡ false
      → Mutual nodes
      → Mutual (modify a (connect b) (modify b (connect a) nodes))
  Mutual-link a b nodes ra rb other h p q l =
      linked-link a b q p nodes ra rb other
      ∙ ground (arith, h p q, linked-link a b p q nodes ra rb other, l)
