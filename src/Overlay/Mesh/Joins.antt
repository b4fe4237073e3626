-- ===== src/Overlay/Mesh/Joins.antt =====
-- A mesh of core/src/overlay/mesh/network.rs that was built by `set_source` and `add_peer`.
use open_broadcast_network.Prelude.{
  ℕ, ◌≡◌, refl, Bool, true, false, not, ◌&&◌, ◌||◌, Option, none, some, List, [], ◌∷◌, Eq, ◌==◌,
  Bool-cases, Option-cases, inl, inr, All, All-map, beq_refl, arith,
}
use open_broadcast_network.Prelude.Maps.{contains, get, modify, contains_key}
use open_broadcast_network.Prelude.Maps.Distinct.{Distinct}
use open_broadcast_network.Overlay.Mesh.Network.{
  MeshNode, StreamMesh, can_accept_connections, sort_candidates, connect, candidates_for,
  connect_to_source, connect_candidate, connect_candidates, connect_peer_to_mesh,
}
use open_broadcast_network.Overlay.Mesh.Links.{
  linked, accepts, Mutual, linked-link, accepts-connect_other, Mutual-link,
}
use open_broadcast_network.Overlay.Mesh.Candidates.{sort_candidates-All, candidates_for-accepts}

module _ {P : Type 0} ⦃e : Eq P⦄ where
  -- A candidate that has room, or that the peer has already.
  abbrev IsOpen : P → P → List (P × MeshNode P) → Type 0
  IsOpen p c nodes = (accepts nodes c || linked nodes p c) ≡ true

  -- A new link leaves the other candidates open.
  IsOpen-link :
      (p c d : P) (nodes : List (P × MeshNode P))
      → accepts nodes c ≡ true
      → accepts nodes p ≡ true
      → (p == c) ≡ false
      → (d == p) ≡ false
      → IsOpen p d nodes
      → IsOpen p d (modify c (connect p) (modify p (connect c) nodes))
  IsOpen-link p c d nodes rc rp other away h = elim (Bool-cases (c == d)) [
    | inl same ↦ ground (arith, linked-link c p p d nodes rc rp other, same, beq_refl p)
    | inr apart ↦ ground (
      arith,
      linked-link c p p d nodes rc rp other,
      h,
      accepts-connect_other c p d (modify p (connect c) nodes) apart,
      accepts-connect_other p c d nodes (ground (arith, away, e.beq_iff d p, e.beq_iff p d)),
    )
  ]

  -- One round: the mesh stays mutual, and every candidate open.
  connect_candidate-Mutual :
      (p c : P) (r : StreamMesh P × Bool)
      → (c == p) ≡ false
      → IsOpen p c r.0.nodes
      → Mutual r.0.nodes
      → Mutual (connect_candidate p c r).0.nodes
        × ((d : P)
            → (d == p) ≡ false
            → IsOpen p d r.0.nodes
            → IsOpen p d (connect_candidate p c r).0.nodes)
  unfolding connect_candidate
  connect_candidate-Mutual p c (m, b) away open_c h = elim (Option-cases (get p m.nodes)) [
    | inl gone ↦ rw (gone, connect_candidate) (h, (λ d x y. y))
    | inr (node, there) ↦
        elim (Bool-cases (can_accept_connections node && not (contains c node.peers))) [
          | inr full ↦ rw (there, connect_candidate) (rw full (h, (λ d x y. y)))
          | inl room ↦
              let rc : accepts m.nodes c ≡ true = ground (arith, open_c, there, room) in
              let rp : accepts m.nodes p ≡ true = ground (arith, there, room) in
              let other : (p == c) ≡ false = ground (arith, away, e.beq_iff p c, e.beq_iff c p) in
              rw (there, connect_candidate)
                (rw room (
                  Mutual-link c p m.nodes rc rp other h,
                  (λ d x y. IsOpen-link p c d m.nodes rc rp other x y),
                ))
        ]
  ]

  connect_candidates-Mutual :
      (p : P) (cs : List (P × ℕ)) (r : StreamMesh P × Bool)
      → All (λ d. ((d.0 == p) ≡ false) × IsOpen p d.0 r.0.nodes) cs
      → Mutual r.0.nodes
      → Mutual (connect_candidates p cs r).0.nodes
  unfolding connect_candidates
  connect_candidates-Mutual p [] r os h = h
  connect_candidates-Mutual p ((c, b) ∷ cs) r ((away, open_c), os) h =
      let now = connect_candidate-Mutual p c r away open_c h in
      connect_candidates-Mutual p cs (connect_candidate p c r)
        (All-map (λ d x. (x.0, now.1 d.0 x.0 x.1)) cs os) now.0

  -- The link to the source: the mesh stays mutual, and every other peer with room is open.
  connect_to_source-Mutual :
      (p : P) (m : StreamMesh P)
      → accepts m.nodes p ≡ true
      → Mutual m.nodes
      → Mutual (connect_to_source p m).0.nodes
        × ((d : P)
            → (d == p) ≡ false
            → accepts m.nodes d ≡ true
            → IsOpen p d (connect_to_source p m).0.nodes)
  unfolding connect_to_source
  connect_to_source-Mutual p m rp h = go m.source refl
    where
      same_mesh : (d : P) → (d == p) ≡ false → accepts m.nodes d ≡ true → IsOpen p d m.nodes
      same_mesh d x y = ground (arith, y)

      IsOpen-source :
          (s d : P)
          → accepts m.nodes s ≡ true
          → (s == p) ≡ false
          → (d == p) ≡ false
          → IsOpen p d m.nodes
          → IsOpen p d (modify p (connect s) (modify s (connect p) m.nodes))
      IsOpen-source s d rs away x open_d = elim (Bool-cases (s == d)) [
        | inl same ↦ ground (arith, linked-link p s p d m.nodes rp rs away, same, beq_refl p)
        | inr apart ↦ ground (
          arith,
          linked-link p s p d m.nodes rp rs away,
          open_d,
          accepts-connect_other p s d (modify s (connect p) m.nodes)
              (ground (arith, x, e.beq_iff d p, e.beq_iff p d)),
          accepts-connect_other s p d m.nodes apart,
        )
      ]

      go :
          (o : Option P)
          → m.source ≡ o
          → Mutual (connect_to_source p m).0.nodes
            × ((d : P)
                → (d == p) ≡ false
                → accepts m.nodes d ≡ true
                → IsOpen p d (connect_to_source p m).0.nodes)
      go none q = rw (q, connect_to_source) (h, same_mesh)
      go (some s) q = elim (Bool-cases (s == p)) [
        | inl same ↦ rw (q, connect_to_source) (rw same (h, same_mesh))
        | inr away ↦ elim (Option-cases (get s m.nodes)) [
          | inl gone ↦ rw (q, connect_to_source) (rw (away, gone) (h, same_mesh))
          | inr (node, there) ↦ elim (Bool-cases (can_accept_connections node)) [
            | inr full ↦ rw (q, connect_to_source) (rw (away, there, full) (h, same_mesh))
            | inl room ↦
                let rs : accepts m.nodes s ≡ true = ground (arith, there, room) in
                let far : (p == s) ≡ false = ground (arith, away, e.beq_iff p s, e.beq_iff s p) in
                rw (q, connect_to_source)
                  (rw (away, there, room)
                    (
                      Mutual-link p s m.nodes rp rs away h,
                      (λ d x y. IsOpen-source s d rs away x (same_mesh d x y)),
                    ))
          ]
        ]
      ]

  pub connect_peer_to_mesh-Mutual :
      (p : P) (m : StreamMesh P)
      → Distinct m.nodes
      → accepts m.nodes p ≡ true
      → Mutual m.nodes
      → Mutual (connect_peer_to_mesh p m).0.nodes
  unfolding connect_peer_to_mesh
  connect_peer_to_mesh-Mutual p m d rp h = elim (Bool-cases (contains_key p m.nodes)) [
    | inr gone ↦ rw (gone, connect_peer_to_mesh) h
    | inl there ↦
        let first = connect_to_source-Mutual p m rp h in
        let cs = candidates_for p m.nodes in
        rw (there, connect_peer_to_mesh)
          (connect_candidates-Mutual p (sort_candidates cs) (connect_to_source p m)
            (sort_candidates-All
              (λ c. ((c.0 == p) ≡ false) × IsOpen p c.0 (connect_to_source p m).0.nodes) cs
              (All-map (λ c x. (x.0, first.1 c.0 x.0 x.1)) cs (candidates_for-accepts p m.nodes d)))
            first.0)
  ]
