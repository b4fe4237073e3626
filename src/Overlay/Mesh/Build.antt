-- ===== src/Overlay/Mesh/Build.antt =====
-- A mesh of core/src/overlay/mesh/network.rs to which peers were only added.
use mathlib.Core.Path.{subst}
use open_broadcast_network.Prelude.{
  ℕ, ◌≡◌, refl, ap, ◌∙◌, Bool, true, false, not, ◌&&◌, Option, none, some, List, [], ◌∷◌, Eq, ◌==◌,
  if◌then◌else◌, Bool-cases, Option-cases, inl, inr, beq_refl, arith,
}
use open_broadcast_network.Prelude.Maps.{
  contains, get, insert, modify, contains_key, get-insert, contains_key-get,
}
use open_broadcast_network.Prelude.Maps.Distinct.{Distinct, Distinct-insert, Distinct-modify}
use open_broadcast_network.Overlay.Peer.{PeerRole}
use open_broadcast_network.Overlay.Mesh.Network.{
  MeshNode, StreamMesh, new_node, new_mesh, can_accept_connections, sort_candidates, connect,
  set_source, candidates_for, connect_to_source, connect_candidate, connect_candidates,
  connect_peer_to_mesh, is_mesh_source, add_peer,
}
use open_broadcast_network.Overlay.Mesh.Links.{linked, Mutual}
use open_broadcast_network.Overlay.Mesh.Joins.{connect_peer_to_mesh-Mutual}

module _ {P : Type 0} ⦃e : Eq P⦄ where
  connect_to_source-Distinct :
      (p : P) (m : StreamMesh P) → Distinct m.nodes → Distinct (connect_to_source p m).0.nodes
  unfolding connect_to_source
  connect_to_source-Distinct p m d = go m.source refl
    where
      go : (o : Option P) → m.source ≡ o → Distinct (connect_to_source p m).0.nodes
      go none q = rw (q, connect_to_source) d
      go (some s) q = elim (Bool-cases (s == p)) [
        | inl same ↦ rw (q, connect_to_source) (rw same d)
        | inr away ↦ elim (Option-cases (get s m.nodes)) [
          | inl gone ↦ rw (q, connect_to_source) (rw (away, gone) d)
          | inr (node, there) ↦ elim (Bool-cases (can_accept_connections node)) [
            | inr full ↦ rw (q, connect_to_source) (rw (away, there, full) d)
            | inl room ↦
                rw (q, connect_to_source)
                  (rw (away, there, room)
                    (Distinct-modify p (connect s) (modify s (connect p) m.nodes)
                      (Distinct-modify s (connect p) m.nodes d)))
          ]
        ]
      ]

  connect_candidate-Distinct :
      (p c : P) (r : StreamMesh P × Bool)
      → Distinct r.0.nodes
      → Distinct (connect_candidate p c r).0.nodes
  unfolding connect_candidate
  connect_candidate-Distinct p c (m, b) d = elim (Option-cases (get p m.nodes)) [
    | inl gone ↦ rw (gone, connect_candidate) d
    | inr (node, there) ↦
        elim (Bool-cases (can_accept_connections node && not (contains c node.peers))) [
          | inr full ↦ rw (there, connect_candidate) (rw full d)
          | inl room ↦
              rw (there, connect_candidate)
                (rw room (
                  Distinct-modify c (connect p) (modify p (connect c) m.nodes)
                    (Distinct-modify p (connect c) m.nodes d)))
        ]
  ]

  connect_candidates-Distinct :
      (p : P) (cs : List (P × ℕ)) (r : StreamMesh P × Bool)
      → Distinct r.0.nodes
      → Distinct (connect_candidates p cs r).0.nodes
  unfolding connect_candidates
  connect_candidates-Distinct p [] r d = d
  connect_candidates-Distinct p ((c, b) ∷ cs) r d =
      connect_candidates-Distinct p cs (connect_candidate p c r)
        (connect_candidate-Distinct p c r d)

  connect_peer_to_mesh-Distinct :
      (p : P) (m : StreamMesh P) → Distinct m.nodes → Distinct (connect_peer_to_mesh p m).0.nodes
  unfolding connect_peer_to_mesh
  connect_peer_to_mesh-Distinct p m d = elim (Bool-cases (contains_key p m.nodes)) [
    | inr gone ↦ rw (gone, connect_peer_to_mesh) d
    | inl there ↦
        rw (there, connect_peer_to_mesh)
          (connect_candidates-Distinct p (sort_candidates (candidates_for p m.nodes))
            (connect_to_source p m) (connect_to_source-Distinct p m d))
  ]

  linked-insert_new :
      (p : P) (fresh : MeshNode P) (nodes : List (P × MeshNode P)) (x y : P)
      → fresh.peers ≡ []
      → linked (insert p fresh nodes) x y ≡ (if p == x then false else linked nodes x y)
  unfolding contains
  linked-insert_new p fresh nodes x y alone = elim (Bool-cases (p == x)) [
    | inl same ↦ ground (arith, get-insert p x fresh nodes, same, ap (contains y) alone)
    | inr other ↦ ground (arith, get-insert p x fresh nodes, other)
  ]

  linked-missing :
      (p y : P) (nodes : List (P × MeshNode P))
      → contains_key p nodes ≡ false
      → linked nodes p y ≡ false
  linked-missing p y nodes out = ground (arith, contains_key-get p nodes, out)

  -- A new peer without connections.
  Mutual-insert :
      (p : P) (fresh : MeshNode P) (nodes : List (P × MeshNode P))
      → contains_key p nodes ≡ false
      → fresh.peers ≡ []
      → Mutual nodes
      → Mutual (insert p fresh nodes)
  Mutual-insert p fresh nodes out alone h x y l =
      let known : linked nodes x y ≡ true =
        ground (arith, l, linked-insert_new p fresh nodes x y alone) in
      linked-insert_new p fresh nodes y x alone ∙ elim (Bool-cases (p == y)) [
        | inl same ↦
            let y_out : linked nodes y x ≡ false =
              subst (λ z. linked nodes z x ≡ false) ((e.beq_iff p y).0 same)
                (linked-missing p x nodes out) in
            ground (arith, y_out, h x y known)
        | inr other ↦ ground (arith, other, h x y known)
      ]

  add_peer-Mutual :
      (p : P) (role : PeerRole) (bandwidth : ℕ) (m : StreamMesh P)
      → Distinct m.nodes
      → Mutual m.nodes
      → Distinct (add_peer p role bandwidth m).0.nodes
        × Mutual (add_peer p role bandwidth m).0.nodes
  unfolding add_peer
  add_peer-Mutual p role bandwidth m d h = elim (Bool-cases (contains_key p m.nodes)) [
    | inl there ↦ rw (there, add_peer) (d, h)
    | inr out ↦
        let node : MeshNode P = new_node p role (is_mesh_source p m) in
        let placed : MeshNode P = record node { bandwidth = bandwidth } in
        let m' : StreamMesh P = record m { nodes = insert p placed m.nodes } in
        let d' = Distinct-insert p placed m.nodes d in
        rw (out, add_peer)
          (
            connect_peer_to_mesh-Distinct p m' d',
            connect_peer_to_mesh-Mutual p m' d'
                (unfold can_accept_connections new_node in
                  ground (arith, get-insert p p placed m.nodes, beq_refl p))
                (Mutual-insert p placed m.nodes out (unfold new_node in refl) h),
          )
  ]

-- A peer that joins: its id, role and bandwidth.
pub record Join (P : Type 0) : Type 0 where
  pub peer : P
  pub role : PeerRole
  pub bandwidth : ℕ

module _ {P : Type 0} ⦃e : Eq P⦄ where
  unfoldable pub join_all : List (Join P) → StreamMesh P → StreamMesh P
  join_all [] m = m
  join_all (j ∷ js) m = join_all js (add_peer j.peer j.role j.bandwidth m).0

  unfoldable pub build : List ℕ → P → List (Join P) → StreamMesh P
  unfolding join_all
  build id source js = join_all js (set_source source (new_mesh id)).0

  empty-Mutual : Mutual {P = P} []
  unfolding get
  empty-Mutual x y a = a

  join_all-Mutual :
      (js : List (Join P)) (m : StreamMesh P)
      → Distinct m.nodes
      → Mutual m.nodes
      → Mutual (join_all js m).nodes
  unfolding join_all
  join_all-Mutual [] m d h = h
  join_all-Mutual (j ∷ js) m d h =
      let now = add_peer-Mutual j.peer j.role j.bandwidth m d h in
      join_all-Mutual js (add_peer j.peer j.role j.bandwidth m).0 now.0 now.1

  -- In a mesh to which peers were only added, after its source, every connection is mutual: whom a
  -- peer has among its connections is in the mesh and has that peer among its own.
  pub build-Mutual :
      (id : List ℕ) (source : P) (js : List (Join P)) (p q : P)
      → linked (build id source js).nodes p q ≡ true
      → linked (build id source js).nodes q p ≡ true
  unfolding build set_source new_mesh new_node
  build-Mutual id source js p q l =
      join_all-Mutual js (set_source source (new_mesh id)).0
        (unfold insert contains_key in (refl, tt))
        (Mutual-insert source _ [] (unfold contains_key in refl) refl empty-Mutual) p q l
