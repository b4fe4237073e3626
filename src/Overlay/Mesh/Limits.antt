-- ===== src/Overlay/Mesh/Limits.antt =====
-- The connections of core/src/overlay/mesh/network.rs under every operation, and over any run of them.
use mathlib.Core.Path.{subst}
use open_broadcast_network.Prelude.{
  ℕ, ◌≤◌, ◌≡◌, refl, sym, Bool, false, not, ◌&&◌, ◌||◌, Option, none, some, List, [], ◌∷◌, length,
  Eq, ◌==◌, ltb, Bool-cases, Option-cases, inl, inr, All, arith,
}
use open_broadcast_network.Prelude.Maps.{contains, get, insert, remove, modify, contains_key}
use open_broadcast_network.Prelude.Maps.Sets.{
  contains-set_insert, contains-set_remove, length-set_insert-le, length-set_remove-le,
}
use open_broadcast_network.Prelude.Maps.Keys.{Entries, Entries-insert, Entries-remove}
use open_broadcast_network.Overlay.Peer.{PeerRole}
use open_broadcast_network.Overlay.Mesh.Network.{
  MeshNode, StreamMesh, max_mesh_peers, new_node, can_accept_connections, sort_candidates,
  needing_connections, connect, disconnect, set_source, candidates_for, connect_to_source,
  connect_candidate, connect_candidates, connect_peer_to_mesh, is_mesh_source, add_peer,
  connect_all, rebalance, disconnect_all, remove_peer,
}
use open_broadcast_network.Overlay.Mesh.Candidates.{sort_candidates-All, candidates_for-others}

module _ {P : Type 0} ⦃e : Eq P⦄ where
  -- A peer has at most five connections, none of them to itself.
  pub record IsConnected (id : P) (n : MeshNode P) : Type 0 where
    pub few : length n.peers ≤ max_mesh_peers
    pub no_loop : contains id n.peers ≡ false

  abbrev pub Nodes : List (P × MeshNode P) → Type 0
  Nodes = Entries IsConnected

  modify-Nodes :
      (k : P) (f : MeshNode P → MeshNode P) (m : List (P × MeshNode P))
      → ((n : MeshNode P) → IsConnected k n → IsConnected k (f n))
      → Nodes m
      → Nodes (modify k f m)
  unfolding modify
  modify-Nodes k f [] g h = h
  modify-Nodes k f ((j, n) ∷ m) g (c, h) = elim (Bool-cases (j == k)) [
    | inl same ↦
        let j≡k = (e.beq_iff j k).0 same in
        rw same
          (subst (λ i. IsConnected i (f n)) (sym j≡k) (g n (subst (λ i. IsConnected i n) j≡k c)), h)
    | inr other ↦ rw other (c, modify-Nodes k f m g h)
  ]

  connect-IsConnected :
      (id peer : P) (n : MeshNode P)
      → (peer == id) ≡ false
      → IsConnected id n
      → IsConnected id (connect peer n)
  unfolding connect can_accept_connections
  connect-IsConnected id peer n other h = elim (Bool-cases (ltb (length n.peers) max_mesh_peers)) [
    | inr full ↦ rw full h
    | inl room ↦ rw room (record {
      few = ground (arith, room, length-set_insert-le peer n.peers);
      no_loop = ground (arith, other, h.no_loop, contains-set_insert peer id n.peers);
    })
  ]

  disconnect-IsConnected :
      (id peer : P) (n : MeshNode P) → IsConnected id n → IsConnected id (disconnect peer n)
  unfolding disconnect
  disconnect-IsConnected id peer n h = record {
    few = ground (arith, h.few, length-set_remove-le peer n.peers);
    no_loop = ground (arith, h.no_loop, contains-set_remove peer id n.peers);
  }

  -- Two peers, not the same, that are connected from both sides.
  link-Nodes :
      (p q : P) (m : List (P × MeshNode P))
      → (p == q) ≡ false
      → Nodes m
      → Nodes (modify p (connect q) (modify q (connect p) m))
  link-Nodes p q m other h =
      modify-Nodes p (connect q) (modify q (connect p) m)
        (λ n. connect-IsConnected p q n (ground (arith, other, e.beq_iff p q, e.beq_iff q p)))
        (modify-Nodes q (connect p) m (λ n. connect-IsConnected q p n other) h)

  connect_to_source-Nodes :
      (p : P) (m : StreamMesh P) → Nodes m.nodes → Nodes (connect_to_source p m).0.nodes
  unfolding connect_to_source
  connect_to_source-Nodes p m h = go m.source refl
    where
      found :
          (source : P)
          → m.source ≡ some source
          → (source == p) ≡ false
          → Nodes (connect_to_source p m).0.nodes
      found source q other = elim (Option-cases (get source m.nodes)) [
        | inl gone ↦ rw (q, connect_to_source) (rw (other, gone) h)
        | inr (node, there) ↦ elim (Bool-cases (can_accept_connections node)) [
          | inl room ↦
              rw (q, connect_to_source)
                (rw (other, there, room)
                  (link-Nodes p source m.nodes
                    (ground (arith, other, e.beq_iff p source, e.beq_iff source p)) h))
          | inr full ↦ rw (q, connect_to_source) (rw (other, there, full) h)
        ]
      ]

      go : (o : Option P) → m.source ≡ o → Nodes (connect_to_source p m).0.nodes
      go none q = rw (q, connect_to_source) h
      go (some source) q = elim (Bool-cases (source == p)) [
        | inl same ↦ rw (q, connect_to_source) (rw same h)
        | inr other ↦ found source q other
      ]

  connect_candidate-Nodes :
      (p c : P) (r : StreamMesh P × Bool)
      → (c == p) ≡ false
      → Nodes r.0.nodes
      → Nodes (connect_candidate p c r).0.nodes
  unfolding connect_candidate
  connect_candidate-Nodes p c (m, connected) other h = elim (Option-cases (get p m.nodes)) [
    | inl gone ↦ rw (gone, connect_candidate) h
    | inr (node, there) ↦
        elim (Bool-cases (can_accept_connections node && not (contains c node.peers))) [
          | inl room ↦ rw (there, connect_candidate) (rw room (link-Nodes c p m.nodes other h))
          | inr full ↦ rw (there, connect_candidate) (rw full h)
        ]
  ]

  connect_candidates-Nodes :
      (p : P) (cs : List (P × ℕ)) (r : StreamMesh P × Bool)
      → All (λ d. (d.0 == p) ≡ false) cs
      → Nodes r.0.nodes
      → Nodes (connect_candidates p cs r).0.nodes
  unfolding connect_candidates
  connect_candidates-Nodes p [] r os h = h
  connect_candidates-Nodes p ((c, b) ∷ cs) r (o, os) h =
      connect_candidates-Nodes p cs (connect_candidate p c r) os (connect_candidate-Nodes p c r o h)

  connect_peer_to_mesh-Nodes :
      (p : P) (m : StreamMesh P) → Nodes m.nodes → Nodes (connect_peer_to_mesh p m).0.nodes
  unfolding connect_peer_to_mesh
  connect_peer_to_mesh-Nodes p m h = elim (Bool-cases (contains_key p m.nodes)) [
    | inr gone ↦ rw (gone, connect_peer_to_mesh) h
    | inl there ↦
        rw (there, connect_peer_to_mesh)
          (connect_candidates-Nodes p (sort_candidates (candidates_for p m.nodes))
            (connect_to_source p m)
            (sort_candidates-All (λ d. (d.0 == p) ≡ false) (candidates_for p m.nodes)
              (candidates_for-others p m.nodes))
            (connect_to_source-Nodes p m h))
  ]

  new_node-IsConnected :
      (id p : P) (role : PeerRole) (source : Bool) (bandwidth : ℕ)
      → let node : MeshNode P = new_node p role source in
        IsConnected id (record node { bandwidth = bandwidth })
  unfolding new_node
  new_node-IsConnected id p role source bandwidth = record {
    few = omega arith;
    no_loop = unfold contains in refl;
  }

  pub set_source-Nodes : (p : P) (m : StreamMesh P) → Nodes m.nodes → Nodes (set_source p m).0.nodes
  unfolding set_source new_node
  set_source-Nodes p m h = elim (Option-cases m.source) [
    | inr (s, taken) ↦ rw (taken, set_source) h
    | inl free ↦
        rw (free, set_source)
          (Entries-insert IsConnected p _ m.nodes
            (record { few = omega arith; no_loop = unfold contains in refl }) h)
  ]

  pub add_peer-Nodes :
      (p : P) (role : PeerRole) (bandwidth : ℕ) (m : StreamMesh P)
      → Nodes m.nodes
      → Nodes (add_peer p role bandwidth m).0.nodes
  unfolding add_peer
  add_peer-Nodes p role bandwidth m h = elim (Bool-cases (contains_key p m.nodes)) [
    | inl there ↦ rw (there, add_peer) h
    | inr fresh ↦
        let node : MeshNode P = new_node p role (is_mesh_source p m) in
        let placed : MeshNode P = record node { bandwidth = bandwidth } in
        rw (fresh, add_peer)
          (connect_peer_to_mesh-Nodes p (record m { nodes = insert p placed m.nodes })
            (Entries-insert IsConnected p placed m.nodes
              (new_node-IsConnected p p role (is_mesh_source p m) bandwidth) h))
  ]

  connect_all-Nodes :
      (ps : List P) (r : StreamMesh P × Bool) → Nodes r.0.nodes → Nodes (connect_all ps r).0.nodes
  unfolding connect_all
  connect_all-Nodes [] r h = h
  connect_all-Nodes (p ∷ ps) (m, changes) h =
      connect_all-Nodes ps ((connect_peer_to_mesh p m).0, (connect_peer_to_mesh p m).1 || changes)
        (connect_peer_to_mesh-Nodes p m h)

  pub rebalance-Nodes : (m : StreamMesh P) → Nodes m.nodes → Nodes (rebalance m).0.nodes
  unfolding rebalance
  rebalance-Nodes m h = connect_all-Nodes (needing_connections m.nodes) (m, false) h

  disconnect_all-Nodes :
      (p : P) (qs : List P) (nodes : List (P × MeshNode P))
      → Nodes nodes
      → Nodes (disconnect_all p qs nodes)
  unfolding disconnect_all
  disconnect_all-Nodes p [] nodes h = h
  disconnect_all-Nodes p (q ∷ qs) nodes h =
      disconnect_all-Nodes p qs (modify q (disconnect p) nodes)
        (modify-Nodes q (disconnect p) nodes (λ n. disconnect-IsConnected q p n) h)

  pub remove_peer-Nodes :
      (p : P) (m : StreamMesh P) → Nodes m.nodes → Nodes (remove_peer p m).0.nodes
  unfolding remove_peer
  remove_peer-Nodes p m h = elim (Option-cases (get p m.nodes)) [
    | inl gone ↦ rw (gone, remove_peer) h
    | inr (node, there) ↦ elim (Bool-cases (is_mesh_source p m)) [
      | inl source ↦ rw (there, remove_peer) (rw source h)
      | inr other ↦
          rw (there, remove_peer)
            (rw other (
              rebalance-Nodes (record m { nodes = remove p (disconnect_all p node.peers m.nodes) })
                (Entries-remove IsConnected p (disconnect_all p node.peers m.nodes)
                  (disconnect_all-Nodes p node.peers m.nodes h))))
    ]
  ]
