-- ===== src/Overlay/Mesh/Network.antt =====
-- core/src/overlay/mesh/network.rs: the nodes of a mesh and the mesh itself. A map is iterated in the
-- order of its list.
use open_broadcast_network.Prelude.{
  ℕ, Bool, true, false, not, ◌&&◌, ◌||◌, Option, none, some, List, [], ◌∷◌, length, Eq, ◌==◌, ltb,
  leb, if◌then◌else◌,
}
use open_broadcast_network.Prelude.Maps.{
  contains, set_insert, set_remove, get, insert, remove, modify, contains_key,
}
use open_broadcast_network.Overlay.Peer.{PeerRole, publisher}

abbrev pub max_mesh_peers : ℕ
max_mesh_peers = 5

pub record MeshNode (P : Type 0) : Type 0 where
  pub peer_id : P
  pub role : PeerRole
  pub peers : List P
  pub bandwidth : ℕ
  pub is_source : Bool

pub record StreamMesh (P : Type 0) : Type 0 where
  pub stream_id : List ℕ
  pub nodes : List (P × MeshNode P)
  pub source : Option P

module _ {P : Type 0} where
  unfoldable pub new_node : P → PeerRole → Bool → MeshNode P
  new_node peer_id role is_source = record {
    peer_id = peer_id;
    role = role;
    peers = [];
    bandwidth = 0;
    is_source = is_source;
  }

  unfoldable pub can_accept_connections : MeshNode P → Bool
  can_accept_connections n = ltb (length n.peers) max_mesh_peers

  unfoldable pub new_mesh : List ℕ → StreamMesh P
  new_mesh stream_id = record { stream_id = stream_id; nodes = []; source = none }

  -- `sort_by_key` on the bandwidth, the highest first; equal ones keep their order.
  unfoldable pub insert_candidate : P × ℕ → List (P × ℕ) → List (P × ℕ)
  insert_candidate c [] = c ∷ []
  insert_candidate c (d ∷ ds) = if leb d.1 c.1 then c ∷ d ∷ ds else d ∷ insert_candidate c ds

  unfoldable pub sort_candidates : List (P × ℕ) → List (P × ℕ)
  unfolding insert_candidate
  sort_candidates [] = []
  sort_candidates (c ∷ cs) = insert_candidate c (sort_candidates cs)

  -- The ids of the nodes that can take another connection.
  unfoldable pub needing_connections : List (P × MeshNode P) → List P
  needing_connections [] = []
  needing_connections ((id, n) ∷ rest) =
      let others = needing_connections rest in
      if can_accept_connections n then id ∷ others else others

module _ {P : Type 0} ⦃e : Eq P⦄ where
  -- The callers drop the answer, which is `can_accept_connections`.
  unfoldable pub connect : P → MeshNode P → MeshNode P
  connect peer n =
      if can_accept_connections n then record n { peers = set_insert peer n.peers } else n

  unfoldable pub disconnect : P → MeshNode P → MeshNode P
  disconnect peer n = record n { peers = set_remove peer n.peers }

  unfoldable pub set_source : P → StreamMesh P → StreamMesh P × Bool
  set_source peer m = elim m.source [
    | some s ↦ (m, false)
    | none ↦ (
      record m { nodes = insert peer (new_node peer publisher true) m.nodes; source = some peer },
      true,
    )
  ]

  unfoldable pub candidates_for : P → List (P × MeshNode P) → List (P × ℕ)
  candidates_for peer [] = []
  candidates_for peer ((id, n) ∷ rest) =
      let others = candidates_for peer rest in
      if not (id == peer) && can_accept_connections n then (id, n.bandwidth) ∷ others else others

  -- The source first, where it has room.
  unfoldable pub connect_to_source : P → StreamMesh P → StreamMesh P × Bool
  connect_to_source peer m = elim m.source [
    | none ↦ (m, false)
    | some source ↦ if source == peer then (m, false) else elim (get source m.nodes) [
      | none ↦ (m, false)
      | some node ↦
          if can_accept_connections node
          then (
            record m {
              nodes = modify peer (connect source) (modify source (connect peer) m.nodes);
            },
            contains_key peer m.nodes,
          )
          else (m, false)
    ]
  ]

  -- One round of the loop over the candidates. Where the loop breaks, because the peer has no room,
  -- every later round finds no room either and changes nothing.
  unfoldable pub connect_candidate : P → P → StreamMesh P × Bool → StreamMesh P × Bool
  connect_candidate peer candidate (m, connected) = elim (get peer m.nodes) [
    | none ↦ (m, connected)
    | some node ↦
        if can_accept_connections node && not (contains candidate node.peers)
        then (
          record m {
            nodes = modify candidate (connect peer) (modify peer (connect candidate) m.nodes);
          },
          contains_key candidate m.nodes || connected,
        )
        else (m, connected)
  ]

  unfoldable pub connect_candidates : P → List (P × ℕ) → StreamMesh P × Bool → StreamMesh P × Bool
  connect_candidates peer [] r = r
  connect_candidates peer ((candidate, _) ∷ cs) r =
      connect_candidates peer cs (connect_candidate peer candidate r)

  unfoldable pub connect_peer_to_mesh : P → StreamMesh P → StreamMesh P × Bool
  unfolding candidates_for
  connect_peer_to_mesh peer m =
      if contains_key peer m.nodes
      then connect_candidates peer (sort_candidates (candidates_for peer m.nodes))
          (connect_to_source peer m)
      else (m, false)

  abbrev pub is_mesh_source : P → StreamMesh P → Bool
  is_mesh_source peer m = elim m.source [ none ↦ false | some source ↦ source == peer ]

  unfoldable pub add_peer : P → PeerRole → ℕ → StreamMesh P → StreamMesh P × Bool
  add_peer peer role bandwidth m =
      if contains_key peer m.nodes
      then (m, false)
      else (let node = new_node peer role (is_mesh_source peer m) in
          connect_peer_to_mesh peer
            (record m { nodes = insert peer (record node { bandwidth = bandwidth }) m.nodes }))

  -- `for peer_id in peers_needing_connections`
  unfoldable pub connect_all : List P → StreamMesh P × Bool → StreamMesh P × Bool
  connect_all [] r = r
  connect_all (peer ∷ peers) (m, changes) =
      let (m', connected) = connect_peer_to_mesh peer m in
      connect_all peers (m', connected || changes)

  unfoldable pub rebalance : StreamMesh P → StreamMesh P × Bool
  rebalance m = connect_all (needing_connections m.nodes) (m, false)

  -- `for connected_id in &connected_peers`
  unfoldable pub disconnect_all : P → List P → List (P × MeshNode P) → List (P × MeshNode P)
  disconnect_all peer [] nodes = nodes
  disconnect_all peer (q ∷ qs) nodes = disconnect_all peer qs (modify q (disconnect peer) nodes)

  unfoldable pub remove_peer : P → StreamMesh P → StreamMesh P × Bool
  unfolding disconnect_all rebalance
  remove_peer peer m = elim (get peer m.nodes) [
    | none ↦ (m, false)
    | some node ↦ if is_mesh_source peer m then (m, false) else (
      (rebalance (record m { nodes = remove peer (disconnect_all peer node.peers m.nodes) })).0,
      true,
    )
  ]
