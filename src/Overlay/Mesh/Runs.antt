-- ===== src/Overlay/Mesh/Runs.antt =====
-- The life of a mesh of core/src/overlay/mesh/network.rs.
use open_broadcast_network.Prelude.{ℕ, List, Eq}
use open_broadcast_network.Overlay.Peer.{PeerRole}
use open_broadcast_network.Overlay.Mesh.Network.{
  StreamMesh, new_mesh, set_source, add_peer, rebalance, remove_peer,
}
use open_broadcast_network.Overlay.Mesh.Limits.{
  Nodes, set_source-Nodes, add_peer-Nodes, rebalance-Nodes, remove_peer-Nodes,
}

module _ {P : Type 0} ⦃e : Eq P⦄ where
  pub data Step (m : StreamMesh P) : StreamMesh P → Type 0 where
    sets_source : (p : P) → Step m (set_source p m).0
    joins : (p : P) (role : PeerRole) (bandwidth : ℕ) → Step m (add_peer p role bandwidth m).0
    leaves : (p : P) → Step m (remove_peer p m).0
    rebalances : Step m (rebalance m).0

  pub data Reach (m : StreamMesh P) : StreamMesh P → Type 0 where
    here : Reach m m
    next : {k l : StreamMesh P} → Reach m k → Step k l → Reach m l

  Step-Nodes : {m k : StreamMesh P} → Nodes m.nodes → Step m k → Nodes k.nodes
  Step-Nodes {m} h (sets_source p) = set_source-Nodes p m h
  Step-Nodes {m} h (joins p role bandwidth) = add_peer-Nodes p role bandwidth m h
  Step-Nodes {m} h (leaves p) = remove_peer-Nodes p m h
  Step-Nodes {m} h rebalances = rebalance-Nodes m h

  Reach-Nodes : {m k : StreamMesh P} → Nodes m.nodes → Reach m k → Nodes k.nodes
  Reach-Nodes h here = h
  Reach-Nodes h (next r s) = Step-Nodes (Reach-Nodes h r) s

  -- Whatever happens to a new mesh, in any order: every peer of it has at most five connections, and
  -- none to itself.
  pub connections_stay_limited :
      (id : List ℕ) {m : StreamMesh P} → Reach (new_mesh id) m → Nodes m.nodes
  unfolding new_mesh
  connections_stay_limited id r = Reach-Nodes tt r
