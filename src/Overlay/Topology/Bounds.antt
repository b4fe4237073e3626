-- ===== src/Overlay/Topology/Bounds.antt =====
-- What the manager of core/src/overlay/topology/manager.rs keeps bounded, and how its parts keep it.
use open_broadcast_network.Prelude.{
  ℕ, ◌≤◌, ◌≡◌, Bool, true, false, ◌&&◌, not, some, List, [], ◌∷◌, ◌++◌, length, length-drop,
  length-append, Eq, ltb, Bool-cases, Option-cases, nat_beq, arith, inl, inr, if◌then◌else◌,
}
use open_broadcast_network.Prelude.Bytes.{bytes_eq}
use open_broadcast_network.Prelude.Maps.{get, insert, contains_key}
use open_broadcast_network.Prelude.Maps.Keys.{Entries, Entries-insert, Entries-remove, Entries-get}
use open_broadcast_network.Overlay.Floats.{Floats}
use open_broadcast_network.Overlay.Peer.{PeerRole, is_publisher}
use open_broadcast_network.Overlay.Tree.Stream
use open_broadcast_network.Overlay.Tree.Stream.{StreamTree, is_some}
use open_broadcast_network.Overlay.Tree.Steps.{leaves, rebalances}
use open_broadcast_network.Overlay.Tree.FanOut.{TreeFits}
use open_broadcast_network.Overlay.Tree.FanOut.Runs.{Step-TreeFits}
use open_broadcast_network.Overlay.Topology.{
  TopologyManager, tree_of, claim_source, rebalance_over, settle, remove_from_tree, map_trees,
  health_of,
}
use open_broadcast_network.Overlay.Topology.Health.{
  ConnectionHealth, history_size, default_health, add_to_history, recalculate_quality,
  record_success, record_failure,
}

-- What every health record of the manager satisfies.
unfoldable pub IsShort : (F : Floats) → ConnectionHealth F → Type 0
IsShort F h = length h.history ≤ history_size

pub record ManagerFits (F : Floats) {P Q : Type 0} ⦃e : Eq P⦄ (m : TopologyManager F P Q)
    : Type 0 where
  pub trees_fit : Entries (λ _ t. TreeFits F t) m.trees
  pub histories_short : Entries (λ _ h. IsShort F h) m.connection_health

module _ (F : Floats) where
  add_to_history-IsShort :
      (now : ℕ) (q : F.F32) (h : ConnectionHealth F)
      → IsShort F h
      → IsShort F (add_to_history F now q h)
  unfolding add_to_history IsShort
  add_to_history-IsShort now q h k =
      let longer = h.history ++ (now, q) ∷ [] in
      elim (Bool-cases (ltb history_size (length longer))) [
        | inl y ↦
            rw y (omega (arith, length-drop 1 longer, length-append h.history ((now, q) ∷ []), k))
        | inr n ↦ rw n (ground (arith, n))
      ]

  pub record_success-IsShort :
      (now : ℕ) (h : ConnectionHealth F) → IsShort F h → IsShort F (record_success F now h)
  unfolding record_success recalculate_quality IsShort add_to_history
  record_success-IsShort now h k = add_to_history-IsShort now _ (record h {}) k

  pub record_failure-IsShort :
      (now : ℕ) (h : ConnectionHealth F) → IsShort F h → IsShort F (record_failure F now h)
  unfolding record_failure recalculate_quality IsShort add_to_history
  record_failure-IsShort now h k = add_to_history-IsShort now _ (record h {}) k

  pub flagged-IsShort :
      (b c : Bool) (h : ConnectionHealth F)
      → IsShort F h
      → IsShort F (if b then record h { is_degraded = c } else h)
  unfolding IsShort
  flagged-IsShort true c h k = k
  flagged-IsShort false c h k = k

module _ (F : Floats) {P : Type 0} ⦃e : Eq P⦄ where
  pub claim_source-TreeFits :
      (p : P) (role : PeerRole) (t : StreamTree F P)
      → TreeFits F t
      → TreeFits F (claim_source F p role t)
  unfolding claim_source
  claim_source-TreeFits p role t h =
      elim (Bool-cases (is_publisher role && not (is_some t.source))) [
        | inl y ↦ rw y (record { live = h.live; saved = h.saved })
        | inr n ↦ rw n h
      ]

  pub rebalance_over-TreeFits :
      (threshold now : ℕ) (t : StreamTree F P)
      → TreeFits F t
      → TreeFits F (rebalance_over F threshold now t)
  unfolding rebalance_over
  rebalance_over-TreeFits threshold now t h = elim (Bool-cases (ltb threshold (length t.nodes))) [
    | inl y ↦ rw y (Step-TreeFits F (rebalances now) h)
    | inr n ↦ rw n h
  ]

  pub settle-fits :
      (stream_id : List ℕ) (now : ℕ) (t : StreamTree F P) (trees : List (List ℕ × StreamTree F P))
      → TreeFits F t
      → Entries (λ _ t. TreeFits F t) trees
      → Entries (λ _ t. TreeFits F t) (settle F stream_id now t trees)
  unfolding settle
  settle-fits stream_id now t trees h k = elim (Bool-cases (nat_beq (length t.nodes) 0)) [
    | inl y ↦ rw y (Entries-remove (λ _ t. TreeFits F t) stream_id trees k)
    | inr n ↦ rw n (
        Entries-insert (λ _ t. TreeFits F t) stream_id _ trees (Step-TreeFits F (rebalances now) h)
          k)
  ]

  pub remove_from_tree-TreeFits :
      (p : P) (t : StreamTree F P) → TreeFits F t → TreeFits F (remove_from_tree F p t)
  unfolding remove_from_tree
  remove_from_tree-TreeFits p t h = elim (Bool-cases (contains_key p t.nodes)) [
    | inl y ↦ rw y (Step-TreeFits F (leaves p) h)
    | inr n ↦ rw n h
  ]

  pub map_trees-fits :
      (f : StreamTree F P → StreamTree F P)
      → ((t : StreamTree F P) → TreeFits F t → TreeFits F (f t))
      → (trees : List (List ℕ × StreamTree F P)) → Entries (λ _ t. TreeFits F t) trees
      → Entries (λ _ t. TreeFits F t) (map_trees F f trees)
  unfolding map_trees
  map_trees-fits f g [] h = h
  map_trees-fits f g ((id, t) ∷ rest) (k, h) = (g t k, map_trees-fits f g rest h)

module _ (F : Floats) {P Q : Type 0} ⦃e : Eq P⦄ where
  pub tree_found-TreeFits :
      (stream_id : List ℕ) (m : TopologyManager F P Q)
      → ManagerFits F m
      → {t : StreamTree F P} → get stream_id m.trees ≡ some t
      → TreeFits F t
  tree_found-TreeFits stream_id m h q =
      Entries-get (λ _ t. TreeFits F t) stream_id m.trees h.trees_fit q

  pub tree_of-TreeFits :
      (stream_id : List ℕ) (now : ℕ) (m : TopologyManager F P Q)
      → ManagerFits F m
      → TreeFits F (tree_of F stream_id now m)
  unfolding tree_of Stream.new
  tree_of-TreeFits stream_id now m h = elim (Option-cases (get stream_id m.trees)) [
    | inl q ↦ rw (q, tree_of) (record { live = tt; saved = tt })
    | inr (t, q) ↦ rw (q, tree_of) (tree_found-TreeFits stream_id m h q)
  ]

  pub health_of-IsShort :
      (peer : P) (now : ℕ) (m : TopologyManager F P Q)
      → ManagerFits F m
      → IsShort F (health_of F peer now m)
  unfolding health_of default_health IsShort
  health_of-IsShort peer now m h = elim (Option-cases (get peer m.connection_health)) [
    | inl q ↦ rw (q, health_of) (omega arith)
    | inr (r, q) ↦
        rw (q, health_of)
          (Entries-get (λ _ h. IsShort F h) peer m.connection_health h.histories_short q)
  ]

  pub with_trees :
      {m : TopologyManager F P Q} (trees : List (List ℕ × StreamTree F P))
      → ManagerFits F m
      → Entries (λ _ t. TreeFits F t) trees
      → ManagerFits F (record m { trees = trees })
  with_trees trees h k = record { trees_fit = k; histories_short = h.histories_short }

  pub with_health :
      (peer : P) (r : ConnectionHealth F) (m : TopologyManager F P Q)
      → IsShort F r
      → ManagerFits F m
      → ManagerFits F (record m { connection_health = insert peer r m.connection_health })
  with_health peer r m k h = record {
    trees_fit = h.trees_fit;
    histories_short =
        Entries-insert (λ _ h. IsShort F h) peer r m.connection_health k h.histories_short;
  }
