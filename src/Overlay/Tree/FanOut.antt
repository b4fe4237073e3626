-- ===== src/Overlay/Tree/FanOut.antt =====
-- The fan-out of core/src/overlay/tree.rs: no peer ever has more than `ABSOLUTE_MAX_CHILDREN`
-- children, whatever happens to the tree and whatever the measurements say.
pub mod Runs
use open_broadcast_network.Prelude.{
  ℕ, suc, ◌+◌, ◌-◌, ◌≤◌, ◌<◌, ◌≡◌, refl, ◌⊎◌, inl, inr, Bool, true, false, not, ◌&&◌, Option, none,
  some, List, [], ◌∷◌, length, max, Eq, ◌==◌, ltb, if◌then◌else◌, Bool-cases, arith,
}
use open_broadcast_network.Prelude.Maps.{get, insert, remove, modify, contains_key}
use open_broadcast_network.Prelude.Maps.Sets.{length-set_insert-le, length-set_remove-le}
use open_broadcast_network.Prelude.Maps.Keys.{
  Entries, Entries-insert, Entries-remove, Entries-modify, Entries-get,
}
use open_broadcast_network.Overlay.Floats.{Floats}
use open_broadcast_network.Overlay.Peer.{PeerRole, publisher}
use open_broadcast_network.Overlay.Tree.Node
use open_broadcast_network.Overlay.Tree.Node.{
  TreeNode, clamp, can_accept_children, adjust_fan_out, update_metrics, record_failure,
  record_success, add_child, remove_child, default_max_children, absolute_max_children,
}
use open_broadcast_network.Overlay.Tree.Stream
use open_broadcast_network.Overlay.Tree.Stream.{
  TopologyConfig, StreamTree, Best, set_source, best_parent, no_parent, attach, attach_best,
  is_some, find_parent_for_peer, add_peer, detach, reconnect_children, remove_peer, unexpired,
  cleanup_disconnected_nodes, handle_temporary_disconnect, handle_reconnection,
}
use open_broadcast_network.Overlay.Tree.Search.{find_parent_cases}

pub record IsBounded {F : Floats} {P : Type 0} (n : TreeNode F P) : Type 0 where
  pub some_room : 1 ≤ n.max_children
  pub limited : n.max_children ≤ absolute_max_children
  pub publisher_room : n.role ≡ publisher → default_max_children ≤ n.max_children
  pub few_children : length n.children ≤ absolute_max_children

module _ (F : Floats) {P : Type 0} where
  new-IsBounded : (p : P) (role : PeerRole) (now : ℕ) → IsBounded (Node.new F p role now)
  unfolding Node.new
  new-IsBounded p role now = ground arith

  source-IsBounded : (p : P) (now : ℕ) → IsBounded (Node.source F p now)
  unfolding Node.source
  source-IsBounded p now = ground arith

  adjust_fan_out-IsBounded :
      (n : TreeNode F P) → length n.children ≤ 7 → IsBounded (adjust_fan_out F n)
  unfolding adjust_fan_out
  adjust_fan_out-IsBounded n h = record {
    some_room = ground arith;
    limited = ground arith;
    publisher_room = ground arith;
    few_children = h;
  }

  pub update_metrics-IsBounded :
      (bandwidth latency : ℕ) (rate : F.F32) (now : ℕ) (n : TreeNode F P)
      → IsBounded n
      → IsBounded (update_metrics F bandwidth latency rate now n)
  unfolding update_metrics
  update_metrics-IsBounded bandwidth latency rate now n h =
      adjust_fan_out-IsBounded _ h.few_children

  pub record_failure-IsBounded : (n : TreeNode F P) → IsBounded n → IsBounded (record_failure F n)
  unfolding record_failure
  record_failure-IsBounded n h = adjust_fan_out-IsBounded _ h.few_children

  pub record_success-IsBounded :
      (n : TreeNode F P) → length n.children ≤ 7 → IsBounded (record_success F n)
  unfolding record_success
  record_success-IsBounded n h = adjust_fan_out-IsBounded _ h

  pub place-IsBounded :
      (parent : Option P) (depth : ℕ) (n : TreeNode F P)
      → IsBounded n
      → IsBounded (record n { parent = parent; depth = depth })
  place-IsBounded parent depth n h = ground arith

  bandwidth-IsBounded :
      (bandwidth : ℕ) (n : TreeNode F P)
      → IsBounded n
      → IsBounded (record n { bandwidth = bandwidth })
  bandwidth-IsBounded bandwidth n h = ground arith

module _ (F : Floats) {P : Type 0} ⦃e : Eq P⦄ where
  pub add_child-IsBounded : (p : P) (n : TreeNode F P) → IsBounded n → IsBounded (add_child F p n)
  unfolding add_child can_accept_children
  add_child-IsBounded p n h = ground (arith, length-set_insert-le p n.children)

  pub remove_child-IsBounded :
      (p : P) (n : TreeNode F P) → IsBounded n → IsBounded (remove_child F p n)
  unfolding remove_child
  remove_child-IsBounded p n h = ground (arith, length-set_remove-le p n.children)

  abbrev pub Nodes : List (P × TreeNode F P) → Type 0
  Nodes = Entries (λ _ n. IsBounded n)

  attach-Nodes :
      (peer parent : P) (depth : ℕ) (t : StreamTree F P)
      → Nodes t.nodes
      → Nodes (attach F peer parent depth t).nodes
  unfolding attach
  attach-Nodes peer parent depth t h =
      Entries-modify (λ _ n. IsBounded n) peer _ _ (λ j n k. place-IsBounded F (some parent) _ n k)
        (Entries-modify (λ _ n. IsBounded n) parent (add_child F peer) t.nodes
          (λ j n k. add_child-IsBounded peer n k) h)

  find_parent-Nodes :
      (peer : P) (t : StreamTree F P)
      → Nodes t.nodes
      → Nodes (find_parent_for_peer F peer t).0.nodes
  unfolding find_parent_for_peer
  find_parent-Nodes peer t h = elim (find_parent_cases F peer t) [
    | inl same ↦ rw same h
    | inr (parent, best, q) ↦ rw q (attach-Nodes peer parent _ t h)
  ]

  disconnected_nodes-find_parent :
      (peer : P) (t : StreamTree F P)
      → (find_parent_for_peer F peer t).0.disconnected_nodes ≡ t.disconnected_nodes
  unfolding find_parent_for_peer attach
  disconnected_nodes-find_parent peer t = ground arith

  -- Every peer of the tree, and every one that is remembered.
  pub record TreeFits (t : StreamTree F P) : Type 0 where
    pub live : Nodes t.nodes
    pub saved : Entries (λ _ (s : TreeNode F P × ℕ). IsBounded s.0) t.disconnected_nodes

  pub find_parent-TreeFits :
      (peer : P) (t : StreamTree F P) → TreeFits t → TreeFits (find_parent_for_peer F peer t).0
  find_parent-TreeFits peer t h = record {
    live = find_parent-Nodes peer t h.live;
    saved = rw (disconnected_nodes-find_parent peer t) h.saved;
  }

  pub set_source-TreeFits :
      (p : P) (now : ℕ) (t : StreamTree F P) → TreeFits t → TreeFits (set_source F p now t).0
  unfolding set_source
  set_source-TreeFits p now t h = elim (Bool-cases (is_some t.source)) [
    | inl there ↦ rw (there, set_source) h
    | inr first ↦
        rw (first, set_source)
          (record {
            live =
                Entries-insert (λ _ n. IsBounded n) p _ t.nodes (source-IsBounded F p now) h.live;
            saved = h.saved;
          })
  ]

  pub add_peer-TreeFits :
      (p : P) (role : PeerRole) (bandwidth now : ℕ) (t : StreamTree F P)
      → TreeFits t
      → TreeFits (add_peer F p role bandwidth now t).0
  unfolding add_peer
  add_peer-TreeFits p role bandwidth now t h = elim (Bool-cases (contains_key p t.nodes)) [
    | inl there ↦ rw (there, add_peer) h
    | inr fresh ↦
        rw (fresh, add_peer)
          (find_parent-TreeFits p _ (record {
            live =
                Entries-insert (λ _ n. IsBounded n) p _ t.nodes
                  (bandwidth-IsBounded F bandwidth _ (new-IsBounded F p role now)) h.live;
            saved = h.saved;
          }))
  ]

  pub detach-TreeFits :
      (p : P) (n : TreeNode F P) (t : StreamTree F P) → TreeFits t → TreeFits (detach F p n t)
  unfolding detach
  detach-TreeFits p n t h = go n.parent refl
    where
      go : (o : Option P) → n.parent ≡ o → TreeFits (detach F p n t)
      go none q = record {
        live = rw (q, detach) (Entries-remove (λ _ n. IsBounded n) p t.nodes h.live);
        saved = h.saved;
      }
      go (some parent) q = record {
        live =
            rw (q, detach)
              (Entries-remove (λ _ n. IsBounded n) p _
                (Entries-modify (λ _ n. IsBounded n) parent (remove_child F p) t.nodes
                  (λ j n k. remove_child-IsBounded p n k) h.live));
        saved = h.saved;
      }

  pub reconnect_children-TreeFits :
      (children : List P) (t : StreamTree F P)
      → TreeFits t
      → TreeFits (reconnect_children F children t)
  unfolding reconnect_children
  reconnect_children-TreeFits [] t h = h
  reconnect_children-TreeFits (c ∷ cs) t h = reconnect_children-TreeFits cs _ (
      find_parent-TreeFits c _ (record {
        live =
            Entries-modify (λ _ n. IsBounded n) c (λ n. record n { parent = none }) t.nodes
              (λ j n k. place-IsBounded F none n.depth n k) h.live;
        saved = h.saved;
      }))
