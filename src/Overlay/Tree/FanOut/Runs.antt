-- ===== src/Overlay/Tree/FanOut/Runs.antt =====
-- The fan-out of core/src/overlay/tree.rs under every operation, and over any run of them.
use open_broadcast_network.Prelude.{
  ℕ, ◌-◌, ◌≡◌, refl, inl, inr, Bool, true, false, ◌||◌, Option, none, some, List, [], ◌∷◌, length,
  Eq, ltb, nat_beq, Bool-cases, Option-cases, arith,
}
use open_broadcast_network.Prelude.Maps.{get, modify}
use open_broadcast_network.Prelude.Maps.Keys.{
  Entries, Entries-insert, Entries-remove, Entries-modify, Entries-get,
}
use open_broadcast_network.Overlay.Floats.{Floats}
use open_broadcast_network.Overlay.Tree.Node.{TreeNode, add_child, remove_child}
use open_broadcast_network.Overlay.Tree.Stream
use open_broadcast_network.Overlay.Tree.Stream.{
  TopologyConfig, StreamTree, is_source, set_source, find_parent_for_peer, add_peer, detach,
  reconnect_children, remove_peer, unexpired, cleanup_disconnected_nodes,
  handle_temporary_disconnect, handle_reconnection,
}
use open_broadcast_network.Overlay.Tree.Rebalance.{
  best_candidate, ids_of, is_overloaded, is_candidate, move_to, move_child, move_children,
  relieve_node, relieve, adopt, rebalance,
}
use open_broadcast_network.Overlay.Tree.Steps.{
  Step, sets_source, joins, leaves, drops_out, comes_back, rebalances, measures, fails, succeeds,
  Reach, here, next,
}
use open_broadcast_network.Overlay.Tree.FanOut.{
  IsBounded, TreeFits, update_metrics-IsBounded, record_failure-IsBounded, record_success-IsBounded,
  place-IsBounded, add_child-IsBounded, remove_child-IsBounded, find_parent-TreeFits,
  set_source-TreeFits, add_peer-TreeFits, detach-TreeFits, reconnect_children-TreeFits,
}

module _ (F : Floats) {P : Type 0} ⦃e : Eq P⦄ where
  remove_peer-TreeFits :
      (p : P) (t : StreamTree F P) → TreeFits F t → TreeFits F (remove_peer F p t).0
  unfolding remove_peer
  remove_peer-TreeFits p t h = go (get p t.nodes) refl (is_source F p t) refl
    where
      go :
          (o : Option (TreeNode F P))
          → get p t.nodes ≡ o
          → (b : Bool) → is_source F p t ≡ b
          → TreeFits F (remove_peer F p t).0
      go none q b r = rw (q, remove_peer) h
      go (some n) q true r = rw (q, remove_peer) (rw r h)
      go (some n) q false r =
          rw (q, remove_peer)
            (rw r (
              reconnect_children-TreeFits F n.children (detach F p n t)
                (detach-TreeFits F p n t h)))

  unexpired-fits :
      (grace now : ℕ) (m : List (P × (TreeNode F P × ℕ)))
      → Entries (λ _ (s : TreeNode F P × ℕ). IsBounded s.0) m
      → Entries (λ _ (s : TreeNode F P × ℕ). IsBounded s.0) (unexpired F grace now m)
  unfolding unexpired
  unexpired-fits grace now [] h = h
  unexpired-fits grace now ((p, (n, time)) ∷ m) (b, h) =
      elim (Bool-cases (ltb grace (now - time))) [
        | inl old ↦ rw old (unexpired-fits grace now m h)
        | inr young ↦ rw young (b, unexpired-fits grace now m h)
      ]

  cleanup-TreeFits :
      (grace now : ℕ) (t : StreamTree F P)
      → TreeFits F t
      → TreeFits F (cleanup_disconnected_nodes F grace now t)
  unfolding cleanup_disconnected_nodes
  cleanup-TreeFits grace now t h = record {
    live = h.live;
    saved = unexpired-fits grace now t.disconnected_nodes h.saved;
  }

  disconnect-TreeFits :
      (p : P) (grace now : ℕ) (t : StreamTree F P)
      → TreeFits F t
      → TreeFits F (handle_temporary_disconnect F p grace now t).0
  unfolding handle_temporary_disconnect
  disconnect-TreeFits p grace now t h = go (get p t.nodes) refl (is_source F p t) refl
    where
      go :
          (o : Option (TreeNode F P))
          → get p t.nodes ≡ o
          → (b : Bool) → is_source F p t ≡ b
          → TreeFits F (handle_temporary_disconnect F p grace now t).0
      go none q b r = rw (q, handle_temporary_disconnect) h
      go (some n) q true r = rw (q, handle_temporary_disconnect) (rw r h)
      go (some n) q false r =
          rw (q, handle_temporary_disconnect)
            (rw r (
              cleanup-TreeFits grace now _ (
                reconnect_children-TreeFits F n.children _ (
                  detach-TreeFits F p n _ (record {
                    live = h.live;
                    saved =
                        Entries-insert (λ _ (s : TreeNode F P × ℕ). IsBounded s.0) p (n, now)
                          t.disconnected_nodes (Entries-get (λ _ n. IsBounded n) p t.nodes h.live q)
                          h.saved;
                  })))))

  reconnection-TreeFits :
      (p : P) (t : StreamTree F P) → TreeFits F t → TreeFits F (handle_reconnection F p t).0
  unfolding handle_reconnection
  reconnection-TreeFits p t h = go (get p t.disconnected_nodes) refl
    where
      go :
          (o : Option (TreeNode F P × ℕ))
          → get p t.disconnected_nodes ≡ o
          → TreeFits F (handle_reconnection F p t).0
      go none q = rw (q, handle_reconnection) h
      go (some (n, time)) q =
          rw (q, handle_reconnection)
            (find_parent-TreeFits F p _ (record {
              live =
                  Entries-insert (λ _ n. IsBounded n) p _ t.nodes
                    (record_success-IsBounded F _ (omega arith)) h.live;
              saved =
                  Entries-remove (λ _ (s : TreeNode F P × ℕ). IsBounded s.0) p t.disconnected_nodes
                    h.saved;
            }))

  move_to-TreeFits :
      (overloaded child parent : P) (t : StreamTree F P)
      → TreeFits F t
      → TreeFits F (move_to F overloaded child parent t)
  unfolding move_to
  move_to-TreeFits overloaded child parent t h = record {
    live =
        Entries-modify (λ _ n. IsBounded n) child _ _
          (λ j n k. place-IsBounded F (some parent) _ n k)
          (Entries-modify (λ _ n. IsBounded n) parent (add_child F child) _
            (λ j n k. add_child-IsBounded F child n k)
            (Entries-modify (λ _ n. IsBounded n) overloaded (remove_child F child) t.nodes
              (λ j n k. remove_child-IsBounded F child n k) h.live));
    saved = h.saved;
  }

  move_child-TreeFits :
      (overloaded : P) (candidates : List P) (child : P) (r : StreamTree F P × Bool)
      → TreeFits F r.0
      → TreeFits F (move_child F overloaded candidates child r).0
  unfolding move_child
  move_child-TreeFits overloaded candidates child (t, changed) h = go (get child t.nodes) refl
    where
      go :
          (o : Option (TreeNode F P))
          → get child t.nodes ≡ o
          → TreeFits F (move_child F overloaded candidates child (t, changed)).0
      go none q = rw (q, move_child) h
      go (some n) q =
          let best : Option P =
            (best_candidate F t child n candidates
              (record { parent = none; score = F.neg_infinity32 })).parent in
          elim (Option-cases best) [
            | inl nobody ↦ rw (q, move_child) (rw nobody h)
            | inr (parent, b) ↦
                rw (q, move_child) (rw b (move_to-TreeFits overloaded child parent t h))
          ]

  move_children-TreeFits :
      (overloaded : P) (candidates children : List P) (r : StreamTree F P × Bool)
      → TreeFits F r.0
      → TreeFits F (move_children F overloaded candidates children r).0
  unfolding move_children
  move_children-TreeFits overloaded candidates [] r h = h
  move_children-TreeFits overloaded candidates (c ∷ cs) r h =
      move_children-TreeFits overloaded candidates cs _
        (move_child-TreeFits overloaded candidates c r h)

  relieve_node-TreeFits :
      (candidates : List P) (overloaded : P) (r : StreamTree F P × Bool)
      → TreeFits F r.0
      → TreeFits F (relieve_node F candidates overloaded r).0
  unfolding relieve_node
  relieve_node-TreeFits candidates overloaded r h = elim (Option-cases (get overloaded r.0.nodes)) [
    | inl gone ↦ rw (gone, relieve_node) h
    | inr (n, q) ↦ rw (q, relieve_node) (move_children-TreeFits overloaded candidates _ r h)
  ]

  relieve-TreeFits :
      (candidates overloaded : List P) (r : StreamTree F P × Bool)
      → TreeFits F r.0
      → TreeFits F (relieve F candidates overloaded r).0
  unfolding relieve
  relieve-TreeFits candidates [] r h = h
  relieve-TreeFits candidates (o ∷ os) r h =
      relieve-TreeFits candidates os _ (relieve_node-TreeFits candidates o r h)

  adopt-TreeFits :
      (ids : List P) (r : StreamTree F P × Bool) → TreeFits F r.0 → TreeFits F (adopt F ids r).0
  unfolding adopt
  adopt-TreeFits [] r h = h
  adopt-TreeFits (id ∷ ids) (t, changed) h = adopt-TreeFits ids _ (find_parent-TreeFits F id t h)

  rebalance-TreeFits :
      (now : ℕ) (t : StreamTree F P) → TreeFits F t → TreeFits F (rebalance F now t).0
  unfolding rebalance
  rebalance-TreeFits now t h =
      elim (Bool-cases (
        nat_beq (length (ids_of F (is_candidate F) t.nodes)) 0
        || nat_beq (length (ids_of F (is_overloaded F) t.nodes)) 0)) [
          | inl nothing ↦ rw nothing (record { live = h.live; saved = h.saved })
          | inr work ↦ rw work (
              adopt-TreeFits _ _
                (relieve-TreeFits _ _ _ (record { live = h.live; saved = h.saved })))
        ]

  modify-TreeFits :
      (p : P) (f : TreeNode F P → TreeNode F P) (t : StreamTree F P)
      → ((n : TreeNode F P) → IsBounded n → IsBounded (f n))
      → TreeFits F t
      → TreeFits F (record t { nodes = modify p f t.nodes })
  modify-TreeFits p f t g h = record {
    live = Entries-modify (λ _ n. IsBounded n) p f t.nodes (λ j n k. g n k) h.live;
    saved = h.saved;
  }

  pub Step-TreeFits : {t u : StreamTree F P} → Step F t u → TreeFits F t → TreeFits F u
  Step-TreeFits {t} (sets_source p now) h = set_source-TreeFits F p now t h
  Step-TreeFits {t} (joins p role bandwidth now) h = add_peer-TreeFits F p role bandwidth now t h
  Step-TreeFits {t} (leaves p) h = remove_peer-TreeFits p t h
  Step-TreeFits {t} (drops_out p grace now) h = disconnect-TreeFits p grace now t h
  Step-TreeFits {t} (comes_back p) h = reconnection-TreeFits p t h
  Step-TreeFits {t} (rebalances now) h = rebalance-TreeFits now t h
  Step-TreeFits {t} (measures p bandwidth latency rate now) h =
      modify-TreeFits p _ t (update_metrics-IsBounded F bandwidth latency rate now) h
  Step-TreeFits {t} (fails p) h = modify-TreeFits p _ t (record_failure-IsBounded F) h
  Step-TreeFits {t} (succeeds p) h =
      modify-TreeFits p _ t (λ n k. record_success-IsBounded F n k.few_children) h

  Reach-TreeFits : {t u : StreamTree F P} → TreeFits F t → Reach F t u → TreeFits F u
  Reach-TreeFits h here = h
  Reach-TreeFits h (next r s) = Step-TreeFits s (Reach-TreeFits h r)

  -- Whatever happens to a new tree, in any order and under any floating-point arithmetic: every peer
  -- of it has at most seven children and a limit between one and seven, at least three for a
  -- publisher; so has every peer that is remembered after a disconnect.
  pub fan_out_stays_bounded :
      (id : List ℕ) (config : TopologyConfig F) (now : ℕ) {t : StreamTree F P}
      → Reach F (Stream.new F id config now) t
      → TreeFits F t
  unfolding Stream.new
  fan_out_stays_bounded id config now r = Reach-TreeFits (record { live = tt; saved = tt }) r
