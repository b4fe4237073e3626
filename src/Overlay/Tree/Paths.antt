-- ===== src/Overlay/Tree/Paths.antt =====
-- `get_path_to_peer` of core/src/overlay/tree.rs: it climbs from a peer to a peer without parent.
-- The loop of the program has no bound; the fuel stands for its rounds.
use mathlib.Core.List.{reverse, reverse-cons, append_assoc}
use open_broadcast_network.Prelude.{
  ℕ, zero, suc, ◌+◌, ◌≤◌, ◌<◌, ◌≡◌, refl, ap, ◌∙◌, true, Option, none, some, List, [], ◌∷◌, ◌++◌,
  length, Eq, arith,
}
use open_broadcast_network.Prelude.Maps.{get, contains_key, contains_key-get}
use open_broadcast_network.Overlay.Floats.{Floats}
use open_broadcast_network.Overlay.Tree.Node.{TreeNode}
use open_broadcast_network.Overlay.Tree.Stream.{StreamTree, some_path, path_loop, get_path_to_peer}
use open_broadcast_network.Overlay.Tree.Links.{Linked}

module _ (F : Floats) {P : Type 0} ⦃e : Eq P⦄ where
  -- The list leads from the peer over its parents to a peer that has none.
  pub data Climbs (t : StreamTree F P) : P → List P → Type 0 where
    root :
        {p : P} (n : TreeNode F P) → get p t.nodes ≡ some n → n.parent ≡ none → Climbs t p (p ∷ [])
    climb :
        {p q : P} {path : List P} (n : TreeNode F P)
        → get p t.nodes ≡ some n
        → n.parent ≡ some q
        → Climbs t q path
        → Climbs t p (p ∷ path)

  path_loop-Climbs :
      (k : ℕ) (t : StreamTree F P)
      → Linked k t.nodes
      → (fuel : ℕ) (p : P) (n : TreeNode F P) (done : List P) → get p t.nodes ≡ some n
      → n.depth < fuel
      → (path : List P) × (path_loop F fuel p done t ≡ some (done ++ path))
        × Climbs t p path
        × (length path ≤ n.depth + 1)
  unfolding path_loop
  path_loop-Climbs k t h zero p n done q room = absurd (omega arith)
  path_loop-Climbs k t h (suc fuel) p n done q room = go n.parent refl (path_loop-Climbs k t h fuel)
    where
      go :
          (o : Option P)
          → n.parent ≡ o
          → ((p : P) (n : TreeNode F P) (done : List P)
              → get p t.nodes ≡ some n
              → n.depth < fuel
              → (path : List P) × (path_loop F fuel p done t ≡ some (done ++ path))
                × Climbs t p path
                × (length path ≤ n.depth + 1))
          → (path : List P) × (path_loop F (suc fuel) p done t ≡ some (done ++ path))
            × Climbs t p path
            × (length path ≤ n.depth + 1)
      go none r ih = (p ∷ [], rw (q, path_loop) (rw r), root n q r, omega arith)
      go (some parent) r ih =
          let (m, there, child, depth) = h.up p parent n q r in
          let (path, loop, climbs, short) = ih parent m (done ++ p ∷ []) there (omega arith) in
          (
            p ∷ path,
            rw (q, path_loop) (rw r (loop ∙ ap some (append_assoc done (p ∷ []) path))),
            climb n q r climbs,
            omega arith,
          )

  some_path-reverse :
      (p : P) (path : List P) → some_path (reverse (p ∷ path)) ≡ some (reverse (p ∷ path))
  some_path-reverse p path = rw (reverse-cons p path) (go (reverse path))
    where
      go : (xs : List P) → some_path (xs ++ p ∷ []) ≡ some (xs ++ p ∷ [])
      go [] = refl
      go (x ∷ xs) = refl

  Climbs-path :
      (t : StreamTree F P) (p : P) (path : List P)
      → Climbs t p path
      → some_path (reverse path) ≡ some (reverse path)
  Climbs-path t p path (root n q r) = refl
  Climbs-path t p path (climb {path = rest} n q r c) = some_path-reverse p rest

  -- In a tree whose links are consistent and whose peers are at most `k` deep, `k + 1` rounds of the
  -- loop are enough for every peer: the answer leads from a peer without parent down to the peer that
  -- was asked for, each the parent of the next, over at most `k + 1` peers.
  pub get_path_to_peer-Climbs :
      (k : ℕ) (t : StreamTree F P) (p : P) (n : TreeNode F P) (fuel : ℕ)
      → Linked k t.nodes
      → get p t.nodes ≡ some n
      → k < fuel
      → (path : List P) × (get_path_to_peer F fuel p t ≡ some (some (reverse path)))
        × Climbs t p path
        × (length path ≤ k + 1)
  unfolding get_path_to_peer
  get_path_to_peer-Climbs k t p n fuel h q room =
      let low : n.depth ≤ k = h.shallow p n q in
      let (path, loop, climbs, short) = path_loop-Climbs k t h fuel p n [] q (omega arith) in
      let there : contains_key p t.nodes ≡ true = contains_key-get p t.nodes ∙ rw q in
      (path, rw (there, loop, Climbs-path t p path climbs), climbs, omega arith)

  cycle_loops :
      (t : StreamTree F P) (p q : P) (n m : TreeNode F P)
      → get p t.nodes ≡ some n
      → n.parent ≡ some q
      → get q t.nodes ≡ some m
      → m.parent ≡ some p
      → (fuel : ℕ) (done : List P)
      → (path_loop F fuel p done t ≡ none) × (path_loop F fuel q done t ≡ none)
  unfolding path_loop
  cycle_loops t p q n m np nq mq mp zero done = (refl, refl)
  cycle_loops t p q n m np nq mq mp (suc fuel) done = (
    rw (np, path_loop) (rw nq (cycle_loops t p q n m np nq mq mp fuel (done ++ p ∷ [])).1),
    rw (mq, path_loop) (rw mp (cycle_loops t p q n m np nq mq mp fuel (done ++ q ∷ [])).0),
  )

  -- Where two peers are the parents of one another, no number of rounds is enough: the loop of
  -- `get_path_to_peer` never ends.
  pub get_path_to_peer_endless :
      (t : StreamTree F P) (p q : P) (n m : TreeNode F P)
      → get p t.nodes ≡ some n
      → n.parent ≡ some q
      → get q t.nodes ≡ some m
      → m.parent ≡ some p
      → (fuel : ℕ) → get_path_to_peer F fuel p t ≡ none
  unfolding get_path_to_peer
  get_path_to_peer_endless t p q n m np nq mq mp fuel =
      let there : contains_key p t.nodes ≡ true = contains_key-get p t.nodes ∙ rw np in
      rw (there, (cycle_loops t p q n m np nq mq mp fuel []).0)
