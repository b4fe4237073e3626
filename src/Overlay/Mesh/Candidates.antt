-- ===== src/Overlay/Mesh/Candidates.antt =====
-- The candidates that core/src/overlay/mesh/network.rs considers for a peer.
use open_broadcast_network.Prelude.{
  ℕ, ◌≡◌, refl, true, false, some, List, [], ◌∷◌, Eq, ◌==◌, leb, Bool-cases, inl, inr, All, arith,
}
use open_broadcast_network.Prelude.Maps.{get}
use open_broadcast_network.Prelude.Maps.Distinct.{Distinct, IsEntry, get_of_entry}
use open_broadcast_network.Overlay.Mesh.Network.{
  MeshNode, can_accept_connections, insert_candidate, sort_candidates, candidates_for,
}
use open_broadcast_network.Overlay.Mesh.Links.{accepts}

module _ {P : Type 0} (Q : P × ℕ → Type 0) where
  insert_candidate-All :
      (c : P × ℕ) (cs : List (P × ℕ)) → Q c → All Q cs → All Q (insert_candidate c cs)
  unfolding insert_candidate
  insert_candidate-All c [] h hs = (h, tt)
  insert_candidate-All c (d ∷ ds) h (k, hs) = elim (Bool-cases (leb d.1 c.1)) [
    | inl first ↦ rw first (h, (k, hs))
    | inr later ↦ rw later (k, insert_candidate-All c ds h hs)
  ]

  pub sort_candidates-All : (cs : List (P × ℕ)) → All Q cs → All Q (sort_candidates cs)
  unfolding sort_candidates
  sort_candidates-All [] h = h
  sort_candidates-All (c ∷ cs) (h, hs) =
      insert_candidate-All c (sort_candidates cs) h (sort_candidates-All cs hs)

module _ {P : Type 0} ⦃e : Eq P⦄ where
  -- The candidates of a peer are others.
  pub candidates_for-others :
      (p : P) (nodes : List (P × MeshNode P))
      → All (λ d. (d.0 == p) ≡ false) (candidates_for p nodes)
  unfolding candidates_for
  candidates_for-others p [] = tt
  candidates_for-others p ((id, n) ∷ rest) = elim (Bool-cases (id == p)) [
    | inl same ↦ rw same (candidates_for-others p rest)
    | inr other ↦ elim (Bool-cases (can_accept_connections n)) [
      | inl room ↦ rw (other, room) (other, candidates_for-others p rest)
      | inr full ↦ rw (other, full) (candidates_for-others p rest)
    ]
  ]

  entries_read :
      (whole rest : List (P × MeshNode P))
      → Distinct whole
      → ((k : P) (n : MeshNode P) → IsEntry k n rest → IsEntry k n whole)
      → All (λ x. get x.0 whole ≡ some x.1) rest
  entries_read whole [] d sub = tt
  entries_read whole ((k, n) ∷ rest) d sub = (
    get_of_entry k n whole d (sub k n (inl (refl, refl))),
    entries_read whole rest d (λ j w i. sub j w (inr i)),
  )

  candidates_for-accepting :
      (p : P) (whole rest : List (P × MeshNode P))
      → All (λ x. get x.0 whole ≡ some x.1) rest
      → All (λ d. ((d.0 == p) ≡ false) × (accepts whole d.0 ≡ true)) (candidates_for p rest)
  unfolding candidates_for
  candidates_for-accepting p whole [] h = tt
  candidates_for-accepting p whole ((id, n) ∷ rest) (at, h) = elim (Bool-cases (id == p)) [
    | inl same ↦ rw same (candidates_for-accepting p whole rest h)
    | inr other ↦ elim (Bool-cases (can_accept_connections n)) [
      | inl room ↦
          rw (other, room)
            ((other, ground (arith, at, room)), candidates_for-accepting p whole rest h)
      | inr full ↦ rw (other, full) (candidates_for-accepting p whole rest h)
    ]
  ]

  -- They have room.
  pub candidates_for-accepts :
      (p : P) (nodes : List (P × MeshNode P))
      → Distinct nodes
      → All (λ d. ((d.0 == p) ≡ false) × (accepts nodes d.0 ≡ true)) (candidates_for p nodes)
  candidates_for-accepts p nodes d =
      candidates_for-accepting p nodes nodes (entries_read nodes nodes d (λ k n i. i))
