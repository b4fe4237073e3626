-- ===== src/Prelude/Maps/Sets.antt =====
-- The laws of sets.
use open_broadcast_network.Prelude.Class.{Eq, ◌==◌}
use open_broadcast_network.Prelude.Lists.{length}
use open_broadcast_network.Prelude.Maps.{contains, set_insert, set_remove}
use Prim.Native.Nat.{◌+◌, ◌≤◌}
use mathlib.Core.Path.{◌≡◌}
use mathlib.Core.Bool.{false, not, ◌&&◌, ◌||◌}
use mathlib.Core.List.{List, [], ◌∷◌}
use native.Mathlib.Omega.{arith}

module _ {ℓ} {K : Type ℓ} ⦃e : Eq K⦄ where
  pub contains-set_insert :
      (k j : K) (s : List K) → contains j (set_insert k s) ≡ (k == j || contains j s)
  unfolding contains set_insert
  contains-set_insert k j s = ground (arith, e.beq_iff k j)

  pub contains-set_remove :
      (k j : K) (s : List K) → contains j (set_remove k s) ≡ (not (k == j) && contains j s)
  unfolding contains set_remove
  contains-set_remove k j [] = ground arith
  contains-set_remove k j (i ∷ s) =
      ground (arith, e.beq_iff k j, e.beq_iff i k, e.beq_iff i j, contains-set_remove k j s)

  pub length-set_insert_new :
      (k : K) (s : List K) → contains k s ≡ false → length (set_insert k s) ≡ length s + 1
  unfolding set_insert
  length-set_insert_new k s h = ground arith

  pub length-set_insert-le : (k : K) (s : List K) → length (set_insert k s) ≤ length s + 1
  unfolding set_insert
  length-set_insert-le k s = ground arith

  pub length-set_remove-le : (k : K) (s : List K) → length (set_remove k s) ≤ length s
  unfolding set_remove
  length-set_remove-le k [] = omega arith
  length-set_remove-le k (i ∷ s) = ground (arith, length-set_remove-le k s)
