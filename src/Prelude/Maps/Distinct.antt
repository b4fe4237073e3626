-- ===== src/Prelude/Maps/Distinct.antt =====
-- Maps whose keys stand once each, as those of a `HashMap` do, and their entries.
use native.Mathlib.Omega.{arith}
use open_broadcast_network.Prelude.Tests.{if◌then◌else◌, Bool-cases}
use open_broadcast_network.Prelude.Class.{Eq, ◌==◌}
use open_broadcast_network.Prelude.Maps.{get, insert, remove, modify, contains_key}
use mathlib.Core.Path.{◌≡◌, refl}
use mathlib.Core.Bool.{true, false, ◌||◌}
use mathlib.Core.Logic.{inl, inr, ◌⊎◌}
use mathlib.Core.Option.{some}
use mathlib.Core.List.{List, [], ◌∷◌}

module _ {ℓ κ} {K : Type ℓ} {V : Type κ} ⦃e : Eq K⦄ where
  abbrev pub Distinct : List (K × V) → Type 0
  Distinct [] = Unit
  Distinct ((k, v) ∷ m) = (contains_key k m ≡ false) × Distinct m

  pub contains_key-insert :
      (k j : K) (v : V) (m : List (K × V))
      → contains_key j (insert k v m) ≡ (k == j || contains_key j m)
  unfolding insert contains_key
  contains_key-insert k j v [] = refl
  contains_key-insert k j v ((i, w) ∷ m) =
      ground (arith, e.beq_iff k j, e.beq_iff i k, e.beq_iff i j, contains_key-insert k j v m)

  pub contains_key-remove :
      (k j : K) (m : List (K × V))
      → contains_key j (remove k m) ≡ (if k == j then false else contains_key j m)
  unfolding remove contains_key
  contains_key-remove k j [] = ground arith
  contains_key-remove k j ((i, w) ∷ m) =
      ground (arith, e.beq_iff k j, e.beq_iff i k, e.beq_iff i j, contains_key-remove k j m)

  contains_key-modify :
      (k j : K) (f : V → V) (m : List (K × V)) → contains_key j (modify k f m) ≡ contains_key j m
  unfolding modify contains_key
  contains_key-modify k j f [] = refl
  contains_key-modify k j f ((i, w) ∷ m) = ground (arith, contains_key-modify k j f m)

  pub Distinct-insert : (k : K) (v : V) (m : List (K × V)) → Distinct m → Distinct (insert k v m)
  unfolding insert
  Distinct-insert k v [] d = (unfold contains_key in refl, tt)
  Distinct-insert k v ((i, w) ∷ m) (c, d) = elim (Bool-cases (i == k)) [
    | inl same ↦ rw same (ground (arith, e.beq_iff i k), d)
    | inr other ↦ rw other (
      ground (arith, contains_key-insert k i v m, e.beq_iff i k, e.beq_iff k i),
      Distinct-insert k v m d,
    )
  ]

  pub Distinct-modify :
      (k : K) (f : V → V) (m : List (K × V)) → Distinct m → Distinct (modify k f m)
  unfolding modify
  Distinct-modify k f [] d = tt
  Distinct-modify k f ((i, w) ∷ m) (c, d) = elim (Bool-cases (i == k)) [
    | inl same ↦ rw same (c, d)
    | inr other ↦ rw other (ground (arith, c, contains_key-modify k i f m), Distinct-modify k f m d)
  ]

module _ {K : Type 0} {V : Type 0} ⦃e : Eq K⦄ where
  abbrev pub IsEntry : K → V → List (K × V) → Type 0
  IsEntry k v [] = ⊥
  IsEntry k v ((j, w) ∷ m) = ((j ≡ k) × (w ≡ v)) ⊎ IsEntry k v m

  contains_key_of_entry :
      (k : K) (v : V) (m : List (K × V)) → IsEntry k v m → contains_key k m ≡ true
  unfolding contains_key
  contains_key_of_entry k v [] h = absurd h
  contains_key_of_entry k v ((j, w) ∷ m) (inl (p, q)) = ground (arith, e.beq_iff j k)
  contains_key_of_entry k v ((j, w) ∷ m) (inr h) = ground (arith, contains_key_of_entry k v m h)

  -- An entry is what is read at its key.
  pub get_of_entry :
      (k : K) (v : V) (m : List (K × V)) → Distinct m → IsEntry k v m → get k m ≡ some v
  unfolding get
  get_of_entry k v [] d h = absurd h
  get_of_entry k v ((j, w) ∷ m) (c, d) (inl (p, q)) = ground (arith, e.beq_iff j k)
  get_of_entry k v ((j, w) ∷ m) (c, d) (inr h) =
      ground (arith, e.beq_iff j k, get_of_entry k v m d h, contains_key_of_entry k v m h)

  pub IsEntry-of_get : (k : K) (v : V) (m : List (K × V)) → get k m ≡ some v → IsEntry k v m
  unfolding get
  IsEntry-of_get k v [] h = cc
  IsEntry-of_get k v ((j, w) ∷ m) h = elim (Bool-cases (j == k)) [
    | inl same ↦ inl ((e.beq_iff j k).0 same, ground arith)
    | inr other ↦ inr (IsEntry-of_get k v m (rw other at h))
  ]
