-- ===== src/Prelude/Maps/Keys.antt =====
-- What every entry of a map satisfies, and how the operations keep it.
use native.Mathlib.Omega.{arith}
use open_broadcast_network.Prelude.Tests.{Bool-cases}
use open_broadcast_network.Prelude.Class.{Eq, ◌==◌}
use open_broadcast_network.Prelude.Lists.{All, length}
use open_broadcast_network.Prelude.Maps.{get, insert, remove, modify}
use mathlib.Core.Path.{◌≡◌, refl, subst₂}
use mathlib.Core.Logic.{inl, inr}
use mathlib.Core.Option.{some}
use mathlib.Core.List.{List, [], ◌∷◌}

value_of_some {ℓ} : {A : Type ℓ} {a b : A} → some a ≡ some b → a ≡ b
value_of_some h = cc

module _ {ℓ κ μ} {K : Type ℓ} {V : Type κ} ⦃e : Eq K⦄ (P : K → V → Type μ) where
  -- Every value of the map satisfies `P` under its key.
  abbrev pub Entries : List (K × V) → Type μ
  Entries = All (λ p. P p.0 p.1)

  pub Entries-insert :
      (k : K) (v : V) (m : List (K × V)) → P k v → Entries m → Entries (insert k v m)
  unfolding insert
  Entries-insert k v [] p h = (p, tt)
  Entries-insert k v ((j, w) ∷ m) p (q, h) = elim (Bool-cases (j == k)) [
    | inl y ↦ rw y (p, h)
    | inr n ↦ rw n (q, Entries-insert k v m p h)
  ]

  pub Entries-remove : (k : K) (m : List (K × V)) → Entries m → Entries (remove k m)
  unfolding remove
  Entries-remove k [] h = h
  Entries-remove k ((j, w) ∷ m) (q, h) = elim (Bool-cases (j == k)) [
    | inl y ↦ rw y (Entries-remove k m h)
    | inr n ↦ rw n (q, Entries-remove k m h)
  ]

  pub Entries-modify :
      (k : K) (f : V → V) (m : List (K × V))
      → ((j : K) (w : V) → P j w → P j (f w))
      → Entries m
      → Entries (modify k f m)
  unfolding modify
  Entries-modify k f [] g h = h
  Entries-modify k f ((j, w) ∷ m) g (q, h) = elim (Bool-cases (j == k)) [
    | inl y ↦ rw y (g j w q, h)
    | inr n ↦ rw n (q, Entries-modify k f m g h)
  ]

  pub Entries-get : (k : K) (m : List (K × V)) {v : V} → Entries m → get k m ≡ some v → P k v
  unfolding get
  Entries-get k [] h g = cc
  Entries-get k ((j, w) ∷ m) {v} (q, h) g = elim (Bool-cases (j == k)) [
    | inl y ↦ subst₂ P ((e.beq_iff j k).0 y) (value_of_some (rw y at g)) q
    | inr n ↦ Entries-get k m h (rw n at g)
  ]

pub length-modify {ℓ κ} :
    {K : Type ℓ} {V : Type κ} ⦃e : Eq K⦄ (k : K) (f : V → V) (m : List (K × V))
    → length (modify k f m) ≡ length m
unfolding modify
length-modify k f [] = refl
length-modify k f ((j, w) ∷ m) = ground (arith, length-modify k f m)
