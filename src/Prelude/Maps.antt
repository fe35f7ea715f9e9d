-- ===== src/Prelude/Maps.antt =====
-- Go maps as association lists. A read of a missing key is `none`, and so is a read of a nil map.
-- Go leaves the order of a `range` loop over a map open; the loops of the model go from the last
-- entry of the list to the first.
use mathlib.Core.Path.{◌≡◌, refl}
use mathlib.Core.Option.{Option, none, some}
use mathlib.Core.List.{List, [], ◌∷◌}
use native.Mathlib.Omega.{arith}
use mathlib.Core.Logic.{inl, inr}
use dcrros.Prelude.Tests.{if◌then◌else◌, Bool-cases}
use dcrros.Prelude.Keys.{Comparable, ◌==◌, ==_refl, ==_eq}

abbrev pub Map {ℓ κ} : Type ℓ → Type κ → Type (ℓ ⊔ κ)
Map K V = List (K × V)

abbrev pub or_else {ℓ} : {A : Type ℓ} → Option A → Option A → Option A
or_else none b = b
or_else (some a) b = some a

module _ {ℓ κ} {K : Type ℓ} {V : Type κ} ⦃e : Comparable K⦄ where
  -- v, ok := m[k]
  unfoldable pub lookup : K → Map K V → Option V
  lookup k [] = none
  lookup k ((key, value) ∷ rest) = if key == k then some value else lookup k rest

  -- m[k] = v
  unfoldable pub insert : K → V → Map K V → Map K V
  insert k v [] = (k, v) ∷ []
  insert k v ((key, value) ∷ rest) =
      if key == k then (k, v) ∷ rest else (key, value) ∷ insert k v rest

  -- delete(m, k)
  unfoldable pub erase : K → Map K V → Map K V
  erase k [] = []
  erase k ((j, w) ∷ m) = if j == k then erase k m else (j, w) ∷ erase k m

  -- for k, v := range m { res[k] = v }
  unfoldable pub insert_all : Map K V → Map K V → Map K V
  insert_all res [] = res
  insert_all res ((k, v) ∷ m) = insert k v (insert_all res m)

  pub lookup-nil : (k : K) → lookup k [] ≡ none
  unfolding lookup
  lookup-nil k = refl

  pub lookup-cons :
      (k j : K) (v : V) (m : Map K V)
      → lookup k ((j, v) ∷ m) ≡ (if j == k then some v else lookup k m)
  unfolding lookup
  lookup-cons k j v m = refl

  -- A write is read back under its key and changes no other.
  pub lookup-insert :
      (k other : K) (v : V) (m : Map K V)
      → lookup other (insert k v m) ≡ (if k == other then some v else lookup other m)
  unfolding insert lookup
  lookup-insert k other v [] = refl
  lookup-insert k other v ((key, value) ∷ rest) = ground (
    arith,
    lookup-insert k other v rest,
    e.equal_iff key k,
    e.equal_iff key other,
    e.equal_iff k other,
  )

  pub lookup-erase :
      (k j : K) (m : Map K V) → lookup j (erase k m) ≡ (if k == j then none else lookup j m)
  unfolding lookup erase
  lookup-erase k j [] = ground arith
  lookup-erase k j ((i, w) ∷ m) =
      ground (arith, e.equal_iff k j, e.equal_iff i k, e.equal_iff i j, lookup-erase k j m)

  pub lookup-insert_all :
      (j : K) (res m : Map K V) → lookup j (insert_all res m) ≡ or_else (lookup j m) (lookup j res)
  unfolding lookup insert_all
  lookup-insert_all j res [] = refl
  lookup-insert_all j res ((k, v) ∷ m) =
      ground (arith, lookup-insert k j v (insert_all res m), lookup-insert_all j res m)

  pub insert_all-single :
      (k : K) (v : V) (m : Map K V) → insert_all m (insert k v []) ≡ insert k v m
  unfolding insert insert_all
  insert_all-single k v m = refl

  pub lookup-insert_self : (k : K) (v : V) (m : Map K V) → lookup k (insert k v m) ≡ some v
  lookup-insert_self k v m = rw (lookup-insert, ==_refl k)

  -- No key is listed twice, as in every Go map.
  abbrev pub IsUnique : Map K V → Type κ
  IsUnique [] = Unit
  IsUnique ((k, v) ∷ m) = (lookup k m ≡ none) × IsUnique m

  pub insert-IsUnique : (k : K) (v : V) (m : Map K V) → IsUnique m → IsUnique (insert k v m)
  unfolding insert
  insert-IsUnique k v [] u = (lookup-nil k, tt)
  insert-IsUnique k v ((j, w) ∷ m) u = elim (Bool-cases (j == k)) [
    | inl same ↦ rw same (rw (==_eq j k same) at u.0, u.1)
    | inr other ↦ rw other (
      rw (lookup-insert k j v m) (ground (arith, e.equal_iff k j, e.equal_iff j k)),
      insert-IsUnique k v m u.1,
    )
  ]

  pub erase-IsUnique : (k : K) (m : Map K V) → IsUnique m → IsUnique (erase k m)
  unfolding erase
  erase-IsUnique k [] u = tt
  erase-IsUnique k ((j, w) ∷ m) u = elim (Bool-cases (j == k)) [
    | inl same ↦ rw same (erase-IsUnique k m u.1)
    | inr other ↦ rw other (rw (lookup-erase k j m) (ground (arith, u.0)), erase-IsUnique k m u.1)
  ]
