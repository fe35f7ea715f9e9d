-- ===== src/MemDb/Slices.antt =====
-- The slices of the middle bucket (memdb.go): appending utxos and removing one by putting the last
-- in its place.
use dcrros.Prelude.{
  ℕ, ◌≡◌, refl, sym, ap, ◌∙◌, true, false, none, some, List, [], ◌∷◌, ◌++◌, arith, if◌then◌else◌,
  ◌⊎◌, inl, inr, Bool-cases,
}
use mathlib.Core.Path.{subst}
use dcrros.Prelude.Lists.{drop_last, last?}
use dcrros.Prelude.Maps.{Map, lookup, or_else, lookup-nil, lookup-cons, IsUnique}
use dcrros.Prelude.Keys.{◌==◌, ==_refl}
use dcrros.BackendDb.{OutPoint, outpoint_comparable, outpoint_eq_iff}
use dcrros.MemDb.State.{Utxo}
use dcrros.MemDb.Commit.{append_utxos, refill, remove_few}
use dcrros.MemDb.Buckets.{few_lookup, Distinct}

pub few_lookup-append :
    (outp : OutPoint) (xs ys : List Utxo)
    → few_lookup outp (xs ++ ys) ≡ or_else (few_lookup outp ys) (few_lookup outp xs)
few_lookup-append outp [] ys = ground arith
few_lookup-append outp (x ∷ xs) ys = ground (arith, few_lookup-append outp xs ys)

pub few_lookup-append_utxos :
    (outp : OutPoint) (few : List Utxo) (us : Map OutPoint ℕ)
    → few_lookup outp (append_utxos few us) ≡ or_else (lookup outp us) (few_lookup outp few)
unfolding append_utxos
few_lookup-append_utxos outp few [] = ground (arith, lookup-nil {V = ℕ} outp)
few_lookup-append_utxos outp few ((o, x) ∷ us) = ground (
  arith,
  few_lookup-append outp (append_utxos few us) (record { outp = o; amt = x } ∷ []),
  few_lookup-append_utxos outp few us,
  lookup-cons outp o x us,
)

Distinct-snoc :
    (xs : List Utxo) (u : Utxo)
    → Distinct xs
    → few_lookup u.outp xs ≡ none
    → Distinct (xs ++ u ∷ [])
Distinct-snoc [] u d h = (refl, tt)
Distinct-snoc (x ∷ xs) u d h = (
  ground (
    arith,
    few_lookup-append x.outp xs (u ∷ []),
    outpoint_eq_iff u.outp x.outp,
    outpoint_eq_iff x.outp u.outp,
    ==_refl x.outp,
  ),
  Distinct-snoc xs u d.1 (ground arith),
)

-- Utxos that are not in the slice yet can be appended.
pub append_utxos-Distinct :
    (few : List Utxo) (us : Map OutPoint ℕ)
    → Distinct few
    → IsUnique us
    → ((o : OutPoint) → (lookup o us ≡ none) ⊎ (few_lookup o few ≡ none))
    → Distinct (append_utxos few us)
unfolding append_utxos
append_utxos-Distinct few [] d u fresh = d
append_utxos-Distinct few ((o, x) ∷ us) d u fresh =
    Distinct-snoc (append_utxos few us) (record { outp = o; amt = x })
      (append_utxos-Distinct few us d u.1 (λ p. ground (arith, fresh p, lookup-cons p o x us)))
      (ground
        (arith, few_lookup-append_utxos o few us, u.0, fresh o, lookup-cons o o x us, ==_refl o))

last-drop_last :
    (u : Utxo) (us : List Utxo)
    → (l : Utxo) × (last? (u ∷ us) ≡ some l) × (u ∷ us ≡ drop_last (u ∷ us) ++ l ∷ [])
last-drop_last u [] = (u, refl, refl)
last-drop_last u (v ∷ us) = let (l, e, h) = last-drop_last v us in (l, e, ap (λ xs. u ∷ xs) h)

Distinct-init :
    (xs : List Utxo) (l : Utxo)
    → Distinct (xs ++ l ∷ [])
    → Distinct xs × (few_lookup l.outp xs ≡ none)
Distinct-init [] l d = (tt, refl)
Distinct-init (x ∷ xs) l d =
    let (ih, h) = Distinct-init xs l d.1 in
    let e = few_lookup-append x.outp xs (l ∷ []) in
    (
      ground (arith, d.0),
      ground (arith, d.0, outpoint_eq_iff l.outp x.outp, outpoint_eq_iff x.outp l.outp),
    )

few_lookup-rotate :
    (o : OutPoint) (l : Utxo) (xs : List Utxo)
    → few_lookup l.outp xs ≡ none
    → few_lookup o (l ∷ xs) ≡ few_lookup o (xs ++ l ∷ [])
few_lookup-rotate o l xs n =
    ground (arith, few_lookup-append o xs (l ∷ []), outpoint_eq_iff l.outp o)

refill-last : (us : List Utxo) (l : Utxo) → last? us ≡ some l → refill us ≡ l ∷ drop_last us
unfolding refill
refill-last us l e = rw (e, refill)

-- Moving the last entry to the front changes no listing.
refill_lem :
    (us : List Utxo)
    → Distinct us
    → Distinct (refill us) × ((o : OutPoint) → few_lookup o (refill us) ≡ few_lookup o us)
refill_lem [] d = unfold refill in (tt, λ o. refl)
refill_lem (u ∷ us) d =
    let (l, e, h) = last-drop_last u us in
    let front = drop_last (u ∷ us) in
    let (ds, n) = Distinct-init front l (subst Distinct h d) in
    rw (refill-last (u ∷ us) l e)
      ((n, ds), λ o. few_lookup-rotate o l front n ∙ ap (few_lookup o) (sym h))

-- What a removal of the outpoint leaves listed.
abbrev pub removed_few : OutPoint → List Utxo → List Utxo
removed_few outp us = elim (remove_few outp us) [ none ↦ us | some vs ↦ vs ]

removed_few-here :
    (outp : OutPoint) (u : Utxo) (us : List Utxo)
    → (u.outp == outp) ≡ true
    → removed_few outp (u ∷ us) ≡ refill us
unfolding remove_few
removed_few-here outp u us h = ground arith

removed_few-later :
    (outp : OutPoint) (u : Utxo) (us : List Utxo)
    → (u.outp == outp) ≡ false
    → removed_few outp (u ∷ us) ≡ u ∷ removed_few outp us
unfolding remove_few
removed_few-later outp u us h = ground arith

-- From a slice with no outpoint twice, the scan removes the outpoint and nothing else.
pub few_lookup-removed_few :
    (outp o : OutPoint) (us : List Utxo)
    → Distinct us
    → few_lookup o (removed_few outp us) ≡ (if outp == o then none else few_lookup o us)
few_lookup-removed_few outp o [] d = unfold remove_few in ground arith
few_lookup-removed_few outp o (u ∷ us) d = elim (Bool-cases (u.outp == outp)) [
  | inl here ↦ rw (removed_few-here outp u us here) (
      ground (
        arith,
        (refill_lem us d.1).1 o,
        d.0,
        outpoint_eq_iff u.outp outp,
        outpoint_eq_iff outp o,
        outpoint_eq_iff u.outp o,
      ))
  | inr later ↦ rw (removed_few-later outp u us later) (
      ground (
        arith,
        few_lookup-removed_few outp o us d.1,
        outpoint_eq_iff u.outp outp,
        outpoint_eq_iff outp o,
        outpoint_eq_iff u.outp o,
      ))
]

pub removed_few-Distinct :
    (outp : OutPoint) (us : List Utxo) → Distinct us → Distinct (removed_few outp us)
removed_few-Distinct outp [] d = unfold remove_few in tt
removed_few-Distinct outp (u ∷ us) d = elim (Bool-cases (u.outp == outp)) [
  | inl here ↦ rw (removed_few-here outp u us here) (refill_lem us d.1).0
  | inr later ↦ rw (removed_few-later outp u us later) (
    ground (arith, few_lookup-removed_few outp u.outp us d.1, d.0),
    removed_few-Distinct outp us d.1,
  )
]
