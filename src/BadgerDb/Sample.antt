-- ===== src/BadgerDb/Sample.antt =====
-- A small badger transaction: a map whose keys are unique, searched entry by entry.
use dcrros.Prelude.{
  ℕ, ◌≡◌, refl, sym, ap, inl, inr, ◌⊎◌, Bool, true, false, ◌&&◌, Option, none, some, List, [], ◌∷◌,
  Bool-cases, if◌then◌else◌, arith,
}
use dcrros.Prelude.Maps.{
  Map, lookup, insert, erase, IsUnique, insert-IsUnique, erase-IsUnique, lookup-insert,
  lookup-erase,
}
use dcrros.Prelude.Bytes.{starts_with}
use dcrros.Prelude.Results.{Result, ok, err}
use dcrros.BadgerDb.{KeyError, Txn}
use dcrros.BadgerDb.Order.{bytes_le}
use dcrros.BadgerDb.Latest.{IsSeek}
use dcrros.BadgerDb.Writes.{bytes_comparable, bytes_eq, bytes_eq_iff, IsTxn}

abbrev pub Entries : Type 0
Entries = Map (List ℕ) (List ℕ)

abbrev pub Store : Type 0
Store = (m : Entries) × IsUnique m

abbrev pub value_of : Option (List ℕ) → Result KeyError (List ℕ)
value_of none = err KeyError.key_not_found
value_of (some v) = ok v

abbrev pub under : List ℕ → Entries → Entries
under prefix [] = []
under prefix ((k, v) ∷ m) =
    let rest = under prefix m in if starts_with prefix k then (k, v) ∷ rest else rest

-- The greater of two keys
abbrev greater : List ℕ × List ℕ → Option (List ℕ × List ℕ) → Option (List ℕ × List ℕ)
greater e none = some e
greater (k, v) (some (j, w)) = if bytes_le j k then some (k, v) else some (j, w)

abbrev pub greatest : List ℕ → List ℕ → Entries → Option (List ℕ × List ℕ)
greatest prefix from [] = none
greatest prefix from ((k, v) ∷ m) =
    let rest = greatest prefix from m in
    if starts_with prefix k && bytes_le k from then greater (k, v) rest else rest

abbrev pub store_txn : Txn Store
store_txn = record {
  get = λ k s. value_of (lookup k s.0);
  set = λ k v s. (ok tt, (insert k v s.0, insert-IsUnique k v s.0 s.1));
  delete = λ k s. (ok tt, (erase k s.0, erase-IsUnique k s.0 s.1));
  items = λ prefix s. under prefix s.0;
  seek_back = λ prefix from s. greatest prefix from s.0;
}

value_if :
    (b : Bool) (v : List ℕ) (o : Option (List ℕ))
    → value_of (if b then some v else o) ≡ (if b then ok v else value_of o)
value_if true v o = refl
value_if false v o = refl

missing_if :
    (b : Bool) (o : Option (List ℕ))
    → value_of (if b then none else o) ≡ (if b then err KeyError.key_not_found else value_of o)
missing_if true o = refl
missing_if false o = refl

pub store_txn-IsTxn : IsTxn store_txn
store_txn-IsTxn = record {
  IsWritable = λ s. Unit;
  get-set = λ k v s h. (
    _,
    (refl, (tt, λ j. rw (lookup-insert k j v s.0) (value_if (bytes_eq k j) v (lookup j s.0)))),
  );
  get-delete = λ k s h.
      (_, (refl, (tt, λ j. rw (lookup-erase k j s.0) (missing_if (bytes_eq k j) (lookup j s.0)))));
}

pub store_is_writable : (s : Store) → IsTxn.IsWritable store_txn-IsTxn s
unfolding store_txn-IsTxn
store_is_writable s = tt

bytes_le_total : (xs ys : List ℕ) → bytes_le xs ys ≡ false → bytes_le ys xs ≡ true
unfolding bytes_le
bytes_le_total [] ys h = absurd cc
bytes_le_total (x ∷ xs) [] h = refl
bytes_le_total (x ∷ xs) (y ∷ ys) h = ground (arith, h, bytes_le_total xs ys)

bytes_le_trans :
    (xs ys zs : List ℕ) → bytes_le xs ys ≡ true → bytes_le ys zs ≡ true → bytes_le xs zs ≡ true
unfolding bytes_le
bytes_le_trans [] ys zs h k = refl
bytes_le_trans (x ∷ xs) [] zs h k = absurd cc
bytes_le_trans (x ∷ xs) (y ∷ ys) [] h k = absurd cc
bytes_le_trans (x ∷ xs) (y ∷ ys) (z ∷ zs) h k = ground (arith, h, k, bytes_le_trans xs ys zs)

bytes_le_refl : (xs : List ℕ) → bytes_le xs xs ≡ true
unfolding bytes_le
bytes_le_refl [] = refl
bytes_le_refl (x ∷ xs) = ground (arith, bytes_le_refl xs)

-- What is found among the entries
abbrev Found : List ℕ → List ℕ → Entries → List ℕ → List ℕ → Type 0
Found prefix from m k v =
    (lookup k m ≡ some v) × ((starts_with prefix k ≡ true) × (bytes_le k from ≡ true))

Found-later :
    (prefix from k0 v0 : List ℕ) (m : Entries) (k v : List ℕ)
    → lookup k0 m ≡ none
    → Found prefix from m k v
    → Found prefix from ((k0, v0) ∷ m) k v
unfolding lookup
Found-later prefix from k0 v0 m k v fresh (got, fits) = elim (Bool-cases (bytes_eq k0 k)) [
  | inl same ↦
      let got_none : lookup k m ≡ none = rw ((bytes_eq_iff k0 k).0 same) at fresh in absurd cc
  | inr other ↦ (rw (other, got) refl, fits)
]

Found-first :
    (prefix from k v : List ℕ) (m : Entries)
    → (starts_with prefix k && bytes_le k from) ≡ true
    → Found prefix from ((k, v) ∷ m) k v
unfolding lookup
Found-first prefix from k v m fits =
    (rw ((bytes_eq_iff k k).1 refl) refl, (ground (arith, fits), ground (arith, fits)))

same_entry : (e f : List ℕ × List ℕ) → some e ≡ some f → e ≡ f
same_entry e f h = cc

greater-cases :
    (k0 v0 k v : List ℕ) (r : Option (List ℕ × List ℕ))
    → greater (k0, v0) r ≡ some (k, v)
    → ((k0 ≡ k) × (v0 ≡ v)) ⊎ (r ≡ some (k, v))
greater-cases k0 v0 k v none e = inl (cc, cc)
greater-cases k0 v0 k v (some (j, w)) e = elim (Bool-cases (bytes_le j k0)) [
  | inl before ↦
      let first = same_entry (k0, v0) (k, v) (rw before at e) in
      inl (ap (λ p. p.0) first, ap (λ p. p.1) first)
  | inr after ↦ inr (rw after at e)
]

greatest-Found :
    (prefix from : List ℕ) (m : Entries) (k v : List ℕ)
    → IsUnique m
    → greatest prefix from m ≡ some (k, v)
    → Found prefix from m k v
greatest-Found prefix from [] k v u e = absurd cc
greatest-Found prefix from ((k0, v0) ∷ m) k v (fresh, u) e =
    elim (Bool-cases (starts_with prefix k0 && bytes_le k0 from)) [
      | inl fits ↦ elim (greater-cases k0 v0 k v (greatest prefix from m) (rw fits at e)) [
        | inl (key, value) ↦ rw (sym key, sym value) (Found-first prefix from k0 v0 m fits)
        | inr later ↦
            Found-later prefix from k0 v0 m k v fresh (greatest-Found prefix from m k v u later)
      ]
      | inr unfit ↦
          Found-later prefix from k0 v0 m k v fresh
            (greatest-Found prefix from m k v u (rw unfit at e))
    ]

greater-last :
    (k0 v0 k : List ℕ) (r : Option (List ℕ × List ℕ))
    → (bytes_le k k0 ≡ true)
      ⊎ ((j : List ℕ) × ((w : List ℕ) × ((r ≡ some (j, w)) × (bytes_le k j ≡ true))))
    → (j : List ℕ) × ((w : List ℕ) × ((greater (k0, v0) r ≡ some (j, w)) × (bytes_le k j ≡ true)))
greater-last k0 v0 k none (inl le) = (k0, (v0, (refl, le)))
greater-last k0 v0 k none (inr (j, (w, (e, le)))) = absurd cc
greater-last k0 v0 k (some (j, w)) (inl le) = elim (Bool-cases (bytes_le j k0)) [
  | inl before ↦ (k0, (v0, (rw before refl, le)))
  | inr after ↦ (j, (w, (rw after refl, bytes_le_trans k k0 j le (bytes_le_total j k0 after))))
]
greater-last k0 v0 k (some (j, w)) (inr (i, (x, (e, le)))) =
    let same : j ≡ i = cc in
    let le_j = rw (sym same) at le in
    elim (Bool-cases (bytes_le j k0)) [
      | inl before ↦ (k0, (v0, (rw before refl, bytes_le_trans k j k0 le_j before)))
      | inr after ↦ (j, (w, (rw after refl, le_j)))
    ]

greatest-last :
    (prefix from : List ℕ) (m : Entries) (k v : List ℕ)
    → lookup k m ≡ some v
    → starts_with prefix k ≡ true
    → bytes_le k from ≡ true
    → (j : List ℕ) × ((w : List ℕ) × ((greatest prefix from m ≡ some (j, w))
          × (bytes_le k j ≡ true)))
unfolding lookup
greatest-last prefix from [] k v e h l = absurd cc
greatest-last prefix from ((k0, v0) ∷ m) k v e h l = elim (Bool-cases (bytes_eq k0 k)) [
  | inl same ↦
      let key = (bytes_eq_iff k0 k).0 same in
      rw (rw (sym key) at h, rw (sym key) at l)
        (greater-last k0 v0 k (greatest prefix from m) (inl (rw key (bytes_le_refl k))))
  | inr other ↦
      let rest = greatest-last prefix from m k v (rw other at e) h l in
      elim (Bool-cases (starts_with prefix k0 && bytes_le k0 from)) [
        | inl fits ↦ rw fits (greater-last k0 v0 k (greatest prefix from m) (inr rest))
        | inr unfit ↦ rw unfit rest
      ]
]

value_of-some : (o : Option (List ℕ)) (v : List ℕ) → value_of o ≡ ok v → o ≡ some v
value_of-some none v e = absurd cc
value_of-some (some w) v e = cc

pub store_txn-IsSeek : IsSeek store_txn
store_txn-IsSeek = record {
  found = λ prefix from k v s e.
      let (got, fits) = greatest-Found prefix from s.0 k v s.1 e in
      (ap (λ o. value_of o) got, fits);
  last = λ prefix from k v s e h l.
      greatest-last prefix from s.0 k v (value_of-some (lookup k s.0) v e) h l;
}
