-- ===== src/MemDb/Merge.antt =====
-- The loop of `Update` (memdb.go) over the added utxos: each account moves between the buckets, and
-- what is listed grows by what the transaction added.
use dcrros.Prelude.{
  ℕ, String, ◌+◌, ◌≡◌, refl, true, ◌&&◌, Option, none, some, List, [], ◌∷◌, ◌++◌, arith, ltb,
  nat_eq, if◌then◌else◌, ◌⊎◌, inl, inr, Bool-cases,
}
use mathlib.Core.List.{append-nil}
use dcrros.Prelude.Lists.{length}
use dcrros.Prelude.Maps.{
  Map, lookup, insert_all, or_else, lookup-nil, lookup-cons, lookup-insert, lookup-erase,
  lookup-insert_all, IsUnique,
}
use dcrros.Prelude.Keys.{◌==◌, string_comparable}
use dcrros.BackendDb.{OutPoint, outpoint_comparable}
use dcrros.MemDb.State.{Utxo, MemDb}
use dcrros.MemDb.Balances.{or_nil}
use dcrros.MemDb.Utxos.{map_at, insert_few, insert_single}
use dcrros.MemDb.Commit.{
  few_utxo_limit, is_nil, first_slice, append_utxos, put_single, drop_first, drop_few, store_single,
  store_few, store_many, merge_account,
}
use dcrros.MemDb.Buckets.{
  Buckets, buckets, stored_in, Distinct, IsApart, lookup-insert_few, lookup-insert_single,
}
use dcrros.MemDb.Slices.{few_lookup-append, few_lookup-append_utxos, append_utxos-Distinct}

-- The three ways to store the added utxos, on the buckets of the account.
unfoldable pub as_single : Map OutPoint ℕ → Buckets → Buckets
as_single [] b = b
as_single ((outp, amt) ∷ us) b = record b { single = some (record { outp = outp; amt = amt }) }

unfoldable pub as_few : Map OutPoint ℕ → Buckets → Buckets
as_few us b = record {
  single = none;
  few = some (append_utxos (or_nil b.few ++ first_slice b.single) us);
  many = b.many;
}

unfoldable pub as_many : Map OutPoint ℕ → Buckets → Buckets
as_many us b = record {
  single = none;
  few = none;
  many = some (insert_all (insert_few (insert_single (or_nil b.many) b.single) b.few) us);
}

unfoldable pub merged : Map OutPoint ℕ → Buckets → Buckets
unfolding as_single as_few as_many
merged us b =
    if is_nil b.many && is_nil b.few && is_nil b.single && nat_eq (length us) 1
    then as_single us b
    else if is_nil b.many
        && ltb (length us + length (or_nil b.few) + length (first_slice b.single)) few_utxo_limit
    then as_few us b
    else as_many us b

lookup-drop_first :
    (a k : String) (m : Map String Utxo)
    → lookup k (drop_first a (lookup a m) m) ≡ (if a == k then none else lookup k m)
lookup-drop_first a k m = ground (arith, lookup-erase a k m, string_comparable.equal_iff a k)

lookup-drop_few :
    (a k : String) (m : Map String (List Utxo))
    → lookup k (drop_few a (lookup a m) m) ≡ (if a == k then none else lookup k m)
lookup-drop_few a k m = ground (arith, lookup-erase a k m, string_comparable.equal_iff a k)

buckets-store_few :
    (a k : String) (us : Map OutPoint ℕ) (db : MemDb)
    → buckets (store_few a us db) k ≡ (if a == k then as_few us (buckets db k) else buckets db k)
unfolding store_few as_few
buckets-store_few a k us db =
    let few = or_nil (lookup a db.few_utxos) ++ first_slice (lookup a db.single_utxos) in
    ground (
      arith,
      lookup-drop_first a k db.single_utxos,
      lookup-insert a k (append_utxos few us) db.few_utxos,
      string_comparable.equal_iff a k,
    )

buckets-store_many :
    (a k : String) (us : Map OutPoint ℕ) (db : MemDb)
    → buckets (store_many a us db) k ≡ (if a == k then as_many us (buckets db k) else buckets db k)
unfolding store_many as_many
buckets-store_many a k us db =
    let first = lookup a db.single_utxos in
    let few = lookup a db.few_utxos in
    ground (
      arith,
      lookup-drop_first a k db.single_utxos,
      lookup-drop_few a k db.few_utxos,
      lookup-insert a k (insert_all (insert_few (insert_single (map_at db.utxos a) first) few) us)
          db.utxos,
      string_comparable.equal_iff a k,
    )

buckets-store_single :
    (a k : String) (us : Map OutPoint ℕ) (db : MemDb)
    → nat_eq (length us) 1 ≡ true
    → buckets (store_single a us db) k
      ≡ (if a == k then as_single us (buckets db k) else buckets db k)
unfolding store_single as_single put_single
buckets-store_single a k [] db h = ground arith
buckets-store_single a k ((o, x) ∷ []) db h =
    ground (arith, lookup-insert a k (record { outp = o; amt = x }) db.single_utxos)
buckets-store_single a k (p ∷ q ∷ us) db h = ground arith

-- One round of the loop touches the buckets of its account only.
pub buckets-merge_account :
    (a k : String) (us : Map OutPoint ℕ) (db : MemDb)
    → buckets (merge_account a us db) k
      ≡ (if a == k then merged us (buckets db k) else buckets db k)
unfolding merge_account merged
buckets-merge_account a k us db = ground (
  arith,
  buckets-store_single a k us db,
  buckets-store_few a k us db,
  buckets-store_many a k us db,
  string_comparable.equal_iff a k,
)

-- An outpoint is new to the account: the transaction did not add it, or it is not stored.
abbrev pub IsFresh : Map OutPoint ℕ → Buckets → Type 0
IsFresh us b = (o : OutPoint) → (lookup o us ≡ none) ⊎ (stored_in b o ≡ none)

as_few-stored_in :
    (us : Map OutPoint ℕ) (b : Buckets) (o : OutPoint)
    → IsApart b
    → b.many ≡ none
    → stored_in (as_few us b) o ≡ or_else (lookup o us) (stored_in b o)
unfolding as_few
as_few-stored_in us b o a h = ground (
  arith,
  few_lookup-append_utxos o (or_nil b.few ++ first_slice b.single) us,
  few_lookup-append o (or_nil b.few) (first_slice b.single),
  lookup-nil {V = ℕ} o,
)

as_many-stored_in :
    (us : Map OutPoint ℕ) (b : Buckets) (o : OutPoint)
    → IsApart b
    → stored_in (as_many us b) o ≡ or_else (lookup o us) (stored_in b o)
unfolding as_many
as_many-stored_in us b o a =
    let first = insert_single (or_nil b.many) b.single in
    ground (
      arith,
      lookup-insert_all o (insert_few first b.few) us,
      lookup-insert_few o first b.few,
      lookup-insert_single o (or_nil b.many) b.single,
      lookup-nil {V = ℕ} o,
    )

as_single-stored_in :
    (us : Map OutPoint ℕ) (b : Buckets) (o : OutPoint)
    → b.many ≡ none
    → b.few ≡ none
    → b.single ≡ none
    → nat_eq (length us) 1 ≡ true
    → stored_in (as_single us b) o ≡ or_else (lookup o us) (stored_in b o)
unfolding as_single
as_single-stored_in [] b o m f s h = ground arith
as_single-stored_in ((p, x) ∷ []) b o m f s h =
    ground (arith, lookup-cons o p x [], lookup-nil {V = ℕ} o)
as_single-stored_in (p ∷ q ∷ us) b o m f s h = ground arith

is_nil-none {ℓ} : {A : Type ℓ} (o : Option A) → is_nil o ≡ true → o ≡ none
is_nil-none none h = refl
is_nil-none (some a) h = cc

-- Whichever bucket they move to, the account lists its utxos and the added ones.
pub merged-stored_in :
    (us : Map OutPoint ℕ) (b : Buckets) (o : OutPoint)
    → IsApart b
    → stored_in (merged us b) o ≡ or_else (lookup o us) (stored_in b o)
unfolding merged
merged-stored_in us b o a =
    grind (arith, as_single-stored_in us b o, as_few-stored_in us b o a, as_many-stored_in us b o a)

-- One property for each of the three ways gives it for the round.
merged-cases :
    (P : Buckets → Type 0) (us : Map OutPoint ℕ) (b : Buckets)
    → (b.many ≡ none → b.few ≡ none → b.single ≡ none → P (as_single us b))
    → (b.many ≡ none → P (as_few us b))
    → P (as_many us b)
    → P (merged us b)
merged-cases P us b one few many =
    unfold merged in
    elim (Bool-cases (is_nil b.many && is_nil b.few && is_nil b.single && nat_eq (length us) 1)) [
      | inl t ↦ rw t (one (ground arith) (ground arith) (ground arith))
      | inr t ↦
          rw t
            (elim (Bool-cases (
              is_nil b.many
              && ltb (length us + length (or_nil b.few) + length (first_slice b.single))
                  few_utxo_limit)) [ inl t' ↦ rw t' (few (ground arith)) | inr t' ↦ rw t' many ])
    ]

as_single-IsApart :
    (us : Map OutPoint ℕ) (b : Buckets)
    → b.many ≡ none
    → b.few ≡ none
    → b.single ≡ none
    → IsApart (as_single us b)
unfolding as_single
as_single-IsApart [] b m f s = ground arith
as_single-IsApart (p ∷ us) b m f s = ground arith

few_slices-Distinct :
    (b : Buckets) → IsApart b → b.many ≡ none → Distinct (or_nil b.few ++ first_slice b.single)
few_slices-Distinct b a m = go b.single b.few b.many a m
  where
    go :
        (s : Option Utxo) (f : Option (List Utxo)) (m : Option (Map OutPoint ℕ))
        → IsApart (record { single = s; few = f; many = m })
        → m ≡ none
        → Distinct (or_nil f ++ first_slice s)
    go none none m a h = tt
    go none (some us) none a h = rw (append-nil us) a
    go none (some us) (some m) a h = elim a [ ]
    go (some u) none m a h = (refl, tt)
    go (some u) (some us) m a h = elim a [ ]

as_few-IsApart :
    (us : Map OutPoint ℕ) (b : Buckets)
    → IsApart b
    → IsUnique us
    → IsFresh us b
    → b.many ≡ none
    → IsApart (as_few us b)
unfolding as_few
as_few-IsApart us b a u fresh m =
    let slice = or_nil b.few ++ first_slice b.single in
    rw m (
      append_utxos-Distinct slice us (few_slices-Distinct b a m) u (λ o. ground (
        arith,
        fresh o,
        few_lookup-append o (or_nil b.few) (first_slice b.single),
        lookup-nil {V = ℕ} o,
      )))

-- Adding new outpoints keeps the buckets well formed.
pub merged-IsApart :
    (us : Map OutPoint ℕ) (b : Buckets)
    → IsApart b
    → IsUnique us
    → IsFresh us b
    → IsApart (merged us b)
merged-IsApart us b a u fresh =
    merged-cases IsApart us b (as_single-IsApart us b) (as_few-IsApart us b a u fresh)
      (unfold as_many in tt)
