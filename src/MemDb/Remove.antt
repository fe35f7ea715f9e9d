-- ===== src/MemDb/Remove.antt =====
-- The loop of `Update` (memdb.go) over the removed utxos, on the buckets of an account.
use dcrros.Prelude.{
  ℕ, String, ◌≡◌, refl, sym, ap, ◌∙◌, Option, none, some, List, [], ◌∷◌, arith, if◌then◌else◌, ◌⊎◌,
}
use dcrros.Prelude.Maps.{Map, lookup, erase, lookup-nil, lookup-cons, lookup-insert, lookup-erase}
use dcrros.Prelude.Keys.{◌==◌, string_comparable}
use dcrros.BackendDb.{OutPoint, outpoint_comparable, outpoint_eq_iff}
use dcrros.MemDb.State.{Utxo, MemDb}
use dcrros.MemDb.Balances.{or_nil, slice_at}
use dcrros.MemDb.Commit.{
  is_outpoint, remove_few, remove_many, remove_single, remove_from_few, remove_one, remove_each,
}
use dcrros.MemDb.Buckets.{hide, Buckets, buckets, stored_in, IsApart}
use dcrros.MemDb.Slices.{removed_few, few_lookup-removed_few, removed_few-Distinct}

-- One round, on the buckets of the account.
erased_many : OutPoint → Option (Map OutPoint ℕ) → Option (Map OutPoint ℕ)
erased_many outp none = none
erased_many outp (some m) = some (erase outp m)

erased_few : OutPoint → Option (List Utxo) → Option (List Utxo)
erased_few outp none = none
erased_few outp (some us) = some (removed_few outp us)

unfoldable pub removed : Option Utxo → OutPoint → Buckets → Buckets
unfolding erased_many erased_few
removed first outp b = record {
  single = if is_outpoint first outp then none else b.single;
  few = erased_few outp b.few;
  many = erased_many outp b.many;
}

buckets-remove_many :
    (a k : String) (outp : OutPoint) (db : MemDb)
    → buckets (remove_many a outp db) k ≡ (
        if a == k
        then record {
          single = lookup k db.single_utxos;
          few = lookup k db.few_utxos;
          many = erased_many outp (lookup k db.utxos);
        }
        else buckets db k)
unfolding remove_many erased_many
buckets-remove_many a k outp db = ground (
  arith,
  lookup-insert a k (erase outp (or_nil (lookup a db.utxos))) db.utxos,
  string_comparable.equal_iff a k,
)

buckets-remove_single :
    (a k : String) (outp : OutPoint) (first : Option Utxo) (db : MemDb)
    → buckets (remove_single a outp first db) k ≡ (
        if a == k
        then record {
          single = if is_outpoint first outp then none else lookup k db.single_utxos;
          few = lookup k db.few_utxos;
          many = lookup k db.utxos;
        }
        else buckets db k)
unfolding remove_single
buckets-remove_single a k outp first db = ground (arith, lookup-erase a k db.single_utxos)

remove_few-nil : (outp : OutPoint) → remove_few outp [] ≡ none
unfolding remove_few
remove_few-nil outp = refl

buckets-remove_from_few :
    (a k : String) (outp : OutPoint) (db : MemDb)
    → buckets (remove_from_few a outp db) k ≡ (
        if a == k
        then record {
          single = lookup k db.single_utxos;
          few = erased_few outp (lookup k db.few_utxos);
          many = lookup k db.utxos;
        }
        else buckets db k)
unfolding remove_from_few erased_few
buckets-remove_from_few a k outp db = ground (
  arith,
  lookup-insert a k (removed_few outp (slice_at db.few_utxos a)) db.few_utxos,
  string_comparable.equal_iff a k,
  remove_few-nil outp,
)

-- One round of the inner loop touches the buckets of its account only.
pub buckets-remove_one :
    (a k : String) (first : Option Utxo) (outp : OutPoint) (db : MemDb)
    → buckets (remove_one a first outp db) k
      ≡ (if a == k then removed first outp (buckets db k) else buckets db k)
unfolding remove_one removed
buckets-remove_one a k first outp db =
    let db' = remove_many a outp db in
    ground (
      arith,
      buckets-remove_many a k outp db,
      buckets-remove_single a k outp first db',
      buckets-remove_from_few a k outp (remove_single a outp first db'),
    )

-- The single utxo is still the one that was read before the loop, or it is gone.
abbrev pub SingleOf : Option Utxo → Buckets → Type 0
SingleOf first b = (b.single ≡ first) ⊎ (b.single ≡ none)

removed-stored_in :
    (first : Option Utxo) (outp o : OutPoint) (b : Buckets)
    → IsApart b
    → SingleOf first b
    → stored_in (removed first outp b) o ≡ (if outp == o then none else stored_in b o)
unfolding removed erased_many erased_few
removed-stored_in first outp o b a s = go b.single b.few b.many a s
  where
    go :
        (s : Option Utxo) (f : Option (List Utxo)) (m : Option (Map OutPoint ℕ))
        → IsApart (record { single = s; few = f; many = m })
        → (s ≡ first) ⊎ (s ≡ none)
        → stored_in (removed first outp (record { single = s; few = f; many = m })) o
          ≡ (if outp == o then none else stored_in (record { single = s; few = f; many = m }) o)
    go none none none a s = ground (arith, lookup-nil {V = ℕ} o)
    go none none (some m) a s = ground (arith, lookup-erase outp o m)
    go none (some us) none a s =
        ground (arith, few_lookup-removed_few outp o us a, lookup-nil {V = ℕ} o)
    go none (some us) (some m) a s = elim a [ ]
    go (some u) none none a s = ground (
      arith,
      s,
      lookup-nil {V = ℕ} o,
      outpoint_eq_iff u.outp outp,
      outpoint_eq_iff outp o,
      outpoint_eq_iff u.outp o,
    )
    go (some u) none (some m) a s = elim a [ ]
    go (some u) (some us) m a s = elim a [ ]

removed-IsApart :
    (first : Option Utxo) (outp : OutPoint) (b : Buckets)
    → IsApart b
    → IsApart (removed first outp b)
unfolding removed erased_many erased_few
removed-IsApart first outp b a = go b.single b.few b.many a
  where
    go :
        (s : Option Utxo) (f : Option (List Utxo)) (m : Option (Map OutPoint ℕ))
        → IsApart (record { single = s; few = f; many = m })
        → IsApart (removed first outp (record { single = s; few = f; many = m }))
    go none none none a = ground arith
    go none none (some m) a = ground arith
    go none (some us) none a = ground (arith, removed_few-Distinct outp us a)
    go none (some us) (some m) a = elim a [ ]
    go (some u) none none a = ground arith
    go (some u) none (some m) a = elim a [ ]
    go (some u) (some us) m a = elim a [ ]

removed-SingleOf :
    (first : Option Utxo) (outp : OutPoint) (b : Buckets)
    → SingleOf first b
    → SingleOf first (removed first outp b)
unfolding removed
removed-SingleOf first outp b s = ground arith

-- All rounds of the inner loop, on the buckets of the account.
unfoldable pub removed_each : Option Utxo → Map OutPoint (Unit {0}) → Buckets → Buckets
removed_each first [] b = b
removed_each first ((outp, _) ∷ dels) b = removed first outp (removed_each first dels b)

pub buckets-remove_each :
    (a k : String) (first : Option Utxo) (dels : Map OutPoint (Unit {0})) (db : MemDb)
    → buckets (remove_each a first dels db) k
      ≡ (if a == k then removed_each first dels (buckets db k) else buckets db k)
unfolding remove_each removed_each
buckets-remove_each a k first [] db = ground arith
buckets-remove_each a k first ((outp, d) ∷ dels) db = ground (
  arith,
  buckets-remove_one a k first outp (remove_each a first dels db),
  buckets-remove_each a k first dels db,
)

pub removed_each-IsApart :
    (first : Option Utxo) (dels : Map OutPoint (Unit {0})) (b : Buckets)
    → IsApart b
    → IsApart (removed_each first dels b)
unfolding removed_each
removed_each-IsApart first [] b a = a
removed_each-IsApart first ((outp, d) ∷ dels) b a =
    removed-IsApart first outp (removed_each first dels b) (removed_each-IsApart first dels b a)

removed_each-SingleOf :
    (first : Option Utxo) (dels : Map OutPoint (Unit {0})) (b : Buckets)
    → SingleOf first b
    → SingleOf first (removed_each first dels b)
unfolding removed_each
removed_each-SingleOf first [] b s = s
removed_each-SingleOf first ((outp, d) ∷ dels) b s =
    removed-SingleOf first outp (removed_each first dels b) (removed_each-SingleOf first dels b s)

hide-cons :
    (o outp : OutPoint) (d : Unit {0}) (dels : Map OutPoint (Unit {0})) (x : Option ℕ)
    → (if outp == o then none else hide (lookup o dels) x) ≡ hide (lookup o ((outp, d) ∷ dels)) x
hide-cons o outp d dels x = ground (arith, lookup-cons o outp d dels)

-- The inner loop hides exactly the outpoints that it goes over.
pub removed_each-stored_in :
    (first : Option Utxo) (dels : Map OutPoint (Unit {0})) (b : Buckets) (o : OutPoint)
    → IsApart b
    → SingleOf first b
    → stored_in (removed_each first dels b) o ≡ hide (lookup o dels) (stored_in b o)
unfolding removed_each
removed_each-stored_in first [] b o a s = ap (λ l. hide l (stored_in b o)) (sym (lookup-nil o))
removed_each-stored_in first ((outp, d) ∷ dels) b o a s =
    let b' = removed_each first dels b in
    let ih = removed_each-stored_in first dels b o a s in
    removed-stored_in first outp o b' (removed_each-IsApart first dels b a)
      (removed_each-SingleOf first dels b s)
    ∙ ap (λ x. if outp == o then none else x) ih
    ∙ hide-cons o outp d dels (stored_in b o)
