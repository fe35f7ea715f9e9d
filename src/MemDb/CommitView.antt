-- ===== src/MemDb/CommitView.antt =====
-- What `Update` of memdb.go commits: the listing of every account after the commit is the listing
-- that the transaction showed.
use mathlib.Core.Path.{subst}
use dcrros.Prelude.{
  ℕ, String, ◌≡◌, refl, sym, ap, ◌∙◌, Bool, true, false, none, [], ◌∷◌, arith, if◌then◌else◌, inl,
  inr, Bool-cases,
}
use dcrros.Prelude.Maps.{Map, lookup, or_else, lookup-nil, lookup-cons, IsUnique}
use dcrros.Prelude.Keys.{◌==◌, ==_eq, ==_refl, string_comparable}
use dcrros.BackendDb.{OutPoint, outpoint_comparable}
use dcrros.MemDb.State.{Transaction, MemDb, Conn, new_transaction}
use dcrros.MemDb.Utxos.{map_at, listing}
use dcrros.MemDb.Commit.{merge_blocks, merge_utxos, remove_utxos, commit}
use dcrros.MemDb.Buckets.{hide, Buckets, buckets, stored_in, IsApart, lookup-listing}
use dcrros.MemDb.Merge.{merged, IsFresh, merged-stored_in, merged-IsApart, buckets-merge_account}
use dcrros.MemDb.Remove.{
  removed_each, buckets-remove_each, removed_each-IsApart, removed_each-stored_in,
}

-- Every account of the database has at most one bucket, with no outpoint twice in a slice.
abbrev pub IsBucketed : MemDb → Type 0
IsBucketed db = (account : String) → IsApart (buckets db account)

-- The added utxos: each account once, its outpoints once, and none of them stored already.
abbrev pub IsNew : MemDb → Map String (Map OutPoint ℕ) → Type 0
IsNew db [] = Unit
IsNew db ((account, us) ∷ rest) =
    (lookup account rest ≡ none) × IsUnique us × IsFresh us (buckets db account) × IsNew db rest

lookup-map_at_cons {ℓ} :
    {V : Type ℓ} (k account : String) (us : Map OutPoint V) (m : Map String (Map OutPoint V))
    → map_at ((account, us) ∷ m) k ≡ (if account == k then us else map_at m k)
lookup-map_at_cons k account us m = ground (arith, lookup-cons k account us m)

map_at-here {ℓ} :
    {V : Type ℓ} (k account : String) (us : Map OutPoint V) (m : Map String (Map OutPoint V))
    → (account == k) ≡ true
    → map_at ((account, us) ∷ m) k ≡ us
map_at-here k account us m h = lookup-map_at_cons k account us m ∙ rw h

map_at-later {ℓ} :
    {V : Type ℓ} (k account : String) (us : Map OutPoint V) (m : Map String (Map OutPoint V))
    → (account == k) ≡ false
    → map_at ((account, us) ∷ m) k ≡ map_at m k
map_at-later k account us m h = lookup-map_at_cons k account us m ∙ rw h

-- An account that is not in the map keeps its buckets.
buckets-merge_utxos-none :
    (m : Map String (Map OutPoint ℕ)) (db : MemDb) (k : String)
    → lookup k m ≡ none
    → buckets (merge_utxos m db) k ≡ buckets db k
unfolding merge_utxos
buckets-merge_utxos-none [] db k h = refl
buckets-merge_utxos-none ((account, us) ∷ m) db k h = ground (
  arith,
  buckets-merge_account account k us (merge_utxos m db),
  lookup-cons k account us m,
  buckets-merge_utxos-none m db k,
)

pub buckets-merge_utxos_cons :
    (account k : String) (us : Map OutPoint ℕ) (m : Map String (Map OutPoint ℕ)) (db : MemDb)
    → lookup account m ≡ none
    → buckets (merge_utxos ((account, us) ∷ m) db) k
      ≡ (if account == k then merged us (buckets db account) else buckets (merge_utxos m db) k)
unfolding merge_utxos
buckets-merge_utxos_cons account k us m db h = elim (Bool-cases (account == k)) [
  | inl same ↦
      rw (← ==_eq account k same, ==_refl account)
        (ground (
          arith,
          buckets-merge_account account account us (merge_utxos m db),
          ==_refl account,
          buckets-merge_utxos-none m db account h,
        ))
  | inr other ↦ ground (arith, buckets-merge_account account k us (merge_utxos m db))
]

merge_utxos-IsBucketed :
    (m : Map String (Map OutPoint ℕ)) (db : MemDb)
    → IsBucketed db
    → IsNew db m
    → IsBucketed (merge_utxos m db)
merge_utxos-IsBucketed [] db b n k = unfold merge_utxos in b k
merge_utxos-IsBucketed ((account, us) ∷ m) db b n k =
    subst IsApart (sym (buckets-merge_utxos_cons account k us m db n.0))
      (elim (Bool-cases (account == k)) [
        | inl same ↦ rw same (merged-IsApart us (buckets db account) (b account) n.1 n.2)
        | inr other ↦ rw other (merge_utxos-IsBucketed m db b n.3 k)
      ])

merge_utxos-stored_in :
    (m : Map String (Map OutPoint ℕ)) (db : MemDb) (k : String) (o : OutPoint)
    → IsBucketed db
    → IsNew db m
    → stored_in (buckets (merge_utxos m db) k) o
      ≡ or_else (lookup o (map_at m k)) (stored_in (buckets db k) o)
merge_utxos-stored_in [] db k o b n =
    unfold merge_utxos in ground (arith, lookup-nil {V = Map OutPoint ℕ} k, lookup-nil {V = ℕ} o)
merge_utxos-stored_in ((account, us) ∷ m) db k o b n =
    ap (λ bs. stored_in bs o) (buckets-merge_utxos_cons account k us m db n.0)
    ∙ (elim (Bool-cases (account == k)) [
      | inl same ↦ rw same (
          merged-stored_in us (buckets db account) o (b account)
          ∙ ap (λ (a : String). or_else (lookup o us) (stored_in (buckets db a) o))
              (==_eq account k same)
          ∙ ap (λ (us' : Map OutPoint ℕ). or_else (lookup o us') (stored_in (buckets db k) o))
              (sym (map_at-here k account us m same)))
      | inr other ↦ rw other (
          merge_utxos-stored_in m db k o b n.3
          ∙ ap (λ (us' : Map OutPoint ℕ). or_else (lookup o us') (stored_in (buckets db k) o))
              (sym (map_at-later k account us m other)))
    ])

buckets-remove_utxos-none :
    (m : Map String (Map OutPoint (Unit {0}))) (db : MemDb) (k : String)
    → lookup k m ≡ none
    → buckets (remove_utxos m db) k ≡ buckets db k
unfolding remove_utxos
buckets-remove_utxos-none [] db k h = refl
buckets-remove_utxos-none ((account, dels) ∷ m) db k h =
    let db' = remove_utxos m db in
    ground (
      arith,
      buckets-remove_each account k (lookup account db'.single_utxos) dels db',
      lookup-cons k account dels m,
      buckets-remove_utxos-none m db k,
    )

-- The rounds of one account, on its buckets.
unfoldable pub remove_round : Map OutPoint (Unit {0}) → Buckets → Buckets
remove_round dels b = removed_each b.single dels b

pub buckets-remove_utxos_cons :
    (account k : String) (dels : Map OutPoint (Unit {0})) (m : Map String (Map OutPoint (Unit {0})))
    (db : MemDb)
    → lookup account m ≡ none
    → buckets (remove_utxos ((account, dels) ∷ m) db) k ≡ (
        if account == k
        then remove_round dels (buckets db account)
        else buckets (remove_utxos m db) k)
unfolding remove_utxos remove_round
buckets-remove_utxos_cons account k dels m db h =
    let db' = remove_utxos m db in
    let first = lookup account db'.single_utxos in
    elim (Bool-cases (account == k)) [
      | inl same ↦
          rw (← ==_eq account k same, ==_refl account)
            (ground (arith, buckets-remove_each account account first dels db', ==_refl account)
              ∙ ap (λ (b : Buckets). removed_each b.single dels b)
                  (buckets-remove_utxos-none m db account h))
      | inr other ↦ ground (arith, buckets-remove_each account k first dels db')
    ]

remove_round-IsApart :
    (dels : Map OutPoint (Unit {0})) (b : Buckets) → IsApart b → IsApart (remove_round dels b)
unfolding remove_round
remove_round-IsApart dels b a = removed_each-IsApart b.single dels b a

remove_round-stored_in :
    (dels : Map OutPoint (Unit {0})) (b : Buckets) (o : OutPoint)
    → IsApart b
    → stored_in (remove_round dels b) o ≡ hide (lookup o dels) (stored_in b o)
unfolding remove_round
remove_round-stored_in dels b o a = removed_each-stored_in b.single dels b o a (inl refl)

remove_utxos-IsBucketed :
    (m : Map String (Map OutPoint (Unit {0}))) (db : MemDb)
    → IsBucketed db
    → IsUnique m
    → IsBucketed (remove_utxos m db)
remove_utxos-IsBucketed [] db b n k = unfold remove_utxos in b k
remove_utxos-IsBucketed ((account, dels) ∷ m) db b n k =
    subst IsApart (sym (buckets-remove_utxos_cons account k dels m db n.0))
      (elim (Bool-cases (account == k)) [
        | inl same ↦ rw same (remove_round-IsApart dels (buckets db account) (b account))
        | inr other ↦ rw other (remove_utxos-IsBucketed m db b n.1 k)
      ])

remove_utxos-stored_in :
    (m : Map String (Map OutPoint (Unit {0}))) (db : MemDb) (k : String) (o : OutPoint)
    → IsBucketed db
    → IsUnique m
    → stored_in (buckets (remove_utxos m db) k) o
      ≡ hide (lookup o (map_at m k)) (stored_in (buckets db k) o)
remove_utxos-stored_in [] db k o b n =
    unfold remove_utxos in
    ground (arith, lookup-nil {V = Map OutPoint (Unit {0})} k, lookup-nil {V = Unit {0}} o)
remove_utxos-stored_in ((account, dels) ∷ m) db k o b n =
    ap (λ bs. stored_in bs o) (buckets-remove_utxos_cons account k dels m db n.0)
    ∙ (elim (Bool-cases (account == k)) [
      | inl same ↦ rw same (
          remove_round-stored_in dels (buckets db account) o (b account)
          ∙ ap (λ (a : String). hide (lookup o dels) (stored_in (buckets db a) o))
              (==_eq account k same)
          ∙ ap (λ (ds : Map OutPoint (Unit {0})). hide (lookup o ds) (stored_in (buckets db k) o))
              (sym (map_at-here k account dels m same)))
      | inr other ↦ rw other (
          remove_utxos-stored_in m db k o b n.1
          ∙ ap (λ (ds : Map OutPoint (Unit {0})). hide (lookup o ds) (stored_in (buckets db k) o))
              (sym (map_at-later k account dels m other)))
    ])

pub buckets-merge_blocks :
    (tx : Transaction) (db : MemDb) (k : String) → buckets (merge_blocks tx db) k ≡ buckets db k
unfolding merge_blocks
buckets-merge_blocks tx db k = refl

-- The utxos of a transaction that may be committed: no account is listed twice, and what it adds
-- is not stored.
pub record CanCommit (c : Conn) : Type 0 where
  pub bucketed : IsBucketed c.db
  pub new : IsNew c.db c.tx.utxos
  pub unique : IsUnique c.tx.del_utxos

IsNew-merge_blocks :
    (tx : Transaction) (db : MemDb) (m : Map String (Map OutPoint ℕ))
    → IsNew db m
    → IsNew (merge_blocks tx db) m
unfolding merge_blocks
IsNew-merge_blocks tx db [] n = tt
IsNew-merge_blocks tx db ((account, us) ∷ m) n = (n.0, n.1, n.2, IsNew-merge_blocks tx db m n.3)

pub commit-stored_in :
    (c : Conn) (k : String) (o : OutPoint)
    → CanCommit c
    → stored_in (buckets (commit c) k) o ≡ lookup o (listing c k)
unfolding commit
commit-stored_in c k o v =
    let db = merge_blocks c.tx c.db in
    let b : IsBucketed db =
      λ a. subst IsApart (sym (buckets-merge_blocks c.tx c.db a)) (v.bucketed a) in
    let n = IsNew-merge_blocks c.tx c.db c.tx.utxos v.new in
    remove_utxos-stored_in c.tx.del_utxos (merge_utxos c.tx.utxos db) k o
      (merge_utxos-IsBucketed c.tx.utxos db b n) v.unique
    ∙ ap (hide (lookup o (map_at c.tx.del_utxos k))) (
        merge_utxos-stored_in c.tx.utxos db k o b n
        ∙ ap (λ bs. or_else (lookup o (map_at c.tx.utxos k)) (stored_in bs o))
            (buckets-merge_blocks c.tx c.db k))
    ∙ sym (lookup-listing c k o)

-- After the commit a new transaction lists, for every account and outpoint, what the committed one
-- listed.
pub listing-commit :
    (c : Conn) (w : Bool) (account : String) (outp : OutPoint)
    → CanCommit c
    → lookup outp (listing (record { db = commit c; tx = new_transaction w }) account)
      ≡ lookup outp (listing c account)
listing-commit c w account outp v =
    let c' : Conn = record { db = commit c; tx = new_transaction w } in
    lookup-listing c' account outp
    ∙ ground (
      arith,
      lookup-nil {V = Map OutPoint ℕ} account,
      lookup-nil {V = ℕ} outp,
      lookup-nil {V = Map OutPoint (Unit {0})} account,
      lookup-nil {V = Unit {0}} outp,
      commit-stored_in c account outp v,
    )

-- The buckets stay well formed.
pub commit-IsBucketed : (c : Conn) → CanCommit c → IsBucketed (commit c)
unfolding commit
commit-IsBucketed c v =
    let db = merge_blocks c.tx c.db in
    let b : IsBucketed db =
      λ a. subst IsApart (sym (buckets-merge_blocks c.tx c.db a)) (v.bucketed a) in
    remove_utxos-IsBucketed c.tx.del_utxos (merge_utxos c.tx.utxos db)
      (merge_utxos-IsBucketed c.tx.utxos db b (IsNew-merge_blocks c.tx c.db c.tx.utxos v.new))
      v.unique
