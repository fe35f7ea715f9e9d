-- ===== src/MemDb/Readded.antt =====
-- A stored utxo that one transaction of memdb.go removes and adds again.
use dcrros.Prelude.{
  ℕ, ◌<◌, String, ◌≡◌, refl, sym, ap, ◌∙◌, ◌≢◌, true, none, some, List, [], ◌∷◌, ◌++◌, arith,
}
use mathlib.Core.List.{append-nil}
use mathlib.Core.Path.{subst}
use dcrros.Prelude.Lists.{length, last-snoc, drop_last-snoc}
use dcrros.Prelude.Maps.{Map, lookup, lookup-nil, insert, erase}
use dcrros.Prelude.Keys.{==_refl, string_comparable}
use dcrros.Prelude.Results.{◌>>◌}
use dcrros.BackendDb.{OutPoint, outpoint_comparable}
use dcrros.MemDb.State.{Utxo, Transaction, MemDb, new_transaction}
use dcrros.MemDb.Utxos.{added_tx, deleted_tx, add_utxo, del_utxo}
use dcrros.MemDb.Commit.{
  append_utxos, refill, remove_few, update, merge_blocks, commit, merge_utxos,
}
use dcrros.MemDb.Buckets.{few_lookup, Buckets, buckets, stored_in}
use dcrros.MemDb.Slices.{removed_few}
use dcrros.MemDb.Merge.{merged, as_few}
use dcrros.MemDb.Remove.{removed, removed_each}
use dcrros.MemDb.CommitView.{
  buckets-merge_utxos_cons, buckets-remove_utxos_cons, buckets-merge_blocks, remove_round,
}

refill-snoc : (us : List Utxo) (u : Utxo) → refill (us ++ u ∷ []) ≡ u ∷ us
unfolding refill
refill-snoc us u = ground (arith, last-snoc us u, drop_last-snoc us u)

-- The scan stops at the first entry, so a second one with the outpoint stays listed.
removed_few-twice :
    (us : List Utxo) (u : Utxo)
    → few_lookup u.outp us ≢ none
    → few_lookup u.outp (removed_few u.outp (us ++ u ∷ [])) ≢ none
unfolding remove_few
removed_few-twice [] u h = absurd (h refl)
removed_few-twice (x ∷ us) u h =
    ground (arith, refill-snoc us u, removed_few-twice us u, ==_refl u.outp)

-- The transactions of a removal followed by an addition, and of a removal.
readded_tx : String → Utxo → Transaction
readded_tx a u = added_tx a u.outp u.amt (deleted_tx a u.outp (new_transaction true))

removed_tx : String → Utxo → Transaction
removed_tx a u = deleted_tx a u.outp (new_transaction true)

readded_tx_utxos :
    (a : String) (u : Utxo)
    → ((readded_tx a u).utxos ≡ (a, (u.outp, u.amt) ∷ []) ∷ [])
      × ((readded_tx a u).del_utxos ≡ (a, []) ∷ [])
unfolding readded_tx added_tx deleted_tx lookup insert erase
readded_tx_utxos a u =
    (ground (arith, ==_refl a, ==_refl u.outp), ground (arith, ==_refl a, ==_refl u.outp))

removed_tx_utxos :
    (a : String) (u : Utxo)
    → ((removed_tx a u).utxos ≡ []) × ((removed_tx a u).del_utxos ≡ (a, (u.outp, tt) ∷ []) ∷ [])
unfolding removed_tx deleted_tx lookup insert erase
removed_tx_utxos a u = (ground (arith, ==_refl a), ground (arith, ==_refl a, ==_refl u.outp))

-- What a commit does to the buckets of the one account that the transaction names.
buckets-commit_one :
    (a : String) (us : Map OutPoint ℕ) (dels : Map OutPoint (Unit {0})) (tx : Transaction)
    (db : MemDb)
    → tx.utxos ≡ (a, us) ∷ []
    → tx.del_utxos ≡ (a, dels) ∷ []
    → buckets (commit (record { db = db; tx = tx })) a
      ≡ remove_round dels (merged us (buckets db a))
unfolding commit
buckets-commit_one a us dels tx db added gone =
    let db' = merge_blocks tx db in
    rw (added, gone)
      (buckets-remove_utxos_cons a a dels [] (merge_utxos ((a, us) ∷ []) db') (lookup-nil a)
        ∙ rw (==_refl a) refl
        ∙ ap (remove_round dels) (
            buckets-merge_utxos_cons a a us [] db' (lookup-nil a)
            ∙ rw (==_refl a) refl
            ∙ ap (merged us) (buckets-merge_blocks tx db a)))

buckets-commit_removal :
    (a : String) (dels : Map OutPoint (Unit {0})) (tx : Transaction) (db : MemDb)
    → tx.utxos ≡ []
    → tx.del_utxos ≡ (a, dels) ∷ []
    → buckets (commit (record { db = db; tx = tx })) a ≡ remove_round dels (buckets db a)
unfolding commit merge_utxos
buckets-commit_removal a dels tx db added gone =
    let db' = merge_blocks tx db in
    rw (added, gone)
      (buckets-remove_utxos_cons a a dels [] db' (lookup-nil a)
        ∙ rw (==_refl a) refl
        ∙ ap (remove_round dels) (buckets-merge_blocks tx db a))

update-readding :
    (a : String) (u : Utxo) (db : MemDb)
    → (update (del_utxo a u.outp >> add_utxo a u.outp u.amt) db).1
      ≡ commit (record { db = db; tx = readded_tx a u })
unfolding update del_utxo add_utxo readded_tx added_tx deleted_tx
update-readding a u db = ground arith

update-removing :
    (a : String) (u : Utxo) (db : MemDb)
    → (update (del_utxo a u.outp) db).1 ≡ commit (record { db = db; tx = removed_tx a u })
unfolding update del_utxo removed_tx deleted_tx
update-removing a u db = ground arith

abbrev pub slice_buckets : List Utxo → Buckets
slice_buckets us = record { single = none; few = some us; many = none }

merged-readding :
    (us : List Utxo) (u : Utxo)
    → length us < 11
    → remove_round [] (merged ((u.outp, u.amt) ∷ []) (slice_buckets us))
      ≡ slice_buckets (us ++ u ∷ [])
unfolding merged as_few append_utxos remove_round removed_each
merged-readding us u n = ground (arith, append-nil us)

removed-slice :
    (us : List Utxo) (u : Utxo)
    → few_lookup u.outp us ≢ none
    → stored_in (remove_round ((u.outp, tt) ∷ []) (slice_buckets (us ++ u ∷ []))) u.outp ≢ none
unfolding remove_round removed_each removed
removed-slice us u h = ground (arith, removed_few-twice us u h, lookup-nil {V = ℕ} u.outp)

-- A utxo that lies in the slice of its account is removed and added again in one `Update`, as a
-- block does that disapproves its parent and includes the parent's transaction again. The
-- `DelUtxo` of a later `Update` does not remove it: the account still lists it. The slice must
-- have room for one more.
pub readded_stays_listed :
    (a : String) (u : Utxo) (us : List Utxo) (db : MemDb)
    → buckets db a ≡ slice_buckets us
    → length us < 11
    → few_lookup u.outp us ≢ none
    → let db' = (update (del_utxo a u.outp >> add_utxo a u.outp u.amt) db).1 in
      let db'' = (update (del_utxo a u.outp) db').1 in stored_in (buckets db'' a) u.outp ≢ none
readded_stays_listed a u us db b n h =
    let db' = commit (record { db = db; tx = readded_tx a u }) in
    let (p, q) = readded_tx_utxos a u in
    let (p', q') = removed_tx_utxos a u in
    let e : buckets db' a ≡ slice_buckets (us ++ u ∷ []) =
      buckets-commit_one a ((u.outp, u.amt) ∷ []) [] (readded_tx a u) db p q
      ∙ ap (λ (x : Buckets). remove_round [] (merged ((u.outp, u.amt) ∷ []) x)) b
      ∙ merged-readding us u n in
    let e' =
      buckets-commit_removal a ((u.outp, tt) ∷ []) (removed_tx a u) db' p' q'
      ∙ ap (remove_round ((u.outp, tt) ∷ [])) e in
    rw (update-readding a u db, update-removing a u db')
      (subst (λ (x : Buckets). stored_in x u.outp ≢ none) (sym e') (removed-slice us u h))
