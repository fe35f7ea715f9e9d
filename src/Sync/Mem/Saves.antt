-- ===== src/Sync/Mem/Saves.antt =====
-- backend/internal/memdb/memdb.go: what `StoreBalances` and `Update` leave for later rollbacks.
use dcrros.Prelude.{
  ℕ, ◌≡◌, refl, sym, ap, ◌∙◌, String, true, false, not, ◌&&◌, Bool-cases, inl, inr, nat_eq,
  nat_eq→eq, arith,
}
use mathlib.Core.Path.{subst}
use dcrros.Prelude.Maps.{Map, lookup, insert, insert_all, insert_all-single, lookup-insert}
use dcrros.Prelude.Keys.{nat_comparable, string_comparable}
use dcrros.Prelude.Words.{add64}
use dcrros.Prelude.Results.{Result, ok, err, panic}
use dcrros.Prelude.Posts.{Post}
use dcrros.BackendDb.{Error, plain}
use dcrros.MemDb.State.{ProcessedBlock, MemDb, Conn, new_transaction}
use dcrros.MemDb.Balances.{keys, tip_of, stored_tx, store_balances}
use dcrros.MemDb.Commit.{is_empty, merge_blocks, commit, finish}
use dcrros.MemDb.Kept.{ChainState, chain_state-commit}
use dcrros.MemDb.Chain.{stored, tip_of-stored, store_balances_lem}
use dcrros.Sync.Mem.{db_tip, IsFull, DbStored, Stored, Saved}
use dcrros.Sync.Mem.Tip.{Post-of}

stored-Saved :
    (bh : ℕ) (bals : Map String ℕ) (c : Conn)
    → Stored c
    → Saved (stored bh (add64 (tip_of c).1 1) bals c)
unfolding tip_of stored_tx
stored-Saved bh bals c s = (
  omega arith,
  λ n low high.
      let h = add64 (tip_of c).1 1 in
      let b : ProcessedBlock = record { hash = bh; accounts = keys bals } in
      let same =
        ap (λ (m : Map ℕ ProcessedBlock). insert_all c.db.processed_blocks (insert h b m))
          s.none_stored
        ∙ insert_all-single h b c.db.processed_blocks in
      elim (Bool-cases (nat_eq h n)) [
        | inl e ↦ (b, ap (lookup n) same ∙ lookup-insert h n b c.db.processed_blocks ∙ rw e refl)
        | inr e ↦
            let (b', found) = s.full.1 n low (ground arith) in
            (b', ap (lookup n) same ∙ lookup-insert h n b c.db.processed_blocks ∙ rw e found)
      ],
)

store_balances-unwritable :
    (bh h : ℕ) (bals : Map String ℕ) (c : Conn)
    → c.tx.writable ≡ false
    → store_balances bh h bals c ≡ (err (plain "unwritable tx"), c)
unfolding store_balances
store_balances-unwritable bh h bals c w = ground arith

pub stores :
    (bh h : ℕ) (bals : Map String ℕ) (c : Conn)
    → Stored c
    → Post (λ _ c'. (tip_of c' ≡ (bh, h)) × Saved c') (store_balances bh h bals c)
stores bh h bals c s =
    let Q : Unit {0} → Conn → Type 0 = λ _ c'. (tip_of c' ≡ (bh, h)) × Saved c' in
    elim (Bool-cases c.tx.writable) [
      | inr w ↦ Post-of Q _ _ (store_balances-unwritable bh h bals c w) tt
      | inl w ↦
          Post-of Q _ _ (store_balances_lem bh h bals c w)
            (elim (Bool-cases (nat_eq (tip_of c).1 h)) [
              | inl a ↦ rw a tt
              | inr a ↦ rw a (elim (Bool-cases (nat_eq c.db.last_height h)) [
                | inl b ↦ rw b tt
                | inr b ↦ rw b (elim (Bool-cases (nat_eq h (add64 (tip_of c).1 1))) [
                  | inr d ↦ rw d tt
                  | inl d ↦ rw d (
                    tip_of-stored bh h bals c,
                    subst (λ (x : ℕ). Saved (stored bh x bals c)) (sym (nat_eq→eq _ _ d))
                        (stored-Saved bh bals c s),
                  )
                ])
              ])
            ])
    ]

pub saves : (c : Conn) → Stored c → Saved c
unfolding insert_all
saves c s = (
  s.full.0,
  λ n low high.
      let (b, found) = s.full.1 n low high in
      (b, ap (λ m. lookup n (insert_all c.db.processed_blocks m)) s.none_stored ∙ found),
)

tip-commit : (c : Conn) → db_tip (commit c) ≡ tip_of c
unfolding merge_blocks tip_of
tip-commit c =
    ap (λ (s : ChainState). (s.last_hash, s.last_height)) (chain_state-commit c)
    ∙ elim (Bool-cases c.tx.updated_block) [ inl u ↦ rw u refl | inr u ↦ rw u refl ]

DbStored-commit : (c : Conn) → Saved c → DbStored (commit c)
unfolding merge_blocks
DbStored-commit c s =
    let blocks = ap (λ (s : ChainState). s.processed) (chain_state-commit c) in
    subst (λ (m : Map ℕ ProcessedBlock). IsFull m (commit c).last_height) (sym blocks)
      (subst (λ (t : ℕ × ℕ). IsFull (insert_all c.db.processed_blocks c.tx.processed_blocks) t.1)
        (sym (tip-commit c)) s)

pub finish-tip :
    {A : Type 0} (P : A → ℕ × ℕ → Type 0) (r : Result Error A × Conn)
    → Post (λ a c. P a (tip_of c) × Saved c) r
    → Post (λ a db. P a (db_tip db) × DbStored db) (finish r)
unfolding finish
finish-tip P (ok a, c) h = elim (Bool-cases (c.db.closed && not (is_empty c.tx.balances))) [
  | inl e ↦ rw e tt
  | inr e ↦ rw e (subst (P a) (sym (tip-commit c)) h.0, DbStored-commit c h.1)
]
finish-tip P (err e, c) h = tt
finish-tip P (panic, c) h = tt

pub opened-Stored :
    (db : MemDb) → DbStored db → Stored (record { db = db; tx = new_transaction true })
unfolding tip_of
opened-Stored db s = record { fresh = λ _. refl; full = s; none_stored = refl }
