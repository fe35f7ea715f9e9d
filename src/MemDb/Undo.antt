-- ===== src/MemDb/Undo.antt =====
-- `RollbackTip` after `StoreBalances` (memdb.go).
use dcrros.Prelude.{
  ℕ, String, ◌≡◌, refl, ap, ◌∙◌, Bool, true, false, Option, none, some, List, [], ◌∷◌, ◌++◌, arith,
  nat_eq, if◌then◌else◌,
}
use mathlib.Core.List.{append-nil}
use dcrros.Prelude.Lists.{last-snoc, drop_last-snoc, drop_last, last?}
use dcrros.Prelude.Maps.{
  Map, insert_all-single, lookup, insert, erase, IsUnique, lookup-insert, lookup-insert_self,
  lookup-nil, lookup-cons, lookup-erase,
}
use dcrros.Prelude.Keys.{◌==◌, string_comparable, nat_comparable}
use dcrros.Prelude.Words.{IsWord, add64, sub64}
use dcrros.Prelude.Results.{ok, err, panic, throw, ◌>>◌}
use dcrros.BackendDb.{Error}
use dcrros.MemDb.State.{BalanceHeight, ProcessedBlock, MemDb, Conn, new_transaction}
use dcrros.MemDb.Balances.{slice_at, keys, tip_of, stored_tx}
use dcrros.MemDb.Rollback.{rollback_account, rollback_accounts, without_tip, rollback_tip}
use dcrros.MemDb.Commit.{update, merge_blocks, commit}
use dcrros.MemDb.History.{history, entry, slice-insert}
use dcrros.MemDb.Chain.{stored, history-stored, append_balances-IsUnique}
use dcrros.MemDb.Kept.{ChainState, chain_state-commit, history-commit}

-- The history of an account with its last entry gone, if that is at the height.
chop : ℕ → List BalanceHeight → List BalanceHeight
chop height bs = elim (last? bs) [
  | none ↦ bs
  | some b ↦ if nat_eq b.height height then drop_last bs else bs
]

chop-snoc :
    (height x : ℕ) (bs : List BalanceHeight)
    → chop height (bs ++ record { height = height; balance = x } ∷ []) ≡ bs
unfolding chop
chop-snoc height x bs =
    let b : BalanceHeight = record { height = height; balance = x } in
    ground (arith, last-snoc bs b, drop_last-snoc bs b)

slice-rollback_account :
    (height : ℕ) (k a : String) (m : Map String (List BalanceHeight))
    → slice_at (rollback_account height k m) a
      ≡ (if k == a then chop height (slice_at m a) else slice_at m a)
unfolding rollback_account chop
slice-rollback_account height k a m =
    ground (arith, slice-insert k a (drop_last (slice_at m k)) m, string_comparable.equal_iff k a)

abbrev chop_if : Option ℕ → ℕ → List BalanceHeight → List BalanceHeight
chop_if none height bs = bs
chop_if (some _) height bs = chop height bs

slice-rollback_accounts :
    (height : ℕ) (bals : Map String ℕ) (m : Map String (List BalanceHeight)) (a : String)
    → IsUnique bals
    → slice_at (rollback_accounts height (keys bals) m) a
      ≡ chop_if (lookup a bals) height (slice_at m a)
unfolding rollback_accounts
slice-rollback_accounts height [] m a u = ground (arith, lookup-nil {V = ℕ} a)
slice-rollback_accounts height ((k, x) ∷ bals) m a u = ground (
  arith,
  slice-rollback_accounts height bals (rollback_account height k m) a u.1,
  slice-rollback_account height k a m,
  lookup-cons a k x bals,
  string_comparable.equal_iff k a,
  u.0,
)

pub history-new :
    (db : MemDb) (w : Bool) (a : String)
    → history (record { db = db; tx = new_transaction w }) a ≡ slice_at db.balances a
history-new db w a =
    ground (arith, lookup-nil {V = List BalanceHeight} a, append-nil (slice_at db.balances a))

stored_balances-IsUnique :
    (block_hash height : ℕ) (bals : Map String ℕ) (c : Conn)
    → IsUnique c.tx.balances
    → IsUnique (stored block_hash height bals c).tx.balances
unfolding stored_tx
stored_balances-IsUnique block_hash height bals c u =
    append_balances-IsUnique height bals c.tx.balances u

-- The database once a stored block is committed.
abbrev pub after_block : ℕ → ℕ → Map String ℕ → MemDb → MemDb
after_block block_hash height bals db =
    commit (stored block_hash height bals (record { db = db; tx = new_transaction true }))

pub slice-after_block :
    (block_hash height : ℕ) (bals : Map String ℕ) (db : MemDb) (a : String)
    → IsUnique bals
    → slice_at (after_block block_hash height bals db).balances a
      ≡ slice_at db.balances a ++ entry height (lookup a bals)
slice-after_block block_hash height bals db a u =
    let c : Conn = record { db = db; tx = new_transaction true } in
    history-commit (stored block_hash height bals c) a
      (stored_balances-IsUnique block_hash height bals c tt)
    ∙ history-stored block_hash height bals c a u
    ∙ ap (λ (l : List BalanceHeight). l ++ entry height (lookup a bals)) (history-new db true a)

chain_state-after_block :
    (block_hash height : ℕ) (bals : Map String ℕ) (db : MemDb)
    → ((after_block block_hash height bals db).processed_blocks
        ≡ insert height (record { hash = block_hash; accounts = keys bals }) db.processed_blocks)
      × ((after_block block_hash height bals db).last_block_hash ≡ block_hash)
      × ((after_block block_hash height bals db).last_height ≡ height)
unfolding merge_blocks stored_tx
chain_state-after_block block_hash height bals db =
    let e =
      chain_state-commit
        (stored block_hash height bals (record { db = db; tx = new_transaction true })) in
    (
      ap (λ (s : ChainState). s.processed) e
          ∙ insert_all-single height (record { hash = block_hash; accounts = keys bals })
              db.processed_blocks,
      ap (λ (s : ChainState). s.last_hash) e,
      ap (λ (s : ChainState). s.last_height) e,
    )

-- The state after the tip is rolled back to the block `prev`.
abbrev pub undone : ℕ → ProcessedBlock → ProcessedBlock → MemDb → Conn
undone height old prev db = record {
  db = without_tip height old db;
  tx = record (new_transaction true) {
    block_hash = prev.hash;
    block_height = sub64 height 1;
    updated_block = true;
  };
}

rollback_tip_lem :
    (block_hash height : ℕ) (old prev : ProcessedBlock) (db : MemDb)
    → db.last_block_hash ≡ block_hash
    → db.last_height ≡ height
    → lookup height db.processed_blocks ≡ some old
    → lookup (sub64 height 1) (erase height db.processed_blocks) ≡ some prev
    → rollback_tip block_hash height (record { db = db; tx = new_transaction true })
      ≡ (ok tt, undone height old prev db)
unfolding rollback_tip
rollback_tip_lem block_hash height old prev db h l p q = ground arith

sub64-add64 : (x : ℕ) → IsWord x → sub64 (add64 x 1) 1 ≡ x
sub64-add64 x w = omega arith

add64-ne : (x : ℕ) → IsWord x → nat_eq (add64 x 1) x ≡ false
add64-ne x w = ground arith

lookup-before :
    (x : ℕ) (b : ProcessedBlock) (m : Map ℕ ProcessedBlock)
    → IsWord x
    → lookup (sub64 (add64 x 1) 1) (erase (add64 x 1) (insert (add64 x 1) b m)) ≡ lookup x m
lookup-before x b m w =
    let h = add64 x 1 in
    rw (sub64-add64 x w, lookup-erase h x (insert h b m), lookup-insert h x b m, add64-ne x w)

chop_if-entry :
    (height : ℕ) (o : Option ℕ) (bs : List BalanceHeight)
    → chop_if o height (bs ++ entry height o) ≡ bs
chop_if-entry height none bs = append-nil bs
chop_if-entry height (some x) bs = chop-snoc height x bs

history-undone :
    (height : ℕ) (old prev : ProcessedBlock) (db : MemDb) (a : String)
    → history (undone height old prev db) a
      ≡ slice_at (rollback_accounts height old.accounts db.balances) a
unfolding without_tip
history-undone height old prev db a =
    let bs = slice_at (rollback_accounts height old.accounts db.balances) a in
    ground (arith, lookup-nil {V = List BalanceHeight} a, append-nil bs)

-- A committed block is rolled back by the next transaction: the call succeeds, every account has
-- the history from before the block, and the tip is the block before it. The block before it must
-- be one that the database stored.
pub rollback_tip-after_block :
    (block_hash : ℕ) (bals : Map String ℕ) (db : MemDb) (prev : ProcessedBlock)
    → IsWord db.last_height
    → IsUnique bals
    → lookup db.last_height db.processed_blocks ≡ some prev
    → let height = add64 db.last_height 1 in
      let db' = after_block block_hash height bals db in
      (c : Conn) × (rollback_tip block_hash height (record { db = db'; tx = new_transaction true })
        ≡ (ok tt, c))
      × (tip_of c ≡ (prev.hash, db.last_height))
      × ((a : String) → history c a ≡ slice_at db.balances a)
rollback_tip-after_block block_hash bals db prev w u p =
    let height = add64 db.last_height 1 in
    let db' = after_block block_hash height bals db in
    let old : ProcessedBlock = record { hash = block_hash; accounts = keys bals } in
    let (e, h, l) = chain_state-after_block block_hash height bals db in
    (
      undone height old prev db',
      rollback_tip_lem block_hash height old prev db' h l
          (rw e (lookup-insert_self height old db.processed_blocks))
          (rw e (lookup-before db.last_height old db.processed_blocks w ∙ p)),
      unfold tip_of in (ap (λ (x : ℕ). (prev.hash, x)) (sub64-add64 db.last_height w)),
      λ a.
          history-undone height old prev db' a
          ∙ slice-rollback_accounts height bals db'.balances a u
          ∙ ap (chop_if (lookup a bals) height) (slice-after_block block_hash height bals db a u)
          ∙ chop_if-entry height (lookup a bals) (slice_at db.balances a),
    )

crashes :
    (block_hash height : ℕ) (old : ProcessedBlock) (db : MemDb)
    → db.last_block_hash ≡ block_hash
    → db.last_height ≡ height
    → lookup height db.processed_blocks ≡ some old
    → lookup (sub64 height 1) (erase height db.processed_blocks) ≡ none
    → rollback_tip block_hash height (record { db = db; tx = new_transaction true })
      ≡ (panic, record { db = without_tip height old db; tx = new_transaction true })
unfolding rollback_tip
crashes block_hash height old db h l p q = ground arith

-- A block that is stored and committed cannot be rolled back where the database has no block at the
-- height before it, as the first block of a new database: RollbackTip panics, after it has given
-- every account the history from before the block. The tip of the database stays at the block, with
-- no processed block at its height.
pub first_rollback_panics :
    (block_hash : ℕ) (bals : Map String ℕ) (db : MemDb)
    → IsWord db.last_height
    → IsUnique bals
    → lookup db.last_height db.processed_blocks ≡ none
    → let height = add64 db.last_height 1 in
      let db' = after_block block_hash height bals db in
      (c : Conn) × (rollback_tip block_hash height (record { db = db'; tx = new_transaction true })
        ≡ (panic, c))
      × ((a : String) → slice_at c.db.balances a ≡ slice_at db.balances a)
      × (c.db.last_block_hash ≡ block_hash)
      × (c.db.last_height ≡ height)
      × (lookup height c.db.processed_blocks ≡ none)
first_rollback_panics block_hash bals db w u p =
    let height = add64 db.last_height 1 in
    let db' = after_block block_hash height bals db in
    let old : ProcessedBlock = record { hash = block_hash; accounts = keys bals } in
    let (e, h, l) = chain_state-after_block block_hash height bals db in
    (
      record { db = without_tip height old db'; tx = new_transaction true },
      crashes block_hash height old db' h l
          (rw e (lookup-insert_self height old db.processed_blocks))
          (rw e (lookup-before db.last_height old db.processed_blocks w ∙ p)),
      λ a.
          unfold without_tip in
          (slice-rollback_accounts height bals db'.balances a u
            ∙ ap (chop_if (lookup a bals) height) (slice-after_block block_hash height bals db a u)
            ∙ chop_if-entry height (lookup a bals) (slice_at db.balances a)),
      unfold without_tip in h,
      unfold without_tip in l,
      unfold without_tip in
          (lookup-erase height height db'.processed_blocks
            ∙ ap (λ b. if b then none else lookup height db'.processed_blocks)
                ((nat_comparable.equal_iff height height).1 refl)),
    )

-- An `Update` that rolls the tip back and then fails gives the error. The histories in the database
-- are rolled back all the same, and the tip height and hash are not.
pub update_keeps_rollback :
    (block_hash : ℕ) (bals : Map String ℕ) (db : MemDb) (prev : ProcessedBlock) (e : Error)
    → IsWord db.last_height
    → IsUnique bals
    → lookup db.last_height db.processed_blocks ≡ some prev
    → let height = add64 db.last_height 1 in
      let db' = after_block block_hash height bals db in
      (db'' : MemDb) × (update (rollback_tip block_hash height >> throw {A = ℕ} e) db'
        ≡ (err e, db''))
      × ((a : String) → slice_at db''.balances a ≡ slice_at db.balances a)
      × (db''.last_height ≡ height)
      × (db''.last_block_hash ≡ block_hash)
update_keeps_rollback block_hash bals db prev e w u p =
    let height = add64 db.last_height 1 in
    let db' = after_block block_hash height bals db in
    let old : ProcessedBlock = record { hash = block_hash; accounts = keys bals } in
    let (q, h, l) = chain_state-after_block block_hash height bals db in
    let rolled =
      rollback_tip_lem block_hash height old prev db' h l
        (rw q (lookup-insert_self height old db.processed_blocks))
        (rw q (lookup-before db.last_height old db.processed_blocks w ∙ p)) in
    (
      without_tip height old db',
      unfold update in ground (arith, rolled),
      λ a.
          unfold without_tip in
          (slice-rollback_accounts height bals db'.balances a u
            ∙ ap (chop_if (lookup a bals) height) (slice-after_block block_hash height bals db a u)
            ∙ chop_if-entry height (lookup a bals) (slice_at db.balances a)),
      unfold without_tip in l,
      unfold without_tip in h,
    )
