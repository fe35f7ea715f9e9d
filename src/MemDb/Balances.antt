-- ===== src/MemDb/Balances.antt =====
-- The balance index of the in-memory database (memdb.go): `Balance`, `LastProcessedBlock`,
-- `ProcessedBlockHash` and `StoreBalances`.
use dcrros.Prelude.{
  ℕ, ◌-◌, String, Bool, true, false, not, ◌&&◌, Option, Option, none, some, List, [], ◌∷◌, ◌++◌,
  ltb, nat_eq, if◌then◌else◌,
}
use dcrros.Prelude.Maps.{Map, lookup, insert}
use dcrros.Prelude.Lists.{length, get_elem?}
use dcrros.Prelude.Words.{add64, slt, sle}
use dcrros.Prelude.Keys.{nat_comparable, string_comparable}
use dcrros.Prelude.Results.{Result, ok, err, panic, gets, throw_if, ◌>>=◌, ◌>>◌, modify}
use dcrros.BackendDb.{
  Error, plain, block_height_not_found, block_already_processed, not_extending_tip,
}
use dcrros.MemDb.Search.{search}
use dcrros.MemDb.State.{BalanceHeight, Transaction, Conn, Call}

abbrev pub or_nil {ℓ} : {A : Type ℓ} → Option (List A) → List A
or_nil none = []
or_nil (some bs) = bs

-- A read of a map of slices: a missing key gives the nil slice.
abbrev pub slice_at {ℓ} : {A : Type ℓ} → Map String (List A) → String → List A
slice_at m a = or_nil (lookup a m)

-- balances[i].height >= height, the test that the search is given; it asks at indexes in range.
abbrev pub at_least : List BalanceHeight → ℕ → ℕ → Bool
at_least bs height i = elim (get_elem? bs i) [ none ↦ false | some b ↦ sle height b.height ]

-- balances[i].balance; out of range it panics
unfoldable pub balance_at : List BalanceHeight → ℕ → Result Error ℕ
balance_at bs i = elim (get_elem? bs i) [ none ↦ panic | some b ↦ ok b.balance ]

-- The search and the switch at the end of `Balance`.
unfoldable pub pick_balance : List BalanceHeight → ℕ → ℕ → Result Error ℕ
unfolding balance_at
pick_balance bs height i =
    if nat_eq i (length bs) && ltb 0 (length bs)
    then balance_at bs (i - 1)
    else elim (get_elem? bs i) [
      | none ↦ panic
      | some b ↦
          if nat_eq b.height height
          then ok b.balance
          else if nat_eq i 0
          then ok 0
          else balance_at bs (i - 1)
    ]

unfoldable pub search_balance : List BalanceHeight → ℕ → Result Error ℕ
search_balance bs height = pick_balance bs height (search (length bs) (at_least bs height))

-- The balances of the database; an account that has none has balance 0.
unfoldable pub stored_balance : List BalanceHeight → ℕ → Result Error ℕ
stored_balance [] height = ok 0
stored_balance (b ∷ bs) height = search_balance (b ∷ bs) height

-- The balances of the transaction serve unless their first height is above the target.
unfoldable pub balance_from : List BalanceHeight → List BalanceHeight → ℕ → Result Error ℕ
balance_from [] stored height = stored_balance stored height
balance_from (b ∷ bs) stored height =
    if slt height b.height then stored_balance stored height else search_balance (b ∷ bs) height

unfoldable pub balance : String → ℕ → Call ℕ
balance account height c =
    (balance_from (slice_at c.tx.balances account) (slice_at c.db.balances account) height, c)

unfoldable pub tip_of : Conn → ℕ × ℕ
tip_of c =
    if c.tx.updated_block
    then (c.tx.block_hash, c.tx.block_height)
    else (c.db.last_block_hash, c.db.last_height)

unfoldable pub last_processed_block : Call (ℕ × ℕ)
unfolding tip_of
last_processed_block = gets tip_of

unfoldable pub processed_block_hash : ℕ → Call ℕ
processed_block_hash height c = elim (lookup height c.tx.processed_blocks) [
  | some b ↦ (ok b.hash, c)
  | none ↦ elim (lookup height c.db.processed_blocks) [
    | some b ↦ (ok b.hash, c)
    | none ↦ (err block_height_not_found, c)
  ]
]

-- for account, balance := range balances { ... }
unfoldable pub append_balances :
    ℕ → Map String ℕ → Map String (List BalanceHeight) → Map String (List BalanceHeight)
append_balances height [] m = m
append_balances height ((account, amount) ∷ bals) m =
    let m' = append_balances height bals m in
    insert account (slice_at m' account ++ record { height = height; balance = amount } ∷ []) m'

abbrev pub keys : Map String ℕ → List String
keys [] = []
keys ((account, amount) ∷ bals) = account ∷ keys bals

unfoldable pub stored_tx : ℕ → ℕ → Map String ℕ → Transaction → Transaction
unfolding append_balances
stored_tx block_hash height balances tx = record tx {
  balances = append_balances height balances tx.balances;
  processed_blocks =
      insert height (record { hash = block_hash; accounts = keys balances }) tx.processed_blocks;
  block_hash = block_hash;
  block_height = height;
  updated_block = true;
}

unfoldable pub store_balances : ℕ → ℕ → Map String ℕ → Call (Unit {0})
unfolding stored_tx
store_balances block_hash height balances = do
  tx ← gets (λ c. c.tx)
  db ← gets (λ c. c.db)
  throw_if (not tx.writable) (plain "unwritable tx")
  throw_if (tx.updated_block && nat_eq tx.block_height height) block_already_processed
  throw_if (nat_eq db.last_height height) block_already_processed
  throw_if (tx.updated_block && not (nat_eq height (add64 tx.block_height 1))) not_extending_tip
  throw_if (not tx.updated_block && not (nat_eq height (add64 db.last_height 1))) not_extending_tip
  modify (λ c. record c { tx = stored_tx block_hash height balances c.tx })
