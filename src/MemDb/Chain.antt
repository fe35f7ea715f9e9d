-- ===== src/MemDb/Chain.antt =====
-- The balance index of memdb.go as a chain of blocks: `StoreBalances` extends it by one block, and
-- `Balance` reads the history of an account.
use dcrros.Prelude.{
  ℕ, String, ◌≡◌, refl, sym, ◌≤◌, ◌<◌, ◌^◌, ◌-◌, true, Option, none, some, List, [], ◌∷◌, ◌++◌,
  arith, nat_eq, if◌then◌else◌,
}
use mathlib.Core.List.{append-nil, append_assoc}
use dcrros.Prelude.Lists.{All}
use dcrros.Prelude.Maps.{Map, lookup, IsUnique, insert-IsUnique}
use dcrros.Prelude.Keys.{string_comparable}
use dcrros.Prelude.Words.{IsWord, rank, add64}
use dcrros.Prelude.Results.{ok, err}
use dcrros.BackendDb.{block_already_processed, not_extending_tip}
use dcrros.MemDb.State.{BalanceHeight, Conn}
use dcrros.MemDb.Balances.{slice_at, balance, tip_of, append_balances, stored_tx, store_balances}
use dcrros.MemDb.Lookup.{IsSorted, latest}
use dcrros.MemDb.History.{history, entry, balance_from-latest, slice-append_balances, All-append}

-- In a writable transaction or not, `Balance` gives the last balance of the history that is not
-- above the height, and 0 where there is none.
pub balance-latest :
    (account : String) (height : ℕ) (c : Conn)
    → IsWord height
    → IsSorted (history c account)
    → balance account height c ≡ (ok (latest (history c account) height 0), c)
unfolding balance
balance-latest account height c w s = rw (
    balance_from-latest (slice_at c.tx.balances account) (slice_at c.db.balances account) height w
      s)

-- The histories are sorted and do not pass the tip.
pub record IsValid (c : Conn) : Type 0 where
  pub sorted : (a : String) → IsSorted (history c a)
  pub bounded : (a : String) → All (λ b. rank b.height ≤ rank (tip_of c).1) (history c a)
  pub tip_word : IsWord (tip_of c).1
  pub unique : IsUnique c.tx.balances

-- The tip can still be extended: its height is not the largest int64.
abbrev pub HasRoom : Conn → Type 0
HasRoom c = rank (tip_of c).1 < 2 ^ 64 - 1

rank-add64 : (a : ℕ) → rank a < 2 ^ 64 - 1 → rank a < rank (add64 a 1)
rank-add64 a h = omega arith

IsWord-add64 : (a : ℕ) → IsWord (add64 a 1)
IsWord-add64 a = omega arith

-- A sorted history below a height stays sorted when an entry of that height is appended.
IsSorted-entry :
    (bs : List BalanceHeight) (height k : ℕ) (o : Option ℕ)
    → IsSorted bs
    → All (λ b. rank b.height ≤ k) bs
    → k < rank height
    → IsWord height
    → IsSorted (bs ++ entry height o)
IsSorted-entry [] height k none s a lt w = tt
IsSorted-entry [] height k (some x) s a lt w = (w, tt, tt)
IsSorted-entry (b ∷ bs) height k o s a lt w =
    (s.0, above o, IsSorted-entry bs height k o s.2 a.1 lt w)
  where
    above : (o : Option ℕ) → All (λ c. rank b.height < rank c.height) (bs ++ entry height o)
    above none = rw (append-nil bs) s.1
    above (some x) =
        All-append (λ (c : BalanceHeight). rank b.height < rank c.height) bs (entry height (some x))
          s.1 (omega arith, tt)

All-entry :
    (bs : List BalanceHeight) (height k : ℕ) (o : Option ℕ)
    → All (λ b. rank b.height ≤ k) bs
    → k < rank height
    → All (λ b. rank b.height ≤ rank height) (bs ++ entry height o)
All-entry [] height k none a lt = tt
All-entry [] height k (some x) a lt = (omega arith, tt)
All-entry (b ∷ bs) height k o a lt = (omega arith, All-entry bs height k o a.1 lt)

-- The state after a block is stored.
abbrev pub stored : ℕ → ℕ → Map String ℕ → Conn → Conn
stored block_hash height bals c = record c { tx = stored_tx block_hash height bals c.tx }

pub history-stored :
    (block_hash height : ℕ) (bals : Map String ℕ) (c : Conn) (a : String)
    → IsUnique bals
    → history (stored block_hash height bals c) a ≡ history c a ++ entry height (lookup a bals)
unfolding stored_tx
history-stored block_hash height bals c a u =
    rw (slice-append_balances height bals c.tx.balances a u) (
      sym (
        append_assoc (slice_at c.db.balances a) (slice_at c.tx.balances a)
          (entry height (lookup a bals))))

pub append_balances-IsUnique :
    (height : ℕ) (bals : Map String ℕ) (m : Map String (List BalanceHeight))
    → IsUnique m
    → IsUnique (append_balances height bals m)
unfolding append_balances
append_balances-IsUnique height [] m u = u
append_balances-IsUnique height ((a, x) ∷ bals) m u =
    insert-IsUnique a _ (append_balances height bals m) (append_balances-IsUnique height bals m u)

pub tip_of-stored :
    (block_hash height : ℕ) (bals : Map String ℕ) (c : Conn)
    → tip_of (stored block_hash height bals c) ≡ (block_hash, height)
unfolding tip_of stored_tx
tip_of-stored block_hash height bals c = refl

pub stored-IsValid :
    (block_hash : ℕ) (bals : Map String ℕ) (c : Conn)
    → IsValid c
    → HasRoom c
    → IsUnique bals
    → IsValid (stored block_hash (add64 (tip_of c).1 1) bals c)
stored-IsValid block_hash bals c v room u =
    let height = add64 (tip_of c).1 1 in
    let up = rank-add64 (tip_of c).1 room in
    record {
      sorted = λ a. rw (history-stored block_hash height bals c a u) (
          IsSorted-entry (history c a) height (rank (tip_of c).1) (lookup a bals) (v.sorted a)
            (v.bounded a) up (IsWord-add64 (tip_of c).1));
      bounded = λ a.
          rw (history-stored block_hash height bals c a u, tip_of-stored block_hash height bals c)
            (All-entry (history c a) height (rank (tip_of c).1) (lookup a bals) (v.bounded a) up);
      tip_word = rw (tip_of-stored block_hash height bals c) (IsWord-add64 (tip_of c).1);
      unique = unfold stored_tx in append_balances-IsUnique height bals c.tx.balances v.unique;
    }

-- `StoreBalances` on every path: the block must extend the tip of the transaction and have another
-- height than the stored tip.
pub store_balances_lem :
    (block_hash height : ℕ) (bals : Map String ℕ) (c : Conn)
    → c.tx.writable ≡ true
    → store_balances block_hash height bals c ≡ (
        if nat_eq (tip_of c).1 height
        then (err block_already_processed, c)
        else if nat_eq c.db.last_height height
        then (err block_already_processed, c)
        else if nat_eq height (add64 (tip_of c).1 1)
        then (ok tt, stored block_hash height bals c)
        else (err not_extending_tip, c))
unfolding store_balances tip_of
store_balances_lem block_hash height bals c w = ground arith
