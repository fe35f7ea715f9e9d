-- ===== src/BadgerDb/Chain.antt =====
-- backend/internal/badgerdb/badgerdb.go: `Balance` after `StoreBalances`.
use dcrros.Prelude.{
  ℕ, suc, ◌^◌, ◌<◌, ◌≤◌, ◌≡◌, refl, sym, ◌∙◌, inl, inr, ◌⊎◌, true, nat_eq, nat_eq_refl, Option,
  none, some, List, if◌then◌else◌, arith,
}
use dcrros.Prelude.Maps.{Map, lookup}
use dcrros.Prelude.Bytes.{high_bytes, big_number-high_bytes}
use dcrros.Prelude.Results.{Result, ok}
use dcrros.BadgerDb.{KeyError, Txn, balance, store_balances}
use dcrros.BadgerDb.Keys.{account_balance_at_height_key}
use dcrros.BadgerDb.BalanceKeys.{HasNoNul}
use dcrros.BadgerDb.Latest.{IsSeek, HasBalances, NoneAbove, Latest, balance-Latest}
use dcrros.BadgerDb.Writes.{bytes_comparable, IsTxn, AreNamed, value_or, same_either}
use dcrros.BadgerDb.Stored.{IsNext, store_balances-stored, lookup_small, stored-key, stored-IsEntry}

lower :
    {A : Type 0} {o : Option A} (below height j : ℕ)
    → j ≤ below
    → (o ≡ none) ⊎ (below < height)
    → (o ≡ none) ⊎ (j < height)
lower below height j le (inl missing) = inl missing
lower below height j le (inr lt) = inr (omega (arith, le, lt))

module _ {S : Type 0} (db : Txn S) (laws : IsTxn db) (seek : IsSeek db) where
  -- The entries of an account at other heights, and those of an account that the block leaves alone
  kept :
      (account : List ℕ) (height j : ℕ) (o : Option ℕ) (old : Result KeyError (List ℕ))
      → (o ≡ none) ⊎ (j < height)
      → (if nat_eq height j then value_or o old else old) ≡ old
  kept account height j o old (inl missing) = rw missing (sym (same_either (nat_eq height j) old))
  kept account height j o old (inr below) = ground (arith, below)

  agree-NoneAbove :
      (account : List ℕ) (low high : ℕ) (s s' : S)
      → ((j : ℕ)
          → j ≤ high
          → db.get (account_balance_at_height_key account j) s'
            ≡ db.get (account_balance_at_height_key account j) s)
      → NoneAbove db account low high s
      → NoneAbove db account low high s'
  agree-NoneAbove account low high s s' agree above j v low_le le e =
      above j v low_le le (sym (agree j le) ∙ e)

  -- Where the entries up to a height are the same, so is the latest.
  agree-Latest :
      (account : List ℕ) (height : ℕ) (s s' : S) (x : ℕ)
      → ((j : ℕ)
          → j ≤ height
          → db.get (account_balance_at_height_key account j) s'
            ≡ db.get (account_balance_at_height_key account j) s)
      → Latest db account height s x
      → Latest db account height s' x
  agree-Latest account height s s' x agree (inl (j, (v, (le, (got, (value, above)))))) = inl (
    j,
    (v, (le, (agree j le ∙ got, (value, agree-NoneAbove account (suc j) height s s' agree above)))),
  )
  agree-Latest account height s s' x agree (inr (zero, above)) =
      inr (zero, agree-NoneAbove account 0 height s s' agree above)

  -- An entry at the height itself is the latest.
  here-Latest :
      (account : List ℕ) (height : ℕ) (s : S) (x : ℕ)
      → x < 2 ^ 64
      → db.get (account_balance_at_height_key account height) s ≡ ok (high_bytes 8 x)
      → Latest db account height s x
  here-Latest account height s x small got = inl (
    height,
    (
      high_bytes 8 x,
      (
        omega arith,
        (
          got,
          (sym (big_number-high_bytes 8 x small), λ j v low le e. absurd (omega (arith, low, le))),
        ),
      ),
    ),
  )

  -- After StoreBalances of the block after the tip, in a writable transaction, the entries of balances
  -- are in form, Balance gives the block's balance at its height for every account of the block, and
  -- what was the latest before for the other accounts, and for all at lower heights. The accounts
  -- have no zero byte, and heights and amounts are words. badger keeps its promises on writes and on
  -- reverse iterators.
  pub balance-store_balances :
      (block_hash height : ℕ) (balances : Map (List ℕ) ℕ) (s : S)
      → height < 2 ^ 64
      → AreNamed balances
      → HasBalances db s
      → IsNext db laws height s
      → (s' : S) × ((store_balances db true block_hash height balances s ≡ (ok tt, s'))
          × (HasBalances db s'
              × (((account : List ℕ) (x : ℕ)
                    → HasNoNul account
                    → lookup account balances ≡ some x
                    → balance db account height s' ≡ (ok x, s'))
                  × ((account : List ℕ) (below x : ℕ)
                      → HasNoNul account
                      → below < 2 ^ 64
                      → (lookup account balances ≡ none) ⊎ (below < height)
                      → Latest db account below s x
                      → balance db account below s' ≡ (ok x, s')))))
  balance-store_balances block_hash height balances s small all entries may =
      let (s', (put, (writable, got))) =
        store_balances-stored db laws block_hash height balances s may in
      let entries' : HasBalances db s' = λ k v e front.
        stored-IsEntry k v block_hash height balances (db.get k s) small all front
          (λ old. entries k v old front) (sym (got k) ∙ e) in
      (
        s',
        (
          put,
          (
            entries',
            (
              λ account x named e. balance-Latest db seek account height s' x named small entries' (
                  here-Latest account height s' x (lookup_small account balances x all e) (
                    got (account_balance_at_height_key account height)
                    ∙ stored-key account block_hash height height balances _ named small small all
                    ∙ rw (nat_eq_refl height, e) refl)),
              λ account below x named below_small free latest.
                  balance-Latest db seek account below s' x named below_small entries' (
                    agree-Latest account below s s' x
                      (λ j le.
                        let j_small : j < 2 ^ 64 = omega (arith, le, below_small) in
                        got (account_balance_at_height_key account j)
                        ∙ stored-key account block_hash height j balances _ named small j_small all
                        ∙ kept account height j (lookup account balances) _
                            (lower below height j le free))
                      latest),
            ),
          ),
        ),
      )
