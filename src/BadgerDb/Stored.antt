-- ===== src/BadgerDb/Stored.antt =====
-- backend/internal/badgerdb/badgerdb.go: `Balance` after `StoreBalances`.
use dcrros.Prelude.{
  ℕ, ◌^◌, ◌<◌, ◌≡◌, ◌≢◌, refl, sym, ap, ◌∙◌, inl, inr, true, nat_eq, nat_eq_refl, Bool-cases, some,
  List, [], ◌∷◌, ◌++◌, if◌then◌else◌, arith,
}
use dcrros.Prelude.Maps.{Map, lookup}
use dcrros.Prelude.Lists.{length}
use dcrros.Prelude.Words.{add64}
use dcrros.Prelude.Bytes.{high_bytes, length-high_bytes, starts_with}
use dcrros.Prelude.Results.{Result, ok, err}
use dcrros.Prelude.Outcomes.{ok-injective}
use dcrros.BadgerDb.{
  KeyError, Txn, store_balances, put_processed_block, put_last_processed_account_block,
  last_processed_block, fetch_last_processed_account_block, fetch_processed_block_hash,
}
use dcrros.BadgerDb.Keys.{
  last_processed_block_key, processed_block_key, account_balance_key_prefix,
  account_balance_at_height_key, block_account_key,
}
use dcrros.BadgerDb.BalanceKeys.{HasNoNul}
use dcrros.BadgerDb.Latest.{IsEntry}
use dcrros.BadgerDb.Writes.{
  bytes_comparable, bytes_eq, bytes_eq_iff, IsTxn, AreNamed, written, put_balances-written,
  written-key, value_or, processed_block_key-other, last_processed_block_key-other,
}

-- What stands under a key after a block is stored, over what stood there.
abbrev pub stored :
    List ℕ → ℕ → ℕ → Map (List ℕ) ℕ → Result KeyError (List ℕ) → Result KeyError (List ℕ)
stored k block_hash height balances old =
    if bytes_eq last_processed_block_key k
    then ok (high_bytes 32 block_hash ++ high_bytes 8 height)
    else if bytes_eq (processed_block_key height) k
    then ok (high_bytes 32 block_hash)
    else written k height balances old

module _ {S : Type 0} (db : Txn S) (laws : IsTxn db) where
  -- A block may be stored: the transaction is writable, the height has no block, and it is that after
  -- the tip.
  pub record IsNext (height : ℕ) (s : S) : Type 0 where
    pub writable : laws.IsWritable s
    pub tip : ℕ × ℕ
    pub tip_is : fetch_last_processed_account_block db s ≡ ok tip
    pub next : height ≡ add64 tip.1 1
    pub missing : fetch_processed_block_hash db height s ≡ err KeyError.key_not_found

  pub store_balances-stored :
      (block_hash height : ℕ) (balances : Map (List ℕ) ℕ) (s : S)
      → IsNext height s
      → (s' : S) × ((store_balances db true block_hash height balances s ≡ (ok tt, s'))
          × (laws.IsWritable s'
              × ((k : List ℕ) → db.get k s' ≡ stored k block_hash height balances (db.get k s))))
  unfolding store_balances put_processed_block put_last_processed_account_block last_processed_block
  store_balances-stored block_hash height balances s may =
      let (s1, (put1, (h1, got1))) = put_balances-written db laws height balances s may.writable in
      let (s2, (put2, (h2, got2))) =
        laws.get-set (processed_block_key height) (high_bytes 32 block_hash) s1 h1 in
      let (s3, (put3, (h3, got3))) =
        laws.get-set last_processed_block_key (high_bytes 32 block_hash ++ high_bytes 8 height) s2
          h2 in
      (
        s3,
        (
          rw
              (
                may.missing,
                may.tip_is,
                may.next,
                nat_eq_refl (add64 may.tip.1 1),
                sym may.next,
                put1,
                put2,
                put3,
              )
              refl,
          (h3, λ k. rw (got3 k, got2 k, got1 k) refl),
        ),
      )

some_small : (amount x : ℕ) → amount < 2 ^ 64 → some amount ≡ some x → x < 2 ^ 64
some_small amount x h e = let same : amount ≡ x = cc in omega (arith, h, same)

pub lookup_small :
    (account : List ℕ) (balances : Map (List ℕ) ℕ) (x : ℕ)
    → AreNamed balances
    → lookup account balances ≡ some x
    → x < 2 ^ 64
unfolding lookup
lookup_small account [] x h e = absurd cc
lookup_small account ((other, amount) ∷ balances) x ((_, small), all) e =
    elim (Bool-cases (bytes_eq other account)) [
      | inl same ↦ some_small amount x small (rw same at e)
      | inr different ↦ lookup_small account balances x all (rw different at e)
    ]

pub stored-key :
    (account : List ℕ) (block_hash height j : ℕ) (balances : Map (List ℕ) ℕ)
    (old : Result KeyError (List ℕ))
    → HasNoNul account
    → height < 2 ^ 64
    → j < 2 ^ 64
    → AreNamed balances
    → stored (account_balance_at_height_key account j) block_hash height balances old
      ≡ (if nat_eq height j then value_or (lookup account balances) old else old)
stored-key account block_hash height j balances old named small j_small all =
    rw (last_processed_block_key-other j account, processed_block_key-other height j account)
      (written-key account height j balances old named small j_small all)

-- The other keys do not begin as those of balances.
block_account_key-front :
    (height : ℕ) (account k : List ℕ)
    → bytes_eq (block_account_key height account) k ≡ true
    → starts_with account_balance_key_prefix k ≢ true
unfolding starts_with block_account_key
block_account_key-front height account k same front =
    let clash = rw (sym ((bytes_eq_iff (block_account_key height account) k).0 same)) at front in
    absurd cc

processed_block_key-front :
    (height : ℕ) (k : List ℕ)
    → bytes_eq (processed_block_key height) k ≡ true
    → starts_with account_balance_key_prefix k ≢ true
unfolding starts_with processed_block_key
processed_block_key-front height k same front =
    let clash = rw (sym ((bytes_eq_iff (processed_block_key height) k).0 same)) at front in
    absurd cc

last_processed_block_key-front :
    (k : List ℕ)
    → bytes_eq last_processed_block_key k ≡ true
    → starts_with account_balance_key_prefix k ≢ true
unfolding starts_with
last_processed_block_key-front k same front =
    let clash = rw (sym ((bytes_eq_iff last_processed_block_key k).0 same)) at front in absurd cc

-- An entry of a balance that is put
written-IsEntry :
    (k v : List ℕ) (height : ℕ) (balances : Map (List ℕ) ℕ) (old : Result KeyError (List ℕ))
    → height < 2 ^ 64
    → AreNamed balances
    → starts_with account_balance_key_prefix k ≡ true
    → (old ≡ ok v → IsEntry k v)
    → written k height balances old ≡ ok v
    → IsEntry k v
written-IsEntry k v height [] old small all front before e = before e
written-IsEntry k v height ((account, amount) ∷ balances) old small ((named, _), all) front before
      e =
    elim (Bool-cases (bytes_eq (block_account_key height account) k)) [
      | inl other ↦ absurd (block_account_key-front height account k other front)
      | inr not_block ↦
          elim (Bool-cases (bytes_eq (account_balance_at_height_key account height) k)) [
            | inl put ↦ record {
              account = account;
              height = height;
              key = sym ((bytes_eq_iff (account_balance_at_height_key account height) k).0 put);
              named = named;
              small = small;
              sized =
                  ap (λ bs. length bs)
                    (sym (ok-injective _ (high_bytes 8 amount) v refl (rw (not_block, put) at e)))
                  ∙ length-high_bytes 8 amount;
            }
            | inr not_put ↦
                written-IsEntry k v height balances old small all front before
                  (rw (not_block, not_put) at e)
          ]
    ]

pub stored-IsEntry :
    (k v : List ℕ) (block_hash height : ℕ) (balances : Map (List ℕ) ℕ)
    (old : Result KeyError (List ℕ))
    → height < 2 ^ 64
    → AreNamed balances
    → starts_with account_balance_key_prefix k ≡ true
    → (old ≡ ok v → IsEntry k v)
    → stored k block_hash height balances old ≡ ok v
    → IsEntry k v
stored-IsEntry k v block_hash height balances old small all front before e =
    elim (Bool-cases (bytes_eq last_processed_block_key k)) [
      | inl tip ↦ absurd (last_processed_block_key-front k tip front)
      | inr not_tip ↦ elim (Bool-cases (bytes_eq (processed_block_key height) k)) [
        | inl block ↦ absurd (processed_block_key-front height k block front)
        | inr not_block ↦
            written-IsEntry k v height balances old small all front before
              (rw (not_tip, not_block) at e)
      ]
    ]
