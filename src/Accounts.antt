-- ===== src/Accounts.antt =====
-- backend/svc_account.go: the balances that `preProcessAccountBlock` works out for a block, in the
-- case of a nil utxo set, which `updateUtxoSet` leaves alone.
pub mod Balances
pub mod Mem
mod Tests
use dcrros.Prelude.{
  ℕ, String, Bool, not, ◌&&◌, ◌||◌, Option, none, some, List, [], nat_eq, if◌then◌else◌,
}
use dcrros.Prelude.Keys.{string_comparable}
use dcrros.Prelude.Maps.{Map, lookup, insert}
use dcrros.Prelude.Words.{add64, sub64}
use dcrros.Prelude.Results.{Action, Result, pure, throw_if, modify, continue, ◌>>=◌, ◌>>◌}
use dcrros.BackendDb.{Error, plain, OutPoint}
use dcrros.BackendDb.UtxoIndex.{UtxoIndex}
use dcrros.Wire.{MsgBlock, Dcrd}
use dcrros.Types.Block.{PrevOutput, Op, iterate_block_ops}
use dcrros.Sync.{connect_op}

-- What the callback changes: the database inside its transaction, and `newBalances`.
pub record Work (S : Type 0) : Type 0 where
  pub conn : S
  pub new_balances : Map String ℕ

-- What `preProcessAccountBlock` calls of the database.
pub record AccountDb (S : Type 0) : Type 1 where
  pub index : UtxoIndex S
  pub last_processed_block : Action Error S (ℕ × ℕ)
  pub balance : String → ℕ → Action Error S ℕ
  pub store_balances : ℕ → ℕ → Map String ℕ → Action Error S (Unit {0})

abbrev pub lift : {S A : Type 0} → Action Error S A → Action Error (Work S) A
lift m w = ((m w.conn).0, record w { conn = (m w.conn).1 })

abbrev pub amount_at : Option ℕ → ℕ
amount_at none = 0
amount_at (some x) = x

abbrev pub not_extending : Error
not_extending =
    plain
      "attempting to process block that does not extend tip. tip hash=%s height=%d, prev hash=%s height=%d"

module _ {S : Type 0} (db : AccountDb S) where
  -- The first time that a block changes an account, its balance is read from the database.
  abbrev pub read_first : ℕ → String → Option ℕ → Action Error (Work S) (Unit {0})
  read_first height account (some x) = pure tt
  read_first height account none = do
    last ← lift (db.balance account (sub64 height 1))
    modify (λ w. record w { new_balances = insert account last w.new_balances })

  abbrev pub add_amount : String → ℕ → Work S → Work S
  add_amount account amount w = record w {
    new_balances =
        insert account (add64 (amount_at (lookup account w.new_balances)) amount) w.new_balances;
  }

  unfoldable pub apply_op : ℕ → Op → Action Error (Work S) (Unit {0})
  apply_op height op w =
      (read_first height op.account (lookup op.account w.new_balances)
          >> modify (add_amount op.account op.amount)
          >> lift (connect_op db.index op))
        w

  -- The body of the transaction, from the last processed block to `StoreBalances`.
  module _ (dcrd : Dcrd) (genesis : ℕ)
      (fetch : List OutPoint → Action Error S (Map OutPoint PrevOutput)) where
    unfoldable pub work_out : MsgBlock → Option MsgBlock → S → Result Error (Unit {0}) × Work S
    unfolding apply_op
    work_out b prev s =
        iterate_block_ops dcrd (apply_op b.header.height) (λ os. lift (fetch os)) b prev
          (record { conn = s; new_balances = [] })

    -- A tip of zero hash and height stands for genesis.
    abbrev pub tip_hash : ℕ × ℕ → ℕ
    tip_hash tip = if nat_eq tip.0 0 && nat_eq tip.1 0 then genesis else tip.0

    abbrev pub extends_tip : MsgBlock → ℕ × ℕ → Bool
    extends_tip b tip =
        nat_eq tip.1 (sub64 b.header.height 1) && nat_eq (tip_hash tip) b.header.prev_block

    abbrev pub store_work : ℕ → ℕ → Result Error (Unit {0}) × Work S → Result Error (Unit {0}) × S
    store_work bh height r =
        continue r.0 (λ _ s. db.store_balances bh height r.1.new_balances s) r.1.conn

    unfoldable pub pre_process_account_block :
        ℕ → MsgBlock → Option MsgBlock → Action Error S (Unit {0})
    unfolding work_out
    pre_process_account_block bh b prev = do
      tip ← db.last_processed_block
      throw_if (not (extends_tip b tip)) not_extending
      λ s. store_work bh b.header.height (work_out b prev s)
