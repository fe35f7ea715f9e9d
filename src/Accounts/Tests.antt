-- ===== src/Accounts/Tests.antt =====
-- A block is processed over the in-memory database.
use dcrros.Prelude.{◌≡◌, refl, true, none, [], ◌∷◌}
use dcrros.Prelude.Maps.{lookup, insert}
use dcrros.Prelude.Results.{ok}
use dcrros.BackendDb.{outpoint_comparable}
use dcrros.MemDb.State.{Conn, new_mem_db, new_transaction}
use dcrros.MemDb.Balances.{
  last_processed_block, tip_of, balance, balance_from, stored_balance, store_balances,
}
use dcrros.MemDb.Utxos.{add_utxo}
use dcrros.Sync.{connect_op}
use dcrros.Wire.{MsgBlock}
use dcrros.Types.Address.{dcr_pk_script_to_account_addr}
use dcrros.Types.Block.{vote_bits_approves_parent, tx_flags, prev_outpoints, iterate_block_ops}
use dcrros.Types.Samples.{dcrd, table, block, tx, input, output, fetch, fetch-table}
use dcrros.Accounts.{work_out, apply_op, pre_process_account_block}
use dcrros.Accounts.Mem.{mem_accounts, mem_balance, balance-mem_balance, mem_balance-connect_op}
use dcrros.Accounts.Balances.{Stored, pre_process_account_block-net}

-- The block before has been processed.
abbrev conn : Conn
conn = record { db = record new_mem_db { last_height = 4 }; tx = new_transaction true }

-- A block that approves its parent, with a coinbase that pays 60 to Dsa.
abbrev small : MsgBlock
small = record (block 5 (tx 12 (input 0 ∷ []) (output 7 60 ∷ []) ∷ [])) {
  header = record { version = 1; prev_block = 0; vote_bits = 1; height = 5 };
}

abbrev after : Conn
after = (pre_process_account_block mem_accounts dcrd 7 fetch 77 small none conn).1

processed : pre_process_account_block mem_accounts dcrd 7 fetch 77 small none conn ≡ (ok tt, after)
unfolding pre_process_account_block work_out apply_op iterate_block_ops vote_bits_approves_parent
    tx_flags prev_outpoints dcr_pk_script_to_account_addr last_processed_block tip_of balance
    balance_from stored_balance connect_op add_utxo store_balances lookup insert
processed = refl

tip-unchanged : (c : Conn) → (last_processed_block c).1 ≡ c
unfolding last_processed_block
tip-unchanged c = refl

pre_process_account_block-net_example :
    Stored mem_accounts mem_balance balance-mem_balance mem_balance-connect_op dcrd 7 fetch
      (λ o. lookup o table)
      fetch-table
      77
      small
      none
      conn
      after
pre_process_account_block-net_example =
    pre_process_account_block-net mem_accounts mem_balance balance-mem_balance
      mem_balance-connect_op dcrd 7 fetch (λ o. lookup o table) fetch-table tip-unchanged 77 small
      none conn after processed
