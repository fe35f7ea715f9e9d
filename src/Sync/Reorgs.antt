-- ===== src/Sync/Reorgs.antt =====
-- A reorganisation of two blocks, on the in-memory database.
use dcrros.Prelude.{
  ℕ, zero, suc, ◌+◌, ◌<◌, ◌≤◌, ◌≡◌, ◌≢◌, refl, ◌⊎◌, true, Option, none, some, List, [], ◌∷◌, arith,
}
use dcrros.Prelude.Maps.{Map, lookup, erase, insert, insert_all}
use dcrros.Prelude.Keys.{nat_comparable}
use dcrros.Prelude.Words.{sub64, slt}
use dcrros.Prelude.Results.{Result, ok}
use dcrros.Prelude.Posts.{Post}
use dcrros.BackendDb.{Error, OutPoint}
use dcrros.Wire.{MsgBlock, BlockHeader}
use dcrros.Types.Samples.{dcrd, fetch, input, output, tx}
use dcrros.Types.Address.{dcr_pk_script_to_account_addr}
use dcrros.Types.Block.{PrevOutput, vote_bits_approves_parent, iterate_block_ops, tx_flags}
use dcrros.Accounts.{pre_process_account_block}
use dcrros.MemDb.State.{ProcessedBlock, MemDb, Conn, new_mem_db, new_transaction}
use dcrros.MemDb.Rollback.{rollback_tip}
use dcrros.MemDb.Balances.{
  tip_of, last_processed_block, balance, balance_from, stored_balance, search_balance, pick_balance,
  store_balances,
}
use dcrros.MemDb.Search.{search}
use dcrros.MemDb.Utxos.{add_utxo, del_utxo}
use dcrros.MemDb.Commit.{update, commit}
use dcrros.Sync.{connect_op, roll_back_op}
use dcrros.Sync.RollBack.{ChainDb, rewind, roll_back_db_chain}
use dcrros.Sync.Links.{OnSome}
use dcrros.Sync.Forks.{Forked, roll_back_db_chain-Forked}
use dcrros.Sync.Reorg.{
  ChainServer, switch_chain_to, handle_block_connected, handle_block_disconnected,
}
use dcrros.Sync.Handlers.{
  switch_chain_to-tip, handle_block_connected-tip, handle_block_disconnected-tip,
}
use dcrros.Sync.Mem.{db_tip, DbStored, Stored, Saved}
use dcrros.Sync.Mem.Saves.{opened-Stored}
use dcrros.Sync.Mem.Server.{mem_chain, mem_server, mem_chain-IsChain, mem_server-IsServer}

abbrev header : ℕ → ℕ → BlockHeader
header prev height = record { version = 1; prev_block = prev; vote_bits = 1; height = height }

-- A coinbase that pays Dsa.
abbrev block : ℕ → ℕ → MsgBlock
block prev height = record {
  header = header prev height;
  transactions = tx (200 + height) (input 0 ∷ []) (output 7 50 ∷ []) ∷ [];
  stransactions = [];
}

-- 102 and 112 both go on 101.
abbrev blocks : Map ℕ MsgBlock
blocks = (101, block 100 1) ∷ (102, block 101 2) ∷ (112, block 101 2) ∷ (113, block 112 3) ∷ []

abbrev block_at : ℕ → Option MsgBlock
block_at h = lookup h blocks

abbrev outputs : List OutPoint → Result Error (Map OutPoint PrevOutput)
outputs os = (fetch {S = Unit {0}} os tt).0

abbrev chain : ChainDb Conn
chain = mem_chain block_at outputs

abbrev server : ChainServer Conn MemDb
server = mem_server block_at outputs

-- 101 and 102 are processed.
abbrev memory : MemDb
memory = record new_mem_db {
  last_block_hash = 102;
  last_height = 2;
  processed_blocks =
      (1, record { hash = 101; accounts = [] }) ∷ (2, record { hash = 102; accounts = [] }) ∷ [];
}

processed :
    (n : ℕ) → 0 < n → n ≤ 2 → (b : ProcessedBlock) × (lookup n memory.processed_blocks ≡ some b)
unfolding lookup
processed zero low high = absurd (omega arith)
processed (suc zero) low high = (record { hash = 101; accounts = [] }, refl)
processed (suc (suc zero)) low high = (record { hash = 102; accounts = [] }, refl)
processed (suc (suc (suc n))) low high = absurd (omega arith)

memory-DbStored : DbStored memory
memory-DbStored = (omega arith, processed)

abbrev conn : Conn
conn = record { db = memory; tx = new_transaction true }

conn-Stored : Stored conn
conn-Stored = opened-Stored memory memory-DbStored

abbrev block_hash : BlockHeader → ℕ
block_hash h = h.prev_block + 1

roll_back_db_chain_forked :
    (roll_back_db_chain dcrd chain (112, 2) conn).0
    ≡ ok (some (record { tip = (101, 1); missing = 112 ∷ [] }))
unfolding roll_back_db_chain lookup vote_bits_approves_parent iterate_block_ops tx_flags
    dcr_pk_script_to_account_addr roll_back_op rollback_tip erase last_processed_block del_utxo
roll_back_db_chain_forked = refl

roll_back_db_chain-Forked_example :
    Post
      (OnSome
        (Forked dcrd chain tip_of Stored block_at (mem_chain-IsChain block_at outputs) (112, 2)))
      (roll_back_db_chain dcrd chain (112, 2) conn)
unfolding tip_of
roll_back_db_chain-Forked_example =
    roll_back_db_chain-Forked dcrd chain tip_of Stored block_at (mem_chain-IsChain block_at outputs)
      (112, 2) conn conn-Stored (omega arith) (omega arith)

switch_chain_to-tip_example :
    Post
      (OnSome (λ _ d'. (db_tip d' ≡ (113, 3)) × DbStored d'))
      (switch_chain_to dcrd 100 server 113 (block 112 3) memory)
switch_chain_to-tip_example =
    switch_chain_to-tip dcrd 100 server tip_of db_tip Stored Saved DbStored block_at
      (mem_server-IsServer block_at outputs) 113 (block 112 3) memory memory-DbStored (omega arith)

handle_block_connected-tip_example :
    Post
      (OnSome (λ _ d'.
        ((slt 3 2 ≡ true) × ((db_tip d' ≡ (102, 2)) × DbStored d'))
        ⊎ ((b : MsgBlock) × ((block_at 113 ≡ some b)
              × ((db_tip d' ≡ (113, b.header.height)) × DbStored d')))))
      (handle_block_connected dcrd 100 server block_hash (header 112 3) memory)
handle_block_connected-tip_example =
    handle_block_connected-tip dcrd 100 server tip_of db_tip Stored Saved DbStored block_at
      (mem_server-IsServer block_at outputs) block_hash (header 112 3) memory memory-DbStored
      (omega arith)

handle_block_disconnected-tip_example :
    Post
      (λ _ d'.
        (((db_tip memory ≡ (102, 2)) × ((db_tip d').1 ≡ sub64 2 1))
          ⊎ ((db_tip memory ≢ (102, 2)) × (db_tip d' ≡ (102, 2))))
        × DbStored d')
      (handle_block_disconnected dcrd 100 server block_hash (header 101 2) memory)
handle_block_disconnected-tip_example =
    handle_block_disconnected-tip dcrd 100 server tip_of db_tip Stored Saved DbStored block_at
      (mem_server-IsServer block_at outputs) block_hash (header 101 2) memory memory-DbStored refl

-- The chain is switched to 113: the tip of the in-memory database, on 112 and 101.
switch_chain_to_reorganised :
    db_tip (switch_chain_to dcrd 100 server 113 (block 112 3) memory).1 ≡ (113, 3)
unfolding switch_chain_to lookup roll_back_db_chain vote_bits_approves_parent iterate_block_ops
    tx_flags dcr_pk_script_to_account_addr roll_back_op pre_process_account_block connect_op update
    rollback_tip erase last_processed_block del_utxo add_utxo store_balances balance insert commit
    insert_all balance_from stored_balance search_balance pick_balance search
switch_chain_to_reorganised = refl

-- After an Update that rolled the tip back and then failed, the processed block of the tip is gone.
abbrev lost : Conn
lost = record {
  db = record new_mem_db { last_block_hash = 102; last_height = 2 };
  tx = new_transaction true;
}

-- The loop does not fail there.
rewind-lost : (rewind dcrd (mem_chain block_at outputs) 40 1 (102, 2) lost).0 ≡ ok none
unfolding rewind lookup vote_bits_approves_parent iterate_block_ops tx_flags rollback_tip
    last_processed_block dcr_pk_script_to_account_addr roll_back_op del_utxo
rewind-lost = refl
