-- ===== src/Sync/Reorg.antt =====
-- backend/sync.go: reorganisations, outside the transactions of the database, and the handlers of
-- block notifications. `none` is a loop of `rollbackDbChain` out of fuel.
use dcrros.Prelude.{
  ℕ, ◌+◌, ◌-◌, ◌%◌, ◌^◌, String, ◌&&◌, Option, none, some, List, [], ◌∷◌, nat_eq, if◌then◌else◌,
}
use dcrros.Prelude.Words.{slt}
use dcrros.Prelude.Results.{Action, Result, ok, err, panic, pure, ◌>>=◌, ◌>>◌}
use dcrros.BackendDb.{Error, plain}
use dcrros.Wire.{MsgBlock, BlockHeader, Dcrd}
use dcrros.Accounts.{pre_process_account_block}
use dcrros.Sync.RollBack.{ChainDb, roll_back_block, roll_back_db_chain}

-- The server: transactions of its database (`Update` and `View`), and blocks outside of them.
pub record ChainServer (S D : Type 0) : Type 1 where
  pub inside : ChainDb S
  pub update : {A : Type 0} → Action Error S A → Action Error D A
  pub view : {A : Type 0} → Action Error S A → Action Error D A
  pub get_block : ℕ → Action Error D MsgBlock

-- An error is replaced by one with a text of its own.
abbrev pub error_as : {A D : Type 0} → String → Result Error A × D → Result Error A × D
error_as text (ok a, d) = (ok a, d)
error_as text (err e, d) = (err (plain text), d)
error_as text (panic, d) = (panic, d)

abbrev pub then_found :
    {A B D : Type 0} → Option A → (A → Action Error D (Option B)) → Action Error D (Option B)
then_found none f = pure none
then_found (some a) f = f a

-- The hash of the parent, and its height: uint32(Height - 1) as an int64.
abbrev pub parent_of : MsgBlock → ℕ × ℕ
parent_of b = (b.header.prev_block, (b.header.height + (2 ^ 32 - 1)) % 2 ^ 32)

module _ {S D : Type 0} (dcrd : Dcrd) (genesis : ℕ) (server : ChainServer S D) where
  abbrev pub process : ℕ → MsgBlock → Option MsgBlock → Action Error D (Unit {0})
  process bh b prev = server.update (
      pre_process_account_block server.inside.accounts dcrd genesis server.inside.fetch_prev_outs bh
        b prev)

  abbrev pub tip_block : ℕ × ℕ → Action Error D (Option MsgBlock)
  tip_block tip =
      if slt 0 tip.1
      then ((λ d. error_as "unable to fetch tip block %s at height %d" (server.get_block tip.0 d))
          >>= λ b. pure (some b))
      else pure none

  -- One round over the missing blocks: the block, which is the next one's parent.
  abbrev pub connect : ℕ → Option MsgBlock → Action Error D (Option MsgBlock)
  connect hash prev = do
    b ← λ d. error_as "unable to fetch missing block %s: %v" (server.get_block hash d)
    λ d. error_as "unable to process accounts of connected block %s: %v" (process hash b prev d)
    pure (some b)

  -- Newer blocks come first, so the loop goes from the end of the list.
  unfoldable pub connect_missing : List ℕ → Option MsgBlock → Action Error D (Option MsgBlock)
  connect_missing [] prev = pure prev
  connect_missing (hash ∷ hashes) prev = connect_missing hashes prev >>= connect hash

  -- `reorgToParentOf`
  unfoldable pub reorg_to_parent_of : MsgBlock → Action Error D (Option (Option MsgBlock))
  unfolding connect_missing
  reorg_to_parent_of block = do
    found ← server.update (roll_back_db_chain dcrd server.inside (parent_of block))
    then_found found (λ fork. tip_block fork.tip >>= λ prev.
        connect_missing fork.missing prev >>= λ prev'. pure (some prev'))

  abbrev pub connect_block : ℕ → MsgBlock → Option MsgBlock → Action Error D (Option (Unit {0}))
  connect_block bh b prev =
      (λ d.
        error_as "unable to process accounts of connected block %s (height %d): %v"
          (process bh b prev d))
      >> pure (some tt)

  -- `switchChainTo` with a nil utxo set
  unfoldable pub switch_chain_to : ℕ → MsgBlock → Action Error D (Option (Unit {0}))
  unfolding reorg_to_parent_of
  switch_chain_to bh b = do
    found ← λ d. error_as "unable to reorg to parent of %s (height %d): %v" (reorg_to_parent_of b d)
    then_found found (connect_block bh b)

  -- `lastProcessedBlock`
  abbrev pub read_last_processed : Action Error D (ℕ × ℕ)
  read_last_processed = server.view server.inside.accounts.last_processed_block

  module _ (block_hash : BlockHeader → ℕ) where
    -- `handleBlockConnected`
    unfoldable pub handle_block_connected : BlockHeader → Action Error D (Option (Unit {0}))
    unfolding switch_chain_to
    handle_block_connected header = do
      tip ← read_last_processed
      if slt header.height tip.1
          then pure (some tt)
          else ((λ d.
                error_as "unable to fetch dcrd connected block %s: %v"
                  (server.get_block (block_hash header) d))
              >>= λ b. switch_chain_to (block_hash header) b)

    -- The transaction of `handleBlockDisconnected`: a block that is not the tip is passed over.
    abbrev pub disconnect : BlockHeader → Action Error S (Unit {0})
    disconnect header = do
      tip ← server.inside.accounts.last_processed_block
      if nat_eq tip.0 (block_hash header) && nat_eq tip.1 header.height
          then roll_back_block dcrd server.inside (tip.0, header.height)
          else pure tt

    unfoldable pub handle_block_disconnected : BlockHeader → Action Error D (Unit {0})
    handle_block_disconnected header = server.update (disconnect header)
