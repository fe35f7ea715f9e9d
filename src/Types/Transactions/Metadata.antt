-- ===== src/Types/Transactions/Metadata.antt =====
-- types/block.go and types/transactions.go: the metadata of a reported transaction, read back.
use dcrros.Prelude.{◌≡◌, refl, String, Option, none, some, []}
use dcrros.Prelude.Maps.{lookup}
use dcrros.Prelude.Results.{ok}
use dcrros.Wire.{MsgTx}
use dcrros.Types.Block.Mempool.{tx_meta_to_rosetta}
use dcrros.Types.Metadata.{metadata_uint16, metadata_uint32}
use dcrros.Types.Account.{AddressLib}
use dcrros.Types.Transactions.{WireLib, add_ops, rosetta_ops_to_tx}

-- RosettaOpsToTx reads the version, the expiry and the lock time of a transaction back from the
-- metadata that txMetaToRosetta makes, with a block's hash or without.
pub rosetta_ops_to_tx-tx_meta_to_rosetta :
    (lib : WireLib) (addresses : AddressLib) (tx : MsgTx) (tx_hash : String)
    (block_hash : Option String)
    → rosetta_ops_to_tx lib addresses (tx_meta_to_rosetta tx tx_hash block_hash).metadata []
      ≡ ok (record lib.new_msg_tx {
        version = tx.version;
        expiry = tx.expiry;
        lock_time = tx.lock_time;
      })
unfolding tx_meta_to_rosetta rosetta_ops_to_tx add_ops metadata_uint16 metadata_uint32 lookup
rosetta_ops_to_tx-tx_meta_to_rosetta lib addresses tx tx_hash none = refl
rosetta_ops_to_tx-tx_meta_to_rosetta lib addresses tx tx_hash (some block_hash) = refl
