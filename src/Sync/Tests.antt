-- ===== src/Sync/Tests.antt =====
-- A block is connected to the in-memory database and rolled back.
use dcrros.Prelude.{◌≡◌, refl, String, true, none, some, [], if◌then◌else◌}
use text.Mathlib.Text.{◌==◌ as str_eq}
use dcrros.Prelude.Maps.{lookup, insert, erase, insert_all}
use dcrros.Prelude.Words.{neg64}
use dcrros.Prelude.Results.{ok, ◌>>◌}
use dcrros.BackendDb.{OutPoint, outpoint_eq}
use dcrros.MemDb.State.{Conn, new_mem_db, new_transaction}
use dcrros.MemDb.Utxos.{add_utxo, del_utxo, listing}
use dcrros.MemDb.Index.{mem_index, listed}
use dcrros.Types.Ops.{OpType, OpStatus}
use dcrros.Types.Block.{Op, new_op}
use dcrros.Sync.{connect_op, roll_back_op}
use dcrros.Sync.Undo.{Moves, roll_back_op-connect_op}

abbrev outpoint : OutPoint
outpoint = record { hash = 13; index = 0; tree = 0 }

abbrev conn : Conn
conn = record { db = new_mem_db; tx = new_transaction true }

-- Transaction 13 pays 20 to Dsa, and transaction 14 of the same block spends that.
abbrev pays : Op
pays = record (new_op 0 OpStatus.success) {
  tx_hash = 13;
  account = "Dsa";
  type = OpType.credit;
  amount = 20;
}

abbrev spends : Op
spends = record (new_op 0 OpStatus.success) {
  tx_hash = 14;
  account = "Dsa";
  type = OpType.debit;
  amount = neg64 20;
  in_ = some (record {
    previous_out_point = outpoint;
    sequence = 0;
    value_in = 0;
    block_height = 0;
    block_index = 0;
    signature_script = [];
  });
}

-- Connecting both and rolling both back leaves the output listed, which was not listed before.
listed-roll_back_op :
    listed
      ((connect_op mem_index pays
          >> connect_op mem_index spends
          >> roll_back_op mem_index pays
          >> roll_back_op mem_index spends)
        conn).1
      "Dsa"
      outpoint
    ≡ some 20
unfolding lookup listing connect_op add_utxo del_utxo roll_back_op insert erase insert_all
listed-roll_back_op = refl

roll_back_op-connect_op_example :
    (s' : Conn) × ((connect_op mem_index pays conn ≡ (ok tt, s'))
      × (((k : String) (p : OutPoint)
            → listed s' k p ≡ (
                if str_eq "Dsa" k
                then (if outpoint_eq outpoint p then some 20 else listed conn k p)
                else listed conn k p))
          × ((s'' : Conn) × ((roll_back_op mem_index pays s' ≡ (ok tt, s''))
                × ((k : String) (p : OutPoint) → listed s'' k p ≡ listed conn k p)))))
unfolding lookup listing insert_all
roll_back_op-connect_op_example =
    roll_back_op-connect_op mem_index pays outpoint none (some 20) conn (Moves.pays refl refl refl)
      refl refl
