-- ===== src/Sync/Mem.antt =====
-- backend/internal/memdb/memdb.go: the in-memory database under backend/sync.go. It can roll its tip
-- back while it has the processed block of every height up to the tip.
pub mod Tip
pub mod Saves
pub mod Server
use dcrros.Prelude.{
  ℕ, ◌<◌, ◌≤◌, ◌≡◌, refl, sym, ap, ◌∙◌, String, Bool, false, Option, none, some, [], arith,
  if◌then◌else◌,
}
use mathlib.Core.Path.{subst}
use dcrros.Prelude.Maps.{Map, lookup, insert_all}
use dcrros.Prelude.Keys.{nat_comparable}
use dcrros.Prelude.Words.{IsWord}
use dcrros.BackendDb.{OutPoint}
use dcrros.Wire.{TxIn}
use dcrros.MemDb.State.{ProcessedBlock, MemDb, Conn}
use dcrros.MemDb.Balances.{tip_of}
use dcrros.MemDb.Utxos.{add_utxo, added_tx, del_utxo, deleted_tx}
use dcrros.MemDb.Index.{mem_index}
use dcrros.MemDb.Chain.{stored}
use dcrros.Types.Ops.{OpType, OpStatus}
use dcrros.Types.Block.{Op}
use dcrros.Sync.{connect_as, connect_op, roll_back_as, roll_back_op}
use dcrros.Sync.Links.{Keeps}

abbrev pub db_tip : MemDb → ℕ × ℕ
db_tip db = (db.last_block_hash, db.last_height)

-- There is a block at every height from 1 to the given one, which is a word.
abbrev pub IsFull : Map ℕ ProcessedBlock → ℕ → Type 0
IsFull m height =
    IsWord height × ((n : ℕ) → 0 < n → n ≤ height → (b : ProcessedBlock) × (lookup n m ≡ some b))

abbrev pub DbStored : MemDb → Type 0
DbStored db = IsFull db.processed_blocks db.last_height

-- In a transaction that has stored no block
pub record Stored (c : Conn) : Type 0 where
  pub fresh : c.tx.updated_block ≡ false → c.tx.block_height ≡ 0
  pub full : IsFull c.db.processed_blocks (tip_of c).1
  pub none_stored : c.tx.processed_blocks ≡ []

abbrev pub Saved : Conn → Type 0
Saved c = IsFull (insert_all c.db.processed_blocks c.tx.processed_blocks) (tip_of c).1

-- What the tip and its rollback stand in: everything but the utxos of the transaction
pub record ChainPart : Type 0 where
  pub db : MemDb
  pub updated_block : Bool
  pub block_hash : ℕ
  pub block_height : ℕ
  pub processed_blocks : Map ℕ ProcessedBlock

abbrev pub chain_part : Conn → ChainPart
chain_part c = record {
  db = c.db;
  updated_block = c.tx.updated_block;
  block_hash = c.tx.block_hash;
  block_height = c.tx.block_height;
  processed_blocks = c.tx.processed_blocks;
}

abbrev part_tip : ChainPart → ℕ × ℕ
part_tip p =
    if p.updated_block
    then (p.block_hash, p.block_height)
    else (p.db.last_block_hash, p.db.last_height)

pub tip_of-same : (c c' : Conn) → chain_part c' ≡ chain_part c → tip_of c' ≡ tip_of c
unfolding tip_of
tip_of-same c c' e = ap part_tip e

Keeps-same : (c c' : Conn) → chain_part c' ≡ chain_part c → Keeps tip_of Stored c c'
Keeps-same c c' e =
    let same = tip_of-same c c' e in
    (
      same,
      λ s. record {
        fresh = λ u.
            ap (λ (p : ChainPart). p.block_height) e
            ∙ s.fresh (sym (ap (λ (p : ChainPart). p.updated_block) e) ∙ u);
        full =
            subst (λ (t : ℕ × ℕ). IsFull c'.db.processed_blocks t.1) (sym same)
              (subst (λ (p : ChainPart). IsFull p.db.processed_blocks (tip_of c).1) (sym e) s.full);
        none_stored = ap (λ (p : ChainPart). p.processed_blocks) e ∙ s.none_stored;
      },
    )

add_utxo-same :
    (a : String) (o : OutPoint) (x : ℕ) (c : Conn) → chain_part (add_utxo a o x c).1 ≡ chain_part c
unfolding add_utxo added_tx
add_utxo-same a o x c = ground arith

del_utxo-same :
    (a : String) (o : OutPoint) (c : Conn) → chain_part (del_utxo a o c).1 ≡ chain_part c
unfolding del_utxo deleted_tx
del_utxo-same a o c = ground arith

roll_back_as-same :
    (ty : OpType) (st : OpStatus) (op : Op) (in_ : Option TxIn) (c : Conn)
    → chain_part (roll_back_as mem_index ty st op in_ c).1 ≡ chain_part c
roll_back_as-same OpType.debit OpStatus.success op none c = refl
roll_back_as-same OpType.debit OpStatus.success op (some i) c = add_utxo-same _ _ _ c
roll_back_as-same OpType.debit OpStatus.reversed op none c = refl
roll_back_as-same OpType.debit OpStatus.reversed op (some i) c = del_utxo-same _ _ c
roll_back_as-same OpType.credit OpStatus.success op in_ c = del_utxo-same _ _ c
roll_back_as-same OpType.credit OpStatus.reversed op in_ c = add_utxo-same _ _ _ c
roll_back_as-same _ _ op in_ c = refl

pub roll_back_op-same :
    (op : Op) (c : Conn) → chain_part (roll_back_op mem_index op c).1 ≡ chain_part c
unfolding roll_back_op
roll_back_op-same op c = roll_back_as-same op.type op.status op op.in_ c

pub roll_back_op-Keeps :
    (op : Op) (c : Conn) → Keeps tip_of Stored c (roll_back_op mem_index op c).1
roll_back_op-Keeps op c = Keeps-same c (roll_back_op mem_index op c).1 (roll_back_op-same op c)

connect_as-same :
    (ty : OpType) (st : OpStatus) (op : Op) (in_ : Option TxIn) (c : Conn)
    → chain_part (connect_as mem_index ty st op in_ c).1 ≡ chain_part c
connect_as-same OpType.debit OpStatus.success op none c = refl
connect_as-same OpType.debit OpStatus.success op (some i) c = del_utxo-same _ _ c
connect_as-same OpType.debit OpStatus.reversed op none c = refl
connect_as-same OpType.debit OpStatus.reversed op (some i) c = add_utxo-same _ _ _ c
connect_as-same OpType.credit OpStatus.success op in_ c = add_utxo-same _ _ _ c
connect_as-same OpType.credit OpStatus.reversed op in_ c = del_utxo-same _ _ c
connect_as-same _ _ op in_ c = refl

pub connect_op-Keeps : (op : Op) (c : Conn) → Keeps tip_of Stored c (connect_op mem_index op c).1
unfolding connect_op
connect_op-Keeps op c =
    Keeps-same c (connect_op mem_index op c).1 (connect_as-same op.type op.status op op.in_ c)
