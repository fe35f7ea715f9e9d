-- ===== src/Accounts/Mem.antt =====
-- backend/internal/memdb/memdb.go: the in-memory database in the place of `AccountDb`.
use dcrros.Prelude.{ℕ, ◌≡◌, refl, sym, ap, ◌∙◌, String, Option, none, some, inl, inr, Bool-cases}
use dcrros.Prelude.Results.{Result, ok}
use dcrros.BackendDb.{Error, OutPoint}
use dcrros.Wire.{TxIn}
use dcrros.MemDb.State.{Conn}
use dcrros.MemDb.Balances.{balance, last_processed_block, store_balances}
use dcrros.MemDb.Utxos.{added_tx, deleted_tx, add_utxo, del_utxo}
use dcrros.MemDb.Index.{mem_index}
use dcrros.Types.Ops.{OpType, OpStatus}
use dcrros.Types.Block.{Op}
use dcrros.Sync.{connect_as, connect_op}
use dcrros.Accounts.{AccountDb}

abbrev pub mem_accounts : AccountDb Conn
mem_accounts = record {
  index = mem_index;
  last_processed_block = last_processed_block;
  balance = balance;
  store_balances = store_balances;
}

abbrev value_of : Result Error ℕ → ℕ
value_of (ok v) = v
value_of _ = 0

-- What `Balance` gives; a panic counts as 0.
abbrev pub mem_balance : Conn → String → ℕ → ℕ
mem_balance c a h = value_of (balance a h c).0

pub balance-mem_balance :
    (a : String) (h : ℕ) (c c' : Conn) (v : ℕ)
    → balance a h c ≡ (ok v, c')
    → (c' ≡ c) × (v ≡ mem_balance c a h)
unfolding balance
balance-mem_balance a h c c' v e = (ap (λ r. r.1) (sym e), ap (λ r. value_of r.0) (sym e))

mem_balance-add_utxo :
    (a : String) (o : OutPoint) (x : ℕ) (c c' : Conn)
    → add_utxo a o x c ≡ (ok tt, c')
    → (k : String) (h : ℕ) → mem_balance c' k h ≡ mem_balance c k h
unfolding add_utxo added_tx balance
mem_balance-add_utxo a o x c c' e k h =
    ap (λ r. mem_balance r.1 k h) (sym e)
    ∙ elim (Bool-cases c.tx.writable) [ inl t ↦ rw t refl | inr t ↦ rw t refl ]

mem_balance-del_utxo :
    (a : String) (o : OutPoint) (c c' : Conn)
    → del_utxo a o c ≡ (ok tt, c')
    → (k : String) (h : ℕ) → mem_balance c' k h ≡ mem_balance c k h
unfolding del_utxo deleted_tx balance
mem_balance-del_utxo a o c c' e k h =
    ap (λ r. mem_balance r.1 k h) (sym e)
    ∙ elim (Bool-cases c.tx.writable) [ inl t ↦ rw t refl | inr t ↦ rw t refl ]

mem_balance-connect_as :
    (ty : OpType) (st : OpStatus) (op : Op) (in_ : Option TxIn) (c c' : Conn)
    → connect_as mem_index ty st op in_ c ≡ (ok tt, c')
    → (k : String) (h : ℕ) → mem_balance c' k h ≡ mem_balance c k h
mem_balance-connect_as OpType.unset st op in_ c c' e k h = cc
mem_balance-connect_as OpType.debit OpStatus.unset op in_ c c' e k h = cc
mem_balance-connect_as OpType.credit OpStatus.unset op in_ c c' e k h = cc
mem_balance-connect_as OpType.debit OpStatus.success op none c c' e k h = cc
mem_balance-connect_as OpType.debit OpStatus.reversed op none c c' e k h = cc
mem_balance-connect_as OpType.debit OpStatus.success op (some in_) c c' e k h =
    mem_balance-del_utxo op.account in_.previous_out_point c c' e k h
mem_balance-connect_as OpType.debit OpStatus.reversed op (some in_) c c' e k h =
    mem_balance-add_utxo op.account in_.previous_out_point op.amount c c' e k h
mem_balance-connect_as OpType.credit OpStatus.success op in_ c c' e k h =
    mem_balance-add_utxo op.account _ op.amount c c' e k h
mem_balance-connect_as OpType.credit OpStatus.reversed op in_ c c' e k h =
    mem_balance-del_utxo op.account _ c c' e k h

pub mem_balance-connect_op :
    (op : Op) (c c' : Conn)
    → connect_op mem_index op c ≡ (ok tt, c')
    → (k : String) (h : ℕ) → mem_balance c' k h ≡ mem_balance c k h
unfolding connect_op
mem_balance-connect_op op c c' e k h = mem_balance-connect_as op.type op.status op op.in_ c c' e k h
