-- ===== src/Sync/Undo.antt =====
-- backend/sync.go: an operation that is connected and rolled back.
use dcrros.Prelude.{ℕ, ◌≡◌, refl, sym, ap, ◌∙◌, String, Option, none, some, arith, if◌then◌else◌}
use mathlib.Core.Path.{subst}
use mathlib.Core.Option.{none-ne-some}
use text.Mathlib.Text.{◌==◌ as str_eq}
use dcrros.Prelude.Keys.{string_comparable}
use dcrros.Prelude.Words.{neg64}
use dcrros.Prelude.Results.{Action, ok}
use dcrros.BackendDb.{Error, OutPoint, outpoint_eq, outpoint_eq_iff}
use dcrros.BackendDb.UtxoIndex.{UtxoIndex}
use dcrros.Wire.{TxIn}
use dcrros.Types.Ops.{OpType, OpStatus}
use dcrros.Types.Block.{Op}
use dcrros.Sync.{created, connect_as, connect_op, roll_back_as, roll_back_op}

-- The outpoint of an operation, where it has a kind, a status and, as a debit, an input.
abbrev pub touched_as : OpType → OpStatus → Op → Option TxIn → Option OutPoint
touched_as OpType.unset st op in_ = none
touched_as ty OpStatus.unset op in_ = none
touched_as OpType.debit st op none = none
touched_as OpType.debit st op (some in_) = some in_.previous_out_point
touched_as OpType.credit st op in_ = some (created op)

abbrev pub touched : Op → Option OutPoint
touched op = touched_as op.type op.status op op.in_

-- What is listed there after the operation is connected, and after it is rolled back.
abbrev pub connected_as : OpType → OpStatus → ℕ → Option ℕ
connected_as OpType.debit OpStatus.reversed amount = some amount
connected_as OpType.credit OpStatus.success amount = some amount
connected_as _ _ amount = none

abbrev pub rolled_back_as : OpType → OpStatus → ℕ → Option ℕ
rolled_back_as OpType.debit OpStatus.success amount = some (neg64 amount)
rolled_back_as OpType.credit OpStatus.reversed amount = some (neg64 amount)
rolled_back_as _ _ amount = none

-- What an operation at an outpoint does to the listing there: what it finds and what it leaves.
pub data Moves (op : Op) (o : OutPoint) : Option ℕ → Option ℕ → Type 0 where
  pays :
      op.type ≡ OpType.credit
      → op.status ≡ OpStatus.success
      → created op ≡ o
      → Moves op o none (some op.amount)
  spends :
      (in_ : TxIn) (x : ℕ)
      → op.type ≡ OpType.debit
      → op.status ≡ OpStatus.success
      → op.in_ ≡ some in_
      → in_.previous_out_point ≡ o
      → neg64 op.amount ≡ x
      → Moves op o (some x) none
  takes_back :
      (x : ℕ)
      → op.type ≡ OpType.credit
      → op.status ≡ OpStatus.reversed
      → created op ≡ o
      → neg64 op.amount ≡ x
      → Moves op o (some x) none
  gives_back :
      (in_ : TxIn)
      → op.type ≡ OpType.debit
      → op.status ≡ OpStatus.reversed
      → op.in_ ≡ some in_
      → in_.previous_out_point ≡ o
      → Moves op o none (some op.amount)

Moves-tables :
    (op : Op) (o : OutPoint) (before after : Option ℕ)
    → Moves op o before after
    → (touched op ≡ some o)
      × ((connected_as op.type op.status op.amount ≡ after)
          × (rolled_back_as op.type op.status op.amount ≡ before))
Moves-tables op o _ _ (pays t u e) = (rw (t, u) (ap some e), (rw (t, u) refl, rw (t, u) refl))
Moves-tables op o _ _ (spends in_ x t u i e n) =
    (rw (t, u, i) (ap some e), (rw (t, u) refl, rw (t, u) (ap some n)))
Moves-tables op o _ _ (takes_back x t u e n) =
    (rw (t, u) (ap some e), (rw (t, u) refl, rw (t, u) (ap some n)))
Moves-tables op o _ _ (gives_back in_ t u i e) =
    (rw (t, u, i) (ap some e), (rw (t, u) refl, rw (t, u) refl))

put_back :
    (f : String → OutPoint → Option ℕ) (a k : String) (o p : OutPoint) (v x mid : Option ℕ)
    → f a o ≡ v
    → mid ≡ (if str_eq a k then (if outpoint_eq o p then x else f k p) else f k p)
    → (if str_eq a k then (if outpoint_eq o p then v else mid) else mid) ≡ f k p
put_back f a k o p v x mid h m =
    ground (arith, string_comparable.equal_iff a k, outpoint_eq_iff o p)

module _ {S : Type 0} (db : UtxoIndex S) where
  -- The call succeeds, and changes the listing at one place.
  abbrev pub Puts : String → OutPoint → Option ℕ → Action Error S (Unit {0}) → S → Type 0
  Puts a o v call s =
      (s' : S) × ((call s ≡ (ok tt, s'))
        × (db.IsWritable s'
            × ((k : String) (p : OutPoint)
                → db.utxos s' k p ≡ (
                    if str_eq a k
                    then (if outpoint_eq o p then v else db.utxos s k p)
                    else db.utxos s k p))))

  Puts-add :
      (a : String) (o' o : OutPoint) (x : ℕ) (s : S)
      → some o' ≡ some o
      → db.IsWritable s
      → Puts a o (some x) (db.add_utxo a o' x) s
  Puts-add a o' o x s e w =
      let q : o' ≡ o = cc in
      subst (λ p. Puts a p (some x) (db.add_utxo a o' x) s) q (db.utxos-add_utxo a o' x s w)

  Puts-del :
      (a : String) (o' o : OutPoint) (s : S)
      → some o' ≡ some o
      → db.IsWritable s
      → Puts a o none (db.del_utxo a o') s
  Puts-del a o' o s e w =
      let q : o' ≡ o = cc in
      subst (λ p. Puts a p none (db.del_utxo a o') s) q (db.utxos-del_utxo a o' s w)

  connect_as-Puts :
      (ty : OpType) (st : OpStatus) (op : Op) (in_ : Option TxIn) (o : OutPoint) (s : S)
      → touched_as ty st op in_ ≡ some o
      → db.IsWritable s
      → Puts op.account o (connected_as ty st op.amount) (connect_as db ty st op in_) s
  connect_as-Puts OpType.unset st op in_ o s e w = absurd (none-ne-some o e)
  connect_as-Puts OpType.debit OpStatus.unset op in_ o s e w = absurd (none-ne-some o e)
  connect_as-Puts OpType.credit OpStatus.unset op in_ o s e w = absurd (none-ne-some o e)
  connect_as-Puts OpType.debit OpStatus.success op none o s e w = absurd (none-ne-some o e)
  connect_as-Puts OpType.debit OpStatus.reversed op none o s e w = absurd (none-ne-some o e)
  connect_as-Puts OpType.debit OpStatus.success op (some in_) o s e w =
      Puts-del op.account in_.previous_out_point o s e w
  connect_as-Puts OpType.debit OpStatus.reversed op (some in_) o s e w =
      Puts-add op.account in_.previous_out_point o op.amount s e w
  connect_as-Puts OpType.credit OpStatus.success op in_ o s e w =
      Puts-add op.account (created op) o op.amount s e w
  connect_as-Puts OpType.credit OpStatus.reversed op in_ o s e w =
      Puts-del op.account (created op) o s e w

  roll_back_as-Puts :
      (ty : OpType) (st : OpStatus) (op : Op) (in_ : Option TxIn) (o : OutPoint) (s : S)
      → touched_as ty st op in_ ≡ some o
      → db.IsWritable s
      → Puts op.account o (rolled_back_as ty st op.amount) (roll_back_as db ty st op in_) s
  roll_back_as-Puts OpType.unset st op in_ o s e w = absurd (none-ne-some o e)
  roll_back_as-Puts OpType.debit OpStatus.unset op in_ o s e w = absurd (none-ne-some o e)
  roll_back_as-Puts OpType.credit OpStatus.unset op in_ o s e w = absurd (none-ne-some o e)
  roll_back_as-Puts OpType.debit OpStatus.success op none o s e w = absurd (none-ne-some o e)
  roll_back_as-Puts OpType.debit OpStatus.reversed op none o s e w = absurd (none-ne-some o e)
  roll_back_as-Puts OpType.debit OpStatus.success op (some in_) o s e w =
      Puts-add op.account in_.previous_out_point o (neg64 op.amount) s e w
  roll_back_as-Puts OpType.debit OpStatus.reversed op (some in_) o s e w =
      Puts-del op.account in_.previous_out_point o s e w
  roll_back_as-Puts OpType.credit OpStatus.success op in_ o s e w =
      Puts-del op.account (created op) o s e w
  roll_back_as-Puts OpType.credit OpStatus.reversed op in_ o s e w =
      Puts-add op.account (created op) o (neg64 op.amount) s e w

  -- Connecting an operation changes the listing at its account and outpoint.
  connect_op-Puts :
      (op : Op) (o : OutPoint) (s : S)
      → touched op ≡ some o
      → db.IsWritable s
      → Puts op.account o (connected_as op.type op.status op.amount) (connect_op db op) s
  unfolding connect_op
  connect_op-Puts op o s = connect_as-Puts op.type op.status op op.in_ o s

  roll_back_op-Puts :
      (op : Op) (o : OutPoint) (s : S)
      → touched op ≡ some o
      → db.IsWritable s
      → Puts op.account o (rolled_back_as op.type op.status op.amount) (roll_back_op db op) s
  unfolding roll_back_op
  roll_back_op-Puts op o s = roll_back_as-Puts op.type op.status op op.in_ o s

  -- An operation, connected and then rolled back, in a writable transaction: both calls succeed. An
  -- output is listed with its amount once it is connected, a spent one no more, and likewise the
  -- reverse for reversed operations; nothing else is touched, and after the rollback every listing is
  -- what it was. Before, the output of a success was not listed, and a spent one was, with the amount
  -- that the operation negates; for reversed operations it is the other way round.
  pub roll_back_op-connect_op :
      (op : Op) (o : OutPoint) (before after : Option ℕ) (s : S)
      → Moves op o before after
      → db.IsWritable s
      → db.utxos s op.account o ≡ before
      → (s' : S) × ((connect_op db op s ≡ (ok tt, s'))
          × (((k : String) (p : OutPoint)
                → db.utxos s' k p ≡ (
                    if str_eq op.account k
                    then (if outpoint_eq o p then after else db.utxos s k p)
                    else db.utxos s k p))
              × ((s'' : S) × ((roll_back_op db op s' ≡ (ok tt, s''))
                    × ((k : String) (p : OutPoint) → db.utxos s'' k p ≡ db.utxos s k p)))))
  roll_back_op-connect_op op o before after s moves w held =
      let t = Moves-tables op o before after moves in
      let c = connect_op-Puts op o s t.0 w in
      let r = roll_back_op-Puts op o c.0 t.0 c.1.1.0 in
      let put : (k : String) (p : OutPoint)
          → db.utxos c.0 k p ≡ (
              if str_eq op.account k
              then (if outpoint_eq o p then after else db.utxos s k p)
              else db.utxos s k p) =
        subst
          (λ (x : Option ℕ).
            (k : String) (p : OutPoint)
            → db.utxos c.0 k p ≡ (
                if str_eq op.account k
                then (if outpoint_eq o p then x else db.utxos s k p)
                else db.utxos s k p))
          t.1.0 c.1.1.1 in
      (
        c.0,
        (
          c.1.0,
          (
            put,
            (
              r.0,
              (
                r.1.0,
                λ k p.
                    r.1.1.1 k p
                    ∙ put_back (db.utxos s) op.account k o p
                        (rolled_back_as op.type op.status op.amount) after (db.utxos c.0 k p)
                        (held ∙ sym t.1.1) (put k p),
              ),
            ),
          ),
        ),
      )
