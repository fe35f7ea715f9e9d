-- ===== src/Construction/Counts.antt =====
-- backend/svc_construction.go: how many inputs and previous outputs the operations of a request make.
use dcrros.Prelude.{
  ℕ, suc, ◌+◌, ◌≤◌, ◌≡◌, refl, sym, ap, ◌∙◌, String, Bool, true, false, not, Option, none, some,
  List, [], ◌∷◌, ◌++◌, if◌then◌else◌, arith,
}
use text.Mathlib.Text.{◌==◌ as str_eq}
use dcrros.Prelude.Lists.{length, length-append}
use dcrros.Prelude.Maps.{Map, insert}
use dcrros.Prelude.Results.{Result, ok, err, panic}
use dcrros.Prelude.Outcomes.{◌>>=◌, error_to, ok-bind, error_to-ok, ok-injective}
use dcrros.BackendDb.{OutPoint, outpoint_comparable}
use dcrros.Wire.{TxIn, TxOut, MsgTx}
use dcrros.Types.Ops.{OpType, r_type}
use dcrros.Types.Block.{PrevOutput}
use dcrros.Types.Errors.{GoError}
use dcrros.Types.Errors.Codes.{err_invalid_op, err_invalid_tx_metadata}
use dcrros.Types.Metadata.{metadata_uint16, metadata_uint32, or_default}
use dcrros.Types.Amount.{rosetta_to_dcr_amount}
use dcrros.Types.Rosetta.{Value, Operation}
use dcrros.Types.Transactions.{
  WireLib, coded, debit_in, credit_out, rosetta_op_to_tx, add_ops, rosetta_ops_to_tx,
  coin_change_to_out_point, is_spent,
}
use dcrros.Types.Transactions.Signing.{
  SignLib, prev_output_from_debit_op, output_from, outputs_from, PrevOut, output_entry,
}
use dcrros.Construction.RoundTrip.{passed}

abbrev pub is_debit : Operation → Bool
is_debit op = str_eq op.type (r_type OpType.debit)

abbrev pub one_if : Bool → ℕ
one_if b = if b then 1 else 0

-- The number of debits
abbrev pub debits : List Operation → ℕ
debits [] = 0
debits (op ∷ ops) = one_if (is_debit op) + debits ops

debits-append : (ops more : List Operation) → debits (ops ++ more) ≡ debits ops + debits more
debits-append [] more = omega arith
debits-append (op ∷ ops) more = omega (arith, debits-append ops more)

module _ (wire : WireLib) (sign : SignLib) where
  -- By what kind of operation it is
  length-added :
      (debit credit : Bool) (e : GoError) (tx tx' : MsgTx) (in_ : Result GoError TxIn)
      (out : Result GoError TxOut)
      → (if debit
          then (in_ >>= λ in_. ok (record tx { tx_in = tx.tx_in ++ in_ ∷ [] }))
          else if credit
          then (out >>= λ out. ok (record tx { tx_out = tx.tx_out ++ out ∷ [] }))
          else err e)
        ≡ ok tx'
      → length tx'.tx_in ≡ length tx.tx_in + one_if debit
  length-added true credit e tx tx' (ok in_) out h =
      let same = ok-injective _ (record tx { tx_in = tx.tx_in ++ in_ ∷ [] }) tx' refl h in
      ap (λ t. length t.tx_in) (sym same) ∙ length-append tx.tx_in (in_ ∷ [])
  length-added true credit e tx tx' (err x) out h = absurd cc
  length-added true credit e tx tx' panic out h = absurd cc
  length-added false true e tx tx' in_ (ok out) h =
      let same = ok-injective _ (record tx { tx_out = tx.tx_out ++ out ∷ [] }) tx' refl h in
      let kept : length tx.tx_in ≡ length tx'.tx_in = ap (λ t. length t.tx_in) same in
      omega (arith, kept)
  length-added false true e tx tx' in_ (err x) h = absurd cc
  length-added false true e tx tx' in_ panic h = absurd cc
  length-added false false e tx tx' in_ out h = absurd cc

  length-rosetta_op_to_tx :
      (op : Operation) (tx tx' : MsgTx)
      → rosetta_op_to_tx wire sign.addresses op tx ≡ ok tx'
      → length tx'.tx_in ≡ length tx.tx_in + one_if (is_debit op)
  unfolding rosetta_op_to_tx
  length-rosetta_op_to_tx op tx tx' h =
      let (amount, (read, rest)) = ok-bind (rosetta_to_dcr_amount op.amount) _ _ h in
      length-added (is_debit op) _ _ tx tx' (debit_in wire op amount)
        (credit_out wire sign.addresses op amount) rest

  length-add_ops :
      (ops : List Operation) (tx tx' : MsgTx)
      → add_ops wire sign.addresses ops tx ≡ ok tx'
      → length tx'.tx_in ≡ length tx.tx_in + debits ops
  unfolding add_ops
  length-add_ops [] tx tx' h =
      let same = ok-injective _ tx tx' refl h in
      let kept : length tx.tx_in ≡ length tx'.tx_in = ap (λ t. length t.tx_in) same in
      omega (arith, kept)
  length-add_ops (op ∷ ops) tx tx' h =
      let here =
        error_to (λ _. coded err_invalid_op "error converting op %d to tx: %v")
          (rosetta_op_to_tx wire sign.addresses op tx) in
      let (next, (made, rest)) = ok-bind here (add_ops wire sign.addresses ops) tx' h in
      omega (
        arith,
        length-rosetta_op_to_tx op tx next
            (error_to-ok _ (rosetta_op_to_tx wire sign.addresses op tx) next made),
        length-add_ops ops next tx' rest,
      )

  pub length-rosetta_ops_to_tx :
      (metadata : Map String Value) (ops : List Operation) (tx : MsgTx)
      → wire.new_msg_tx.tx_in ≡ []
      → rosetta_ops_to_tx wire sign.addresses metadata ops ≡ ok tx
      → length tx.tx_in ≡ debits ops
  unfolding rosetta_ops_to_tx
  length-rosetta_ops_to_tx metadata ops tx new h =
      let bad = λ (message : String). coded err_invalid_tx_metadata message in
      let (version, (_, h1)) =
        ok-bind
          (or_default "version" (bad "unable to decode tx version: %v") wire.new_msg_tx.version
            (metadata_uint16 metadata "version"))
          _ tx h in
      let (expiry, (_, h2)) =
        ok-bind
          (or_default "expiry" (bad "unable to decode expiry: %v") wire.new_msg_tx.expiry
            (metadata_uint32 metadata "expiry"))
          _ tx h1 in
      let (lock_time, (_, h3)) =
        ok-bind
          (or_default "locktime" (bad "unable to decode locktime: %v") wire.new_msg_tx.lock_time
            (metadata_uint32 metadata "locktime"))
          _ tx h2 in
      let start = record wire.new_msg_tx {
        version = version;
        expiry = expiry;
        lock_time = lock_time;
      } in
      let none_yet : length wire.new_msg_tx.tx_in ≡ 0 = rw new refl in
      omega (arith, length-add_ops ops start tx h3, none_yet)

  length-insert_le :
      (o : OutPoint) (p : PrevOutput) (m : Map OutPoint PrevOutput)
      → length (insert o p m) ≤ suc (length m)
  unfolding insert
  length-insert_le o p [] = omega arith
  length-insert_le o p ((k, q) ∷ m) = ground (arith, length-insert_le o p m)

  -- A debit adds at most one entry, and none where it is skipped.
  length-output_entry :
      (op : Operation) (prev : Option (PrevOut sign)) (res res' : Map OutPoint PrevOutput)
      → output_entry sign wire op res prev ≡ ok res'
      → length res' ≤ suc (length res)
  length-output_entry op none res res' h =
      let same = ok-injective _ res res' refl h in
      let kept = ap (λ m. length m) same in omega (arith, kept)
  length-output_entry op (some (p, a)) res res' h =
      let named =
        error_to (λ _. GoError.other "debit op %d has invalid coin_change: %v")
          (coin_change_to_out_point wire op.coin_change) in
      let (o, (_, rest)) = ok-bind named _ res' h in
      let same =
        passed (GoError.other "debit op %d needs a coin_spent coin_action")
          (is_spent op.coin_change) (ok (insert o p res)) res' rest in
      let kept = ap (λ m. length m) (ok-injective _ (insert o p res) res' refl same.1) in
      omega (arith, kept, length-insert_le o p res)

  -- By the output that a debit spends
  length-debit :
      (op : Operation) (prev : Result GoError (Option (PrevOut sign)))
      (res res' : Map OutPoint PrevOutput)
      → (prev >>= output_entry sign wire op res) ≡ ok res'
      → length res' ≤ suc (length res)
  length-debit op (ok prev) res res' h = length-output_entry op prev res res' h
  length-debit op (err e) res res' h = absurd cc
  length-debit op panic res res' h = absurd cc

  pub length-by_kind :
      (op : Operation) (debit : Bool) (prev : Result GoError (Option (PrevOut sign)))
      (res res' : Map OutPoint PrevOutput)
      → (if not debit then ok res else (prev >>= output_entry sign wire op res)) ≡ ok res'
      → length res' ≤ length res + one_if debit
  length-by_kind op true prev res res' h = omega (arith, length-debit op prev res res' h)
  length-by_kind op false prev res res' h =
      let kept = ap (λ m. length m) (ok-injective _ res res' refl h) in omega (arith, kept)

  pub length-outputs_from :
      (ops : List Operation) (res res' : Map OutPoint PrevOutput)
      → outputs_from sign wire ops res ≡ ok res'
      → length res' ≤ length res + debits ops
  unfolding outputs_from
  length-outputs_from [] res res' h =
      let kept = ap (λ m. length m) (ok-injective _ res res' refl h) in omega (arith, kept)
  length-outputs_from (op ∷ ops) res res' h =
      let (next, (made, rest)) =
        ok-bind (output_from sign wire op res) (outputs_from sign wire ops) res' h in
      omega (
        arith,
        length-by_kind op (is_debit op)
            (error_to (λ _. GoError.other "unable to extract prevOutput from debit %d: %v")
              (prev_output_from_debit_op sign op))
            res next made,
        length-outputs_from ops next res' rest,
      )
