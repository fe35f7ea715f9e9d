-- ===== src/Construction/Skipped.antt =====
-- backend/svc_construction.go: `ConstructionPayloads` with an input that it does not understand.
use dcrros.Prelude.{◌+◌, ◌<◌, ◌≡◌, ◌≢◌, refl, String, true, none, List, [], ◌∷◌, ◌++◌, arith}
use dcrros.Prelude.Lists.{length}
use dcrros.Prelude.Maps.{Map}
use dcrros.Prelude.Results.{ok}
use dcrros.Prelude.Outcomes.{error_to, ok-bind, error_to-ok}
use dcrros.BackendDb.{OutPoint, outpoint_comparable}
use dcrros.Types.Block.{PrevOutput}
use dcrros.Types.Errors.{GoError, r_error}
use dcrros.Types.Rosetta.{Value, Operation}
use dcrros.Types.Transactions.{WireLib, rosetta_ops_to_tx}
use dcrros.Types.Transactions.Signing.{
  SignLib, extract_sign_payloads, prev_output_from_debit_op, output_of, output_from, outputs_from,
  extract_prev_outputs_from_ops,
}
use dcrros.Construction.{CodecLib, ConstructionTx, serialize}
use dcrros.Construction.RoundTrip.{serialize-ok, passed}
use dcrros.Construction.Service.{Payloads, payloads_for, construction_payloads}
use dcrros.Construction.Counts.{
  is_debit, debits, length-rosetta_ops_to_tx, length-by_kind, length-outputs_from,
}

module _ (wire : WireLib) (sign : SignLib) where
  skipped_debit :
      (op : Operation) → prev_output_from_debit_op sign op ≡ ok none → is_debit op ≡ true
  unfolding prev_output_from_debit_op
  skipped_debit op h =
      (passed (GoError.other "op must be a debit to extract prevOutput") (is_debit op)
        (output_of sign op op.account) none h).0

  output_from_skipped :
      (op : Operation) (res : Map OutPoint PrevOutput)
      → prev_output_from_debit_op sign op ≡ ok none
      → output_from sign wire op res ≡ ok res
  output_from_skipped op res h = rw (skipped_debit op h, h) refl

  -- A debit that is skipped adds nothing.
  length-outputs_from_skipped :
      (ops more : List Operation) (op : Operation) (res res' : Map OutPoint PrevOutput)
      → prev_output_from_debit_op sign op ≡ ok none
      → outputs_from sign wire (ops ++ op ∷ more) res ≡ ok res'
      → length res' < length res + debits (ops ++ op ∷ more)
  unfolding outputs_from
  length-outputs_from_skipped [] more op res res' skipped h =
      let rest : outputs_from sign wire more res ≡ ok res' =
        rw (output_from_skipped op res skipped) at h in
      rw (skipped_debit op skipped)
        (omega (arith, length-outputs_from wire sign more res res' rest))
  length-outputs_from_skipped (first ∷ ops) more op res res' skipped h =
      let (next, (made, rest)) =
        ok-bind (output_from sign wire first res) (outputs_from sign wire (ops ++ op ∷ more)) res'
          h in
      omega (
        arith,
        length-by_kind wire sign first (is_debit first)
            (error_to (λ _. GoError.other "unable to extract prevOutput from debit %d: %v")
              (prev_output_from_debit_op sign first))
            res next made,
        length-outputs_from_skipped ops more op next res' skipped rest,
      )

  -- ConstructionPayloads returns nothing where some operation is a debit from an account that
  -- prevOutputFromDebitOp skips. A new transaction of dcrd has no inputs.
  pub construction_payloads_skipped :
      (codec : CodecLib) (metadata : Map String Value) (ops more : List Operation) (op : Operation)
      (r : Payloads)
      → wire.new_msg_tx.tx_in ≡ []
      → prev_output_from_debit_op sign op ≡ ok none
      → construction_payloads wire sign codec metadata (ops ++ op ∷ more) ≢ ok r
  unfolding construction_payloads payloads_for extract_prev_outputs_from_ops
  construction_payloads_skipped codec metadata ops more op r new skipped failed =
      let all = ops ++ op ∷ more in
      let h = error_to-ok r_error (payloads_for wire sign codec metadata all) r failed in
      let (tx, (made, h1)) = ok-bind (rosetta_ops_to_tx wire sign.addresses metadata all) _ r h in
      let (payloads, (_, h2)) = ok-bind (extract_sign_payloads sign all tx) _ r h1 in
      let (prevs, (found, h3)) = ok-bind (extract_prev_outputs_from_ops sign wire all) _ r h2 in
      let ctrtx : ConstructionTx = record { tx = tx; prev_out_points = prevs } in
      let (text, (written, _)) = ok-bind (serialize codec ctrtx) _ r h3 in
      let ready = serialize-ok codec ctrtx text written in
      omega (
        arith,
        ready.counted,
        length-rosetta_ops_to_tx wire sign metadata all tx new made,
        length-outputs_from_skipped ops more op [] prevs skipped found,
      )
