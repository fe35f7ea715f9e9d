-- ===== src/Outputs.antt =====
-- backend/svc_block.go: `prevOutsFetcher`, the outputs that inputs spend, from the utxo set or from the
-- transactions that dcrd gives.
pub mod Sound
mod Tests
use dcrros.Prelude.{ℕ, Option, none, some, List, [], ◌∷◌}
use dcrros.Prelude.Keys.{nat_comparable}
use dcrros.Prelude.Lists.{get_elem?}
use dcrros.Prelude.Maps.{Map, lookup, insert}
use dcrros.Prelude.Results.{Result, ok, err, panic}
use dcrros.Prelude.Outcomes.{◌>>=◌}
use dcrros.BackendDb.{OutPoint, outpoint_comparable}
use dcrros.Wire.{TxOut, MsgTx}
use dcrros.Types.Block.{PrevOutput}
use dcrros.Types.Errors.{GoError}
use dcrros.Types.Errors.Codes.{err_prev_out_index_not_found}
use dcrros.Types.Transactions.{coded}

-- The entries found so far, and the hashes of the transactions to ask for.
abbrev pub Found : Type 0
Found = Map OutPoint PrevOutput × Map ℕ (Unit {0})

abbrev pub found_with : OutPoint → Option PrevOutput → Found → Found
found_with o (some prev) (res, txs) = (insert o prev res, txs)
found_with o none (res, txs) = (res, insert o.hash tt txs)

-- The first loop over the targets.
unfoldable pub find_known : Map OutPoint PrevOutput → List OutPoint → Found → Found
find_known utxo_set [] found = found
find_known utxo_set (o ∷ os) found = find_known utxo_set os (found_with o (lookup o utxo_set) found)

abbrev pub output_of : TxOut → PrevOutput
output_of out = record { pk_script = out.pk_script; version = out.version; amount = out.value }

abbrev pub with_output :
    OutPoint → Option TxOut → Map OutPoint PrevOutput → Result GoError (Map OutPoint PrevOutput)
with_output o none res = err (coded err_prev_out_index_not_found "tx %s index %d")
with_output o (some out) res = ok (insert o (output_of out) res)

-- A hash that was not asked for has its output from the utxo set.
abbrev pub with_tx :
    OutPoint → Option MsgTx → Map OutPoint PrevOutput → Result GoError (Map OutPoint PrevOutput)
with_tx o none res = ok res
with_tx o (some tx) res = with_output o (get_elem? tx.tx_out o.index) res

-- The last loop over the targets.
unfoldable pub build_outputs :
    Map ℕ MsgTx → List OutPoint → Map OutPoint PrevOutput → Result GoError (Map OutPoint PrevOutput)
build_outputs txs [] res = ok res
build_outputs txs (o ∷ os) res = with_tx o (lookup o.hash txs) res >>= build_outputs txs os

-- What a hash gives: getRawTx, with ErrPrevOutTxNotFound for a transaction that dcrd does not have.
module _ (get_raw_tx : ℕ → Result GoError MsgTx) where
  -- The requests, which run at once in Go; here one error, of several, is the first of the list.
  unfoldable pub request_txs : Map ℕ (Unit {0}) → Result GoError (Map ℕ MsgTx)
  request_txs [] = ok []
  request_txs ((h, u) ∷ hs) = get_raw_tx h >>= λ tx. request_txs hs >>= λ txs. ok (insert h tx txs)

  abbrev pub fetch_rest : List OutPoint → Found → Result GoError (Map OutPoint PrevOutput)
  fetch_rest targets (res, []) = ok res
  fetch_rest targets (res, h ∷ hs) = request_txs (h ∷ hs) >>= λ txs. build_outputs txs targets res

  -- `prevOutsFetcher`
  unfoldable pub prev_outs_fetcher :
      Map OutPoint PrevOutput → List OutPoint → Result GoError (Map OutPoint PrevOutput)
  prev_outs_fetcher utxo_set targets = fetch_rest targets (find_known utxo_set targets ([], []))
