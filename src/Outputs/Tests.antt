-- ===== src/Outputs/Tests.antt =====
-- One output from the utxo set, and one from a transaction of dcrd.
use dcrros.Prelude.{ℕ, ◌≡◌, refl, [], ◌∷◌}
use dcrros.Prelude.Maps.{Map, lookup, insert}
use dcrros.Prelude.Results.{Result, ok}
use dcrros.BackendDb.{OutPoint, outpoint_comparable}
use dcrros.Wire.{MsgTx}
use dcrros.Types.Block.{PrevOutput}
use dcrros.Types.Samples.{outpoint, output, table, tx}
use dcrros.Types.Errors.{GoError}
use dcrros.Outputs.{prev_outs_fetcher, find_known, request_txs, build_outputs}
use dcrros.Outputs.Sound.{IsOutput, prev_outs_fetcher-IsOutput}

-- dcrd has transaction 5 for every hash.
abbrev raw_tx : ℕ → Result GoError MsgTx
raw_tx h = ok (tx 5 [] (output 7 70 ∷ []))

abbrev fetched : PrevOutput
fetched = record { pk_script = 7 ∷ []; version = 0; amount = 70 }

abbrev fetched_outputs : Map OutPoint PrevOutput
fetched_outputs =
    (outpoint 1, record { pk_script = 7 ∷ []; version = 0; amount = 9 })
    ∷ (outpoint 5, fetched)
    ∷ []

fetched_both : prev_outs_fetcher raw_tx table (outpoint 1 ∷ outpoint 5 ∷ []) ≡ ok fetched_outputs
unfolding prev_outs_fetcher find_known request_txs build_outputs lookup insert
fetched_both = refl

prev_outs_fetcher-IsOutput_example : IsOutput raw_tx table (outpoint 5) fetched
unfolding lookup
prev_outs_fetcher-IsOutput_example =
    prev_outs_fetcher-IsOutput raw_tx table (outpoint 1 ∷ outpoint 5 ∷ []) fetched_outputs
      (outpoint 5) fetched fetched_both refl
