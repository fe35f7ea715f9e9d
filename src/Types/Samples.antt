-- ===== src/Types/Samples.antt =====
-- A block that disapproves its parent, and what dcrd is taken to do with its scripts and transactions.
use dcrros.Prelude.{
  ℕ, ◌≡◌, sym, ap, String, Bool, true, false, some, List, [], ◌∷◌, nat_eq, if◌then◌else◌,
}
use mathlib.Core.Path.{subst}
use dcrros.Prelude.Maps.{Map, lookup}
use dcrros.Prelude.Results.{Action, ok}
use dcrros.BackendDb.{Error, OutPoint, outpoint_comparable}
use dcrros.Wire.{TxIn, TxOut, MsgTx, MsgBlock, TxType, Dcrd}
use dcrros.Types.Block.{PrevOutput}

-- Scripts 7 and 8 have an address.
abbrev pub addresses : List ℕ → Bool × List String
addresses (n ∷ []) =
    if nat_eq n 7
    then (true, "Dsa" ∷ [])
    else if nat_eq n 8
    then (true, "Dsb" ∷ [])
    else (false, [])
addresses _ = (false, [])

abbrev pub dcrd : Dcrd
dcrd = record {
  tx_hash = λ tx. tx.lock_time;
  determine_tx_type = λ tx. TxType.regular;
  extract_addrs = λ version script. addresses script;
}

abbrev pub outpoint : ℕ → OutPoint
outpoint n = record { hash = n; index = 0; tree = 0 }

abbrev pub table : Map OutPoint PrevOutput
table =
    (outpoint 1, record { pk_script = 7 ∷ []; version = 0; amount = 9 })
    ∷ (outpoint 2, record { pk_script = 8 ∷ []; version = 0; amount = 30 })
    ∷ []

abbrev pub input : ℕ → TxIn
input n = record {
  previous_out_point = outpoint n;
  sequence = 0;
  value_in = 0;
  block_height = 0;
  block_index = 0;
  signature_script = [];
}

abbrev pub output : ℕ → ℕ → TxOut
output script value = record { value = value; version = 0; pk_script = script ∷ [] }

abbrev pub tx : ℕ → List TxIn → List TxOut → MsgTx
tx n ins outs = record { version = 1; tx_in = ins; tx_out = outs; lock_time = n; expiry = 0 }

abbrev pub block : ℕ → List MsgTx → MsgBlock
block height txs = record {
  header = record { version = 1; prev_block = 0; vote_bits = 0; height = height };
  transactions = txs;
  stransactions = [];
}

-- A coinbase, and a payment from Dsa to Dsb.
abbrev pub parent : MsgBlock
parent =
    block 4 (tx 10 (input 0 ∷ []) (output 7 50 ∷ []) ∷ tx 11 (input 1 ∷ []) (output 8 8 ∷ []) ∷ [])

-- A coinbase, and a payment from Dsb to Dsa.
abbrev pub child : MsgBlock
child =
    block 5 (tx 12 (input 0 ∷ []) (output 7 60 ∷ []) ∷ tx 13 (input 2 ∷ []) (output 7 20 ∷ []) ∷ [])

abbrev pub fetch : {S : Type 0} → List OutPoint → Action Error S (Map OutPoint PrevOutput)
fetch os s = (ok table, s)

pub fetch-table :
    {S : Type 0} (os : List OutPoint) (s s' : S) (m : Map OutPoint PrevOutput)
    → fetch os s ≡ (ok m, s')
    → (s' ≡ s) × ((o : OutPoint) (p : PrevOutput) → lookup o m ≡ some p → lookup o table ≡ some p)
fetch-table os s s' m e =
    let table_same : table ≡ m = cc in
    (ap (λ r. r.1) (sym e), λ o p h. subst (λ t. lookup o t ≡ some p) (sym table_same) h)
