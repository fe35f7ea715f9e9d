-- ===== src/Construction/Samples.antt =====
-- Small versions of what backend/svc_construction.go calls, around a payment with one input.
use dcrros.Prelude.{
  ℕ, ◌<◌, ◌^◌, ◌≡◌, refl, sym, ap, Bool, true, false, none, some, List, [], ◌∷◌, ◌++◌, nat_eq,
  if◌then◌else◌, arith,
}
use mathlib.Core.Path.{subst}
use dcrros.Prelude.Outcomes.{ok-injective}
use dcrros.Prelude.Lists.{length, All}
use dcrros.Prelude.Bytes.{IsByte, low_bytes, number_of-low_bytes, low_bytes-IsByte}
use dcrros.Prelude.Maps.{lookup}
use dcrros.Prelude.Results.{Result, ok, err}
use dcrros.BackendDb.{OutPoint, outpoint_comparable, outpoint_eq}
use dcrros.Wire.{TxIn, MsgTx}
use dcrros.Types.Block.{PrevOutput}
use dcrros.Types.Errors.{GoError}
use dcrros.Types.Samples.{outpoint, input, output, tx}
use dcrros.Construction.{CodecLib, ConstructionTx, eof, read_uint}
use dcrros.Construction.Written.{IsCodec, IsCoded, IsOutput, read_uint-low_bytes}
use dcrros.Construction.RoundTrip.{IsSound}

-- A payment from Dsb to Dsa, and its input with a script
abbrev pub payment : MsgTx
payment = tx 13 (input 2 ∷ []) (output 7 20 ∷ [])

abbrev pub signed_input : TxIn
signed_input = record (input 2) { signature_script = 4 ∷ 1 ∷ 4 ∷ [] }

abbrev pub signed_payment : MsgTx
signed_payment = tx 13 (signed_input ∷ []) (output 7 20 ∷ [])

-- One byte says which of the two it is; a varint has eight bytes.
abbrev scripts_of : List TxIn → ℕ
scripts_of [] = 0
scripts_of (in_ ∷ ins) = length in_.signature_script

abbrev payment_of : List ℕ → Result GoError (MsgTx × List ℕ)
payment_of [] = err eof
payment_of (b ∷ bs) = ok (if nat_eq b 0 then payment else signed_payment, bs)

abbrev pub codec_lib : CodecLib
codec_lib = record {
  btc_encode = λ tx. ok (scripts_of tx.tx_in ∷ []);
  btc_decode = λ bs. payment_of bs;
  write_var_int = λ n. low_bytes 8 n;
  read_var_int = λ bs. read_uint 8 bs;
  max_len = 2 ^ 48;
}

pub codec_lib-IsCodec : IsCodec codec_lib
codec_lib-IsCodec = record {
  var_int-IsByte = λ n. low_bytes-IsByte 8 n;
  read_var_int = λ n rest h. read_uint-low_bytes 8 n rest (number_of-low_bytes 8 n h);
}

single-All : (b : ℕ) (bs : List ℕ) → b < 2 ^ 8 → b ∷ [] ≡ bs → All IsByte bs
single-All b bs h e = subst (λ bs. All IsByte bs) e (h, tt)

payment_of_lem :
    (b : ℕ) (bs rest : List ℕ)
    → b ∷ [] ≡ bs
    → payment_of (bs ++ rest) ≡ ok (if nat_eq b 0 then payment else signed_payment, rest)
payment_of_lem b bs rest e = ap (λ bs. payment_of (bs ++ rest)) (sym e)

pub payment-IsCoded : IsCoded codec_lib payment
payment-IsCoded = record {
  bytes = λ bs e. single-All 0 bs (omega arith) (ok-injective _ (0 ∷ []) bs refl e);
  read = λ bs rest e. payment_of_lem 0 bs rest (ok-injective _ (0 ∷ []) bs refl e);
}

pub signed_payment-IsCoded : IsCoded codec_lib signed_payment
signed_payment-IsCoded = record {
  bytes = λ bs e. single-All 3 bs (omega arith) (ok-injective _ (3 ∷ []) bs refl e);
  read = λ bs rest e. payment_of_lem 3 bs rest (ok-injective _ (3 ∷ []) bs refl e);
}

abbrev pub prev : PrevOutput
prev = record { pk_script = 8 ∷ []; version = 0; amount = 30 }

abbrev pub unsigned : ConstructionTx
unsigned = record { tx = payment; prev_out_points = (outpoint 2, prev) ∷ [] }

prev-IsOutput : IsOutput codec_lib prev
prev-IsOutput = record {
  amount = omega arith;
  version = omega arith;
  script = (omega arith, tt);
  sized = omega arith;
  made = omega arith;
}

sole : (b : Bool) (p : PrevOutput) → (if b then some prev else none) ≡ some p → prev ≡ p
sole true p e = cc
sole false p e = absurd cc

unsigned_prev :
    (o : OutPoint) (p : PrevOutput) → lookup o unsigned.prev_out_points ≡ some p → prev ≡ p
unfolding lookup
unsigned_prev o p e = sole (outpoint_eq (outpoint 2) o) p e

pub unsigned-IsSound : IsSound codec_lib unsigned
unsigned-IsSound = record {
  coded = payment-IsCoded;
  few = omega arith;
  outputs = λ o p e. subst (λ p. IsOutput codec_lib p) (unsigned_prev o p e) prev-IsOutput;
}
