-- ===== src/Construction.antt =====
-- backend/svc_construction.go: `constructionTx`, the transaction and previous outputs that pass between
-- the calls of the construction API, with its text.
pub mod Written
pub mod RoundTrip
pub mod Derive
pub mod Service
pub mod Combined
pub mod Counts
pub mod Skipped
pub mod Fees
pub mod Derived
pub mod Offline
pub mod Panics
pub mod Samples
mod Tests
use dcrros.Prelude.{
  ℕ, String, Bool, true, false, not, ◌&&◌, Option, none, some, List, [], ◌∷◌, ◌++◌, nat_eq, leb,
  if◌then◌else◌,
}
use dcrros.Prelude.Lists.{length}
use dcrros.Prelude.Bytes.{low_bytes, number_of, read_bytes}
use dcrros.Prelude.Maps.{Map, lookup, insert}
use dcrros.Prelude.Results.{Result, ok, err, panic}
use dcrros.Prelude.Outcomes.{◌>>=◌, error_to}
use dcrros.BackendDb.{OutPoint, outpoint_comparable}
use dcrros.Wire.{TxIn, MsgTx}
use dcrros.Types.Block.{PrevOutput}
use dcrros.Types.Errors.{GoError, RosettaError, r_error, error_text}
use dcrros.Types.Errors.Codes.{err_invalid_hex_string, err_invalid_transaction}
use dcrros.Types.Address.{hex_encode}
use dcrros.Types.Text.{hex_decode}
use dcrros.Types.Transactions.{coded}

-- What the format calls of dcrd's package wire: a transaction and a varint as bytes, and read from the
-- front of a buffer, with what they leave in it. `max_len` is the largest length that `make` gives
-- a slice of bytes.
pub record CodecLib : Type 0 where
  pub btc_encode : MsgTx → Result GoError (List ℕ)
  pub btc_decode : List ℕ → Result GoError (MsgTx × List ℕ)
  pub write_var_int : ℕ → List ℕ
  pub read_var_int : List ℕ → Result GoError (ℕ × List ℕ)
  pub max_len : ℕ

-- What a handler returns to the client: types.RError of the error.
abbrev pub to_response : {A : Type 0} → Result GoError A → Result (Option RosettaError) A
to_response r = error_to r_error r

-- `constructionTx`
pub record ConstructionTx : Type 0 where
  pub tx : MsgTx
  pub prev_out_points : Map OutPoint PrevOutput

abbrev pub err_wrong_nb_prev_outs : GoError
err_wrong_nb_prev_outs = GoError.other "wrong nb of tx inputs and prevouts"

abbrev pub err_in_prev_out_not_found : GoError
err_in_prev_out_not_found = GoError.other "could not find prevout for input"

abbrev pub err_invalid_version_read : GoError
err_invalid_version_read = GoError.other "invalidt read of ctrtx version"

abbrev pub err_invalid_ctrtx_version : GoError
err_invalid_ctrtx_version = GoError.other "unrecognized ctrtx version"

abbrev pub eof : GoError
eof = GoError.other "EOF"

abbrev pub is_some : {A : Type 0} → Option A → Bool
is_some none = false
is_some (some a) = true

-- The check that the previous output of every input is in the map.
unfoldable pub all_found : Map OutPoint PrevOutput → List TxIn → Bool
all_found prevs [] = true
all_found prevs (in_ ∷ ins) = is_some (lookup in_.previous_out_point prevs) && all_found prevs ins

-- readAmount and readUint16: a short read is an EOF.
abbrev pub numbered : Option (List ℕ × List ℕ) → Result GoError (ℕ × List ℕ)
numbered none = err eof
numbered (some (bs, rest)) = ok (number_of bs, rest)

unfoldable pub read_uint : ℕ → List ℕ → Result GoError (ℕ × List ℕ)
read_uint size bs = numbered (read_bytes size bs)

abbrev pub filled : Option (List ℕ × List ℕ) → Result GoError (List ℕ × List ℕ)
filled none = err eof
filled (some r) = ok r

abbrev pub from_hex : Option (List ℕ) → Result GoError (List ℕ)
from_hex none = err (GoError.code err_invalid_hex_string)
from_hex (some bs) = ok bs

-- The version byte
abbrev pub read_version : List ℕ → Result GoError (List ℕ)
read_version [] = err (GoError.wrapped "%w: %v" err_invalid_version_read)
read_version (b ∷ bs) =
    if not (nat_eq b 1) then err (GoError.wrapped "%w: %d" err_invalid_ctrtx_version) else ok bs

abbrev pub invalid_transaction : GoError → GoError
invalid_transaction e = coded err_invalid_transaction (error_text e)

module _ (lib : CodecLib) where
  -- One round of the last loop of `serialize`; a nil entry panics.
  unfoldable pub write_prev_out : Option PrevOutput → Result GoError (List ℕ)
  write_prev_out none = panic
  write_prev_out (some prev) = ok (
      low_bytes 8 prev.amount
      ++ (low_bytes 2 prev.version
          ++ (lib.write_var_int (length prev.pk_script) ++ prev.pk_script)))

  unfoldable pub write_prev_outs : Map OutPoint PrevOutput → List TxIn → Result GoError (List ℕ)
  write_prev_outs prevs [] = ok []
  write_prev_outs prevs (in_ ∷ ins) = do
    bs ← write_prev_out (lookup in_.previous_out_point prevs)
    rest ← write_prev_outs prevs ins
    ok (bs ++ rest)

  -- `serialize`. A write to the buffer does not fail; the size that it is made with is only its capacity.
  unfoldable pub serialize : ConstructionTx → Result GoError String
  serialize ctrtx =
      if not (nat_eq (length ctrtx.tx.tx_in) (length ctrtx.prev_out_points))
      then err (GoError.wrapped "%w: %d inputs, %d prevOuts" err_wrong_nb_prev_outs)
      else if not (all_found ctrtx.prev_out_points ctrtx.tx.tx_in)
      then err (GoError.wrapped "%w: input %d prevOut %s " err_in_prev_out_not_found)
      else (lib.btc_encode ctrtx.tx >>= λ encoded.
          write_prev_outs ctrtx.prev_out_points ctrtx.tx.tx_in >>= λ prevs. ok (
            hex_encode
              (1 ∷ (encoded ++ (lib.write_var_int (length ctrtx.prev_out_points) ++ prevs)))))

  -- make([]byte, lenPks), and a read that fills it
  unfoldable pub read_script : ℕ → List ℕ → Result GoError (List ℕ × List ℕ)
  read_script size bs = if leb size lib.max_len then filled (read_bytes size bs) else panic

  -- One round of the loop of `deserialize`
  unfoldable pub read_prev_out : List ℕ → Result GoError (PrevOutput × List ℕ)
  read_prev_out bs = do
    amount ← read_uint 8 bs
    version ← read_uint 2 amount.1
    size ← lib.read_var_int version.1
    script ← read_script size.0 size.1
    ok (record { pk_script = script.0; version = version.0; amount = amount.0 }, script.1)

  unfoldable pub read_prev_outs :
      List TxIn → List ℕ → Map OutPoint PrevOutput → Result GoError (Map OutPoint PrevOutput)
  read_prev_outs [] bs prevs = ok prevs
  read_prev_outs (in_ ∷ ins) bs prevs = do
    prev ← read_prev_out bs
    read_prev_outs ins prev.1 (insert in_.previous_out_point prev.0 prevs)

  abbrev pub read_prevs : MsgTx → ℕ × List ℕ → Result GoError ConstructionTx
  read_prevs tx (nb, bs) =
      if not (nat_eq nb (length tx.tx_in))
      then err (GoError.wrapped "%w: %d inputs, %d prevOuts" err_wrong_nb_prev_outs)
      else (read_prev_outs tx.tx_in bs [] >>= λ prevs.
          ok (record { tx = tx; prev_out_points = prevs }))

  -- The rest of `deserialize`, on the decoded bytes.
  unfoldable pub read_construction_tx : List ℕ → Result GoError ConstructionTx
  read_construction_tx bts = do
    bs ← read_version bts
    tx ← error_to invalid_transaction (lib.btc_decode bs)
    nb ← lib.read_var_int tx.1
    read_prevs tx.0 nb

  -- `deserialize`: the new value of its receiver, which the callers drop after an error.
  unfoldable pub deserialize : String → Result GoError ConstructionTx
  deserialize s = from_hex (hex_decode s) >>= read_construction_tx
