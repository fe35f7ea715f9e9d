-- ===== src/Construction/Written.antt =====
-- backend/svc_construction.go: the previous outputs of a construction transaction as bytes.
use dcrros.Prelude.{
  ℕ, ◌^◌, ◌<◌, ◌≤◌, ◌≡◌, refl, ap, inl, inr, Bool, true, false, Option, none, some, List, [], ◌∷◌,
  ◌++◌, Option-cases, le→leb, if◌then◌else◌, arith,
}
use mathlib.Core.List.{append_assoc}
use dcrros.Prelude.Lists.{length, All}
use dcrros.Prelude.Bytes.{
  IsByte, low_bytes, number_of, number_of-low_bytes, low_bytes-IsByte, append-All,
  read_bytes-append, read_bytes-low_bytes,
}
use dcrros.Prelude.Maps.{Map, lookup, insert}
use dcrros.Prelude.Results.{ok}
use dcrros.BackendDb.{OutPoint, outpoint_comparable, outpoint_eq}
use dcrros.Wire.{TxIn, MsgTx}
use dcrros.Types.Block.{PrevOutput}
use dcrros.Construction.{
  CodecLib, all_found, read_uint, read_script, write_prev_out, write_prev_outs, read_prev_out,
  read_prev_outs,
}

-- What package wire does with a uint64 that it writes as a varint: it is bytes, and read back.
pub record IsCodec (lib : CodecLib) : Type 0 where
  pub var_int-IsByte : (n : ℕ) → All IsByte (lib.write_var_int n)
  pub read_var_int :
      (n : ℕ) (rest : List ℕ)
      → n < 2 ^ 64
      → lib.read_var_int (lib.write_var_int n ++ rest) ≡ ok (n, rest)

-- What it does with a transaction that it encodes: the encoding is bytes, and read back.
pub record IsCoded (lib : CodecLib) (tx : MsgTx) : Type 0 where
  pub bytes : (bs : List ℕ) → lib.btc_encode tx ≡ ok bs → All IsByte bs
  pub read :
      (bs rest : List ℕ) → lib.btc_encode tx ≡ ok bs → lib.btc_decode (bs ++ rest) ≡ ok (tx, rest)

-- A previous output with an int64 amount, a uint16 version and a script that can be made.
pub record IsOutput (lib : CodecLib) (p : PrevOutput) : Type 0 where
  pub amount : p.amount < 2 ^ 64
  pub version : p.version < 2 ^ 16
  pub script : All IsByte p.pk_script
  pub sized : length p.pk_script < 2 ^ 64
  pub made : length p.pk_script ≤ lib.max_len

-- Whether an input spends the outpoint.
abbrev pub is_spent_by : List TxIn → OutPoint → Bool
is_spent_by [] o = false
is_spent_by (in_ ∷ ins) o = if outpoint_eq in_.previous_out_point o then true else is_spent_by ins o

-- The entries of the inputs, put into a map one after another.
abbrev pub put_found :
    OutPoint → Option PrevOutput → Map OutPoint PrevOutput → Map OutPoint PrevOutput
put_found o none m = m
put_found o (some p) m = insert o p m

abbrev pub picked :
    Map OutPoint PrevOutput → List TxIn → Map OutPoint PrevOutput → Map OutPoint PrevOutput
picked prevs [] m = m
picked prevs (in_ ∷ ins) m =
    picked prevs ins (put_found in_.previous_out_point (lookup in_.previous_out_point prevs) m)

pub read_uint-low_bytes :
    (k n : ℕ) (rest : List ℕ)
    → number_of (low_bytes k n) ≡ n
    → read_uint k (low_bytes k n ++ rest) ≡ ok (n, rest)
unfolding read_uint
read_uint-low_bytes k n rest e = rw (read_bytes-low_bytes k n rest) (ap (λ m. ok (m, rest)) e)

module _ (lib : CodecLib) (codec : IsCodec lib) where
  read_script-append :
      (script rest : List ℕ)
      → length script ≤ lib.max_len
      → read_script lib (length script) (script ++ rest) ≡ ok (script, rest)
  unfolding read_script
  read_script-append script rest h =
      rw (le→leb (length script) lib.max_len h, read_bytes-append script rest) refl

  abbrev prev_out_bytes : PrevOutput → List ℕ
  prev_out_bytes p =
      low_bytes 8 p.amount
      ++ (low_bytes 2 p.version ++ (lib.write_var_int (length p.pk_script) ++ p.pk_script))

  prev_out_bytes-IsByte : (p : PrevOutput) → IsOutput lib p → All IsByte (prev_out_bytes p)
  prev_out_bytes-IsByte p h =
      let sized = lib.write_var_int (length p.pk_script) in
      append-All IsByte (low_bytes 8 p.amount) (low_bytes 2 p.version ++ (sized ++ p.pk_script))
        (low_bytes-IsByte 8 p.amount)
        (append-All IsByte (low_bytes 2 p.version) (sized ++ p.pk_script)
          (low_bytes-IsByte 2 p.version)
          (append-All IsByte sized p.pk_script (codec.var_int-IsByte (length p.pk_script))
            h.script))

  read_prev_out_lem :
      (p : PrevOutput) (rest : List ℕ)
      → IsOutput lib p
      → read_prev_out lib (prev_out_bytes p ++ rest) ≡ ok (p, rest)
  unfolding read_prev_out
  read_prev_out_lem p rest h =
      let script_rest = p.pk_script ++ rest in
      let sized = lib.write_var_int (length p.pk_script) ++ script_rest in
      rw
        (
          append_assoc (low_bytes 8 p.amount)
              (low_bytes 2 p.version ++ (lib.write_var_int (length p.pk_script) ++ p.pk_script))
              rest,
          append_assoc (low_bytes 2 p.version)
              (lib.write_var_int (length p.pk_script) ++ p.pk_script) rest,
          append_assoc (lib.write_var_int (length p.pk_script)) p.pk_script rest,
          read_uint-low_bytes 8 p.amount (low_bytes 2 p.version ++ sized)
              (number_of-low_bytes 8 p.amount h.amount),
          read_uint-low_bytes 2 p.version sized (number_of-low_bytes 2 p.version h.version),
          codec.read_var_int (length p.pk_script) script_rest h.sized,
          read_script-append p.pk_script rest h.made,
        )
        refl

  -- The entries of the inputs as bytes, and read back.
  pub record IsWritten (prevs : Map OutPoint PrevOutput) (ins : List TxIn) : Type 0 where
    pub written : List ℕ
    pub is_written : write_prev_outs lib prevs ins ≡ ok written
    pub bytes : All IsByte written
    pub read :
        (rest : List ℕ) (m : Map OutPoint PrevOutput)
        → read_prev_outs lib ins (written ++ rest) m ≡ ok (picked prevs ins m)

  IsWritten-cons :
      (prevs : Map OutPoint PrevOutput) (in_ : TxIn) (ins : List TxIn) (p : PrevOutput)
      → lookup in_.previous_out_point prevs ≡ some p
      → IsOutput lib p
      → IsWritten prevs ins
      → IsWritten prevs (in_ ∷ ins)
  unfolding write_prev_outs write_prev_out read_prev_outs
  IsWritten-cons prevs in_ ins p e h w = record {
    written = prev_out_bytes p ++ w.written;
    is_written = rw (e, w.is_written) refl;
    bytes = append-All IsByte (prev_out_bytes p) w.written (prev_out_bytes-IsByte p h) w.bytes;
    read = λ rest m.
        rw
          (
            append_assoc (prev_out_bytes p) w.written rest,
            read_prev_out_lem p (w.written ++ rest) h,
            e,
            w.read rest (insert in_.previous_out_point p m),
          )
          refl;
  }

  pub all_found-IsWritten :
      (prevs : Map OutPoint PrevOutput) (ins : List TxIn)
      → ((o : OutPoint) (p : PrevOutput) → lookup o prevs ≡ some p → IsOutput lib p)
      → all_found prevs ins ≡ true
      → IsWritten prevs ins
  unfolding all_found write_prev_outs read_prev_outs
  all_found-IsWritten prevs [] h e = record {
    written = [];
    is_written = refl;
    bytes = tt;
    read = λ rest m. refl;
  }
  all_found-IsWritten prevs (in_ ∷ ins) h e =
      elim (Option-cases (lookup in_.previous_out_point prevs)) [
        | inl missing ↦ absurd (ground (arith, missing))
        | inr (p, found) ↦
            IsWritten-cons prevs in_ ins p found (h in_.previous_out_point p found)
              (all_found-IsWritten prevs ins h (ground (arith, found, e)))
      ]
