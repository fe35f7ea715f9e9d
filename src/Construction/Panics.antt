-- ===== src/Construction/Panics.antt =====
-- backend/svc_construction.go: a text whose script length is too large for `make`.
use dcrros.Prelude.{ℕ, ◌^◌, ◌<◌, ◌≡◌, refl, List, [], ◌∷◌, ◌++◌, nat_eq_refl, lt→leb_false, arith}
use dcrros.Prelude.Lists.{length, All}
use dcrros.Prelude.Bytes.{IsByte, low_bytes, number_of-low_bytes, low_bytes-IsByte, append-All}
use dcrros.Prelude.Results.{ok, panic}
use dcrros.Wire.{TxIn, MsgTx}
use dcrros.Types.Address.{hex_encode}
use dcrros.Types.Account.RoundTrip.{hex_decode-hex_encode}
use dcrros.Construction.{
  CodecLib, read_script, read_prev_out, read_prev_outs, read_construction_tx, deserialize,
}
use dcrros.Construction.Written.{IsCodec, IsCoded, read_uint-low_bytes}

module _ (lib : CodecLib) (codec : IsCodec lib) where
  -- What stands after the transaction: the number of previous outputs, and the first of them up to the
  -- length of its script.
  abbrev pub claimed : ℕ → ℕ → ℕ → ℕ → List ℕ → List ℕ
  claimed nb amount version size rest =
      lib.write_var_int nb
      ++ (low_bytes 8 amount ++ (low_bytes 2 version ++ (lib.write_var_int size ++ rest)))

  claimed-IsByte :
      (nb amount version size : ℕ) (rest : List ℕ)
      → All IsByte rest
      → All IsByte (claimed nb amount version size rest)
  claimed-IsByte nb amount version size rest h =
      let sized = low_bytes 2 version ++ (lib.write_var_int size ++ rest) in
      append-All IsByte (lib.write_var_int nb) (low_bytes 8 amount ++ sized)
        (codec.var_int-IsByte nb)
        (append-All IsByte (low_bytes 8 amount) sized (low_bytes-IsByte 8 amount) (
          append-All IsByte (low_bytes 2 version) (lib.write_var_int size ++ rest)
            (low_bytes-IsByte 2 version)
            (append-All IsByte (lib.write_var_int size) rest (codec.var_int-IsByte size) h)))

  read_prev_out_panics :
      (amount version size : ℕ) (rest : List ℕ)
      → amount < 2 ^ 64
      → version < 2 ^ 16
      → size < 2 ^ 64
      → lib.max_len < size
      → read_prev_out lib
          (low_bytes 8 amount ++ (low_bytes 2 version ++ (lib.write_var_int size ++ rest)))
        ≡ panic
  unfolding read_prev_out read_script
  read_prev_out_panics amount version size rest h k l large =
      let sized = lib.write_var_int size ++ rest in
      rw
        (
          read_uint-low_bytes 8 amount (low_bytes 2 version ++ sized)
              (number_of-low_bytes 8 amount h),
          read_uint-low_bytes 2 version sized (number_of-low_bytes 2 version k),
          codec.read_var_int size rest l,
          lt→leb_false size lib.max_len large,
        )
        refl

  read_prev_outs_panics :
      (in_ : TxIn) (ins : List TxIn) (bs : List ℕ)
      → read_prev_out lib bs ≡ panic
      → read_prev_outs lib (in_ ∷ ins) bs [] ≡ panic
  unfolding read_prev_outs
  read_prev_outs_panics in_ ins bs h = rw h refl

  -- A text of version 1 whose transaction has an input, and whose first previous output is said to
  -- have a script longer than make can give, makes deserialize panic, whatever follows, where
  -- package wire reads back the transactions and varints that it encodes.
  pub deserialize_panics :
      (tx : MsgTx) (in_ : TxIn) (ins : List TxIn) (encoding : List ℕ) (amount version size : ℕ)
      (rest : List ℕ)
      → IsCoded lib tx
      → lib.btc_encode tx ≡ ok encoding
      → tx.tx_in ≡ in_ ∷ ins
      → length tx.tx_in < 2 ^ 64
      → amount < 2 ^ 64
      → version < 2 ^ 16
      → size < 2 ^ 64
      → lib.max_len < size
      → All IsByte rest
      → deserialize lib
          (hex_encode (1 ∷ (encoding ++ claimed (length tx.tx_in) amount version size rest)))
        ≡ panic
  unfolding deserialize read_construction_tx
  deserialize_panics tx in_ ins encoding amount version size rest coded e one few h k l large
        bytes =
      let body = claimed (length tx.tx_in) amount version size rest in
      let after = low_bytes 8 amount ++ (low_bytes 2 version ++ (lib.write_var_int size ++ rest)) in
      rw
        (
          hex_decode-hex_encode (1 ∷ (encoding ++ body)) (
            omega arith,
            append-All IsByte encoding body (coded.bytes encoding e)
                (claimed-IsByte (length tx.tx_in) amount version size rest bytes),
          ),
          coded.read encoding body e,
          codec.read_var_int (length tx.tx_in) after few,
          nat_eq_refl (length tx.tx_in),
          one,
          read_prev_outs_panics in_ ins after
              (read_prev_out_panics amount version size rest h k l large),
        )
        refl
