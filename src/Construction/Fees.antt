-- ===== src/Construction/Fees.antt =====
-- backend/svc_construction.go: the fee that ConstructionMetadata suggests for what
-- ConstructionPreprocess has counted.
use dcrros.Prelude.{
  ℕ, ◌+◌, ◌*◌, ◌^◌, ◌<◌, ◌≡◌, refl, ap, ◌∙◌, String, false, List, [], ◌∷◌, arith, nat_eq,
  if◌then◌else◌,
}
use dcrros.Prelude.Lists.{length}
use dcrros.Prelude.Results.{ok}
use dcrros.Prelude.Maps.{Map, lookup}
use dcrros.Wire.{TxIn, MsgTx}
use dcrros.Types.Rosetta.{Value, Operation}
use dcrros.Types.Amount.{dcr_amount_to_rosetta}
use dcrros.Types.Transactions.{WireLib, rosetta_ops_to_tx}
use dcrros.Types.Transactions.Signing.{SignLib}
use dcrros.Construction.{CodecLib}
use dcrros.Construction.Service.{
  count_unsigned, thousandth, fee_for, Suggestion, construction_preprocess, construction_metadata,
}

-- The space for the signature script of an input: 108 bytes if it has none yet.
abbrev script_space : List ℕ → ℕ
script_space [] = 108
script_space (_ ∷ _) = 0

abbrev pub script_spaces : List TxIn → ℕ
script_spaces [] = 0
script_spaces (in_ ∷ ins) = script_space in_.signature_script + script_spaces ins

-- The size with a signature script of 108 bytes for every input that has none.
abbrev pub signed_size : (MsgTx → ℕ) → MsgTx → ℕ
signed_size serialize_size tx = serialize_size tx + script_spaces tx.tx_in

script_space-counted :
    (script : List ℕ) (rest : ℕ)
    → 108 * (if nat_eq (length script) 0 then 1 + rest else rest) ≡ script_space script + 108 * rest
script_space-counted [] rest = omega arith
script_space-counted (_ ∷ _) rest = ground arith

count_unsigned-script_spaces : (ins : List TxIn) → 108 * count_unsigned ins ≡ script_spaces ins
unfolding count_unsigned
count_unsigned-script_spaces [] = omega arith
count_unsigned-script_spaces (in_ ∷ ins) = omega (
  arith,
  script_space-counted in_.signature_script (count_unsigned ins),
  count_unsigned-script_spaces ins,
)

fee_for_small : (n : ℕ) → 10000 * n < 2 ^ 63 → fee_for n ≡ 10 * n
unfolding fee_for thousandth
fee_for_small n h = ground arith

abbrev pub suggestion : ℕ → Suggestion
suggestion fee = record { metadata = []; suggested_fee = dcr_amount_to_rosetta fee ∷ [] }

module _ (int64_of : Value → ℕ) where
  metadata-int :
      (n : ℕ)
      → construction_metadata int64_of (("serialize_size", Value.int n) ∷ [])
        ≡ ok (suggestion (fee_for n))
  unfolding construction_metadata lookup
  metadata-int n = refl

  metadata-whole :
      (n : ℕ)
      → construction_metadata int64_of (("serialize_size", Value.whole false n) ∷ [])
        ≡ ok (suggestion (fee_for (int64_of (Value.whole false n))))
  unfolding construction_metadata lookup
  metadata-whole n = refl

  -- What Preprocess gives for operations that make a transaction is the size of the transaction with
  -- 108 bytes more for every input without a signature script. For that size, as Preprocess gives
  -- it or as a float64, Metadata suggests ten atoms for every byte. The size times 10,000 is below
  -- 2^63, and the float64 of a whole number converts to it.
  pub metadata-preprocess :
      (wire : WireLib) (sign : SignLib) (codec : CodecLib) (serialize_size : MsgTx → ℕ)
      (metadata : Map String Value) (ops : List Operation) (tx : MsgTx)
      → ((n : ℕ) → n < 2 ^ 63 → int64_of (Value.whole false n) ≡ n)
      → rosetta_ops_to_tx wire sign.addresses metadata ops ≡ ok tx
      → 10000 * signed_size serialize_size tx < 2 ^ 63
      → (construction_preprocess wire sign codec serialize_size metadata ops
          ≡ ok (("serialize_size", Value.int (signed_size serialize_size tx)) ∷ []))
        × ((construction_metadata int64_of
                (("serialize_size", Value.int (signed_size serialize_size tx)) ∷ [])
              ≡ ok (suggestion (10 * signed_size serialize_size tx)))
            × (construction_metadata int64_of
                  (("serialize_size", Value.whole false (signed_size serialize_size tx)) ∷ [])
                ≡ ok (suggestion (10 * signed_size serialize_size tx))))
  unfolding construction_preprocess
  metadata-preprocess wire sign codec serialize_size metadata ops tx converts made small =
      let n = signed_size serialize_size tx in
      let fee = fee_for_small n small in
      (
        rw made (
            ap (λ n. ok (("serialize_size", Value.int n) ∷ []))
              (omega (arith, small, count_unsigned-script_spaces tx.tx_in))),
        (
          metadata-int n ∙ ap (λ fee. ok (suggestion fee)) fee,
          metadata-whole n
              ∙ ap (λ size. ok (suggestion (fee_for size))) (converts n (omega (arith, small)))
              ∙ ap (λ fee. ok (suggestion fee)) fee,
        ),
      )
