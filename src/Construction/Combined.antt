-- ===== src/Construction/Combined.antt =====
-- backend/svc_construction.go: `ConstructionCombine` on the text of an unsigned transaction.
use dcrros.Prelude.{
  ℕ, suc, ◌+◌, ◌≡◌, refl, ap, ◌∙◌, inl, inr, String, Bool, true, false, Option, none, List, [], ◌∷◌,
  Option-cases, if◌then◌else◌, arith,
}
use dcrros.Prelude.Lists.{length}
use dcrros.Prelude.Maps.{Map, lookup, insert, lookup-nil, lookup-insert}
use dcrros.Prelude.Results.{ok}
use dcrros.Prelude.Outcomes.{ok-injective}
use dcrros.BackendDb.{OutPoint, outpoint_comparable, outpoint_eq_iff}
use dcrros.Wire.{TxIn, MsgTx}
use dcrros.Types.Block.{PrevOutput}
use dcrros.Types.Rosetta.{Signature}
use dcrros.Types.Transactions.{WireLib}
use dcrros.Types.Transactions.Signing.{SignLib}
use dcrros.Types.Transactions.Signed.{with_scripts, Scripts, combine_tx_sigs-Scripts}
use dcrros.Construction.{CodecLib, ConstructionTx, all_found, serialize, deserialize}
use dcrros.Construction.Service.{combine}
use dcrros.Construction.Written.{IsCodec, IsCoded, is_spent_by, picked}
use dcrros.Construction.RoundTrip.{
  IsReady, IsSound, lookup-picked, serialize-ok, deserialize-IsReady, deserialize-serialize,
}

-- No two inputs spend the same outpoint.
abbrev pub IsDistinct : List TxIn → Type 0
IsDistinct [] = Unit
IsDistinct (in_ ∷ ins) = (is_spent_by ins in_.previous_out_point ≡ false) × IsDistinct ins

length-insert :
    (o : OutPoint) (p : PrevOutput) (m : Map OutPoint PrevOutput)
    → lookup o m ≡ none
    → length (insert o p m) ≡ suc (length m)
unfolding lookup insert
length-insert o p [] h = refl
length-insert o p ((k, q) ∷ m) h = ground (arith, length-insert o p m)

length-picked :
    (prevs : Map OutPoint PrevOutput) (ins : List TxIn) (m : Map OutPoint PrevOutput)
    → all_found prevs ins ≡ true
    → IsDistinct ins
    → ((o : OutPoint) → is_spent_by ins o ≡ true → lookup o m ≡ none)
    → length (picked prevs ins m) ≡ length ins + length m
unfolding all_found
length-picked prevs [] m h d fresh = omega arith
length-picked prevs (in_ ∷ ins) m h (once, d) fresh =
    elim (Option-cases (lookup in_.previous_out_point prevs)) [
      | inl missing ↦ absurd (ground (arith, missing))
      | inr (p, found) ↦
          let o = in_.previous_out_point in
          let more = length-picked prevs ins (insert o p m) (ground (arith, found, h)) d (λ k spent.
            ground (arith, spent, once, outpoint_eq_iff o k, lookup-insert o k p m, fresh k)) in
          let new = length-insert o p m (fresh o (ground (arith, outpoint_eq_iff o o))) in
          rw (found, more, new) (omega arith)
    ]

-- Entries that are picked twice for the same inputs
spent_twice :
    (spent again : Bool) (last middle first : Option PrevOutput)
    → again ≡ spent
    → last ≡ (if again then middle else none)
    → middle ≡ (if spent then first else none)
    → last ≡ (if spent then first else none)
spent_twice true again last middle first same h k = rw same at h ∙ k
spent_twice false again last middle first same h k = rw same at h

is_spent_by-with_scripts :
    (scripts : List (List ℕ)) (ins : List TxIn) (o : OutPoint)
    → is_spent_by (with_scripts scripts ins) o ≡ is_spent_by ins o
is_spent_by-with_scripts [] ins o = refl
is_spent_by-with_scripts (script ∷ scripts) [] o = refl
is_spent_by-with_scripts (script ∷ scripts) (in_ ∷ ins) o =
    rw (is_spent_by-with_scripts scripts ins o) refl

length-with_scripts :
    (scripts : List (List ℕ)) (ins : List TxIn) → length (with_scripts scripts ins) ≡ length ins
length-with_scripts [] ins = refl
length-with_scripts (script ∷ scripts) [] = refl
length-with_scripts (script ∷ scripts) (in_ ∷ ins) = ap suc (length-with_scripts scripts ins)

all_found-with_scripts :
    (m : Map OutPoint PrevOutput) (scripts : List (List ℕ)) (ins : List TxIn)
    → all_found m (with_scripts scripts ins) ≡ all_found m ins
unfolding all_found
all_found-with_scripts m [] ins = refl
all_found-with_scripts m (script ∷ scripts) [] = refl
all_found-with_scripts m (script ∷ scripts) (in_ ∷ ins) =
    rw (all_found-with_scripts m scripts ins) refl

all_found_same :
    (prevs m : Map OutPoint PrevOutput) (ins : List TxIn)
    → all_found prevs ins ≡ true
    → ((o : OutPoint) → is_spent_by ins o ≡ true → lookup o m ≡ lookup o prevs)
    → all_found m ins ≡ true
unfolding all_found
all_found_same prevs m [] h same = refl
all_found_same prevs m (in_ ∷ ins) h same =
    let o = in_.previous_out_point in
    ground (
      arith,
      h,
      same o (ground (arith, outpoint_eq_iff o o)),
      all_found_same prevs m ins (ground (arith, h)) (λ k spent. same k (ground (arith, spent))),
    )

abbrev pub signed_tx : List (List ℕ) → MsgTx → MsgTx
signed_tx scripts tx = record tx { tx_in = with_scripts scripts tx.tx_in }

module _ (wire : WireLib) (sign : SignLib) (lib : CodecLib) (codec : IsCodec lib) where
  -- The entries of the inputs alone, around the signed transaction.
  abbrev signed_of : ConstructionTx → List (List ℕ) → ConstructionTx
  signed_of ctrtx scripts = record {
    tx = signed_tx scripts ctrtx.tx;
    prev_out_points = picked ctrtx.prev_out_points ctrtx.tx.tx_in [];
  }

  lookup-signed_of :
      (ctrtx : ConstructionTx) (scripts : List (List ℕ))
      → IsReady lib ctrtx
      → (o : OutPoint)
      → lookup o (ConstructionTx.prev_out_points (signed_of ctrtx scripts))
        ≡ (if is_spent_by ctrtx.tx.tx_in o then lookup o ctrtx.prev_out_points else none)
  lookup-signed_of ctrtx scripts ready o =
      lookup-picked ctrtx.prev_out_points ctrtx.tx.tx_in [] o ready.found
      ∙ ap (λ r. if is_spent_by ctrtx.tx.tx_in o then lookup o ctrtx.prev_out_points else r)
          (lookup-nil o)

  signed_of-IsReady :
      (ctrtx : ConstructionTx) (scripts : List (List ℕ)) (bs : List ℕ)
      → IsReady lib ctrtx
      → IsDistinct ctrtx.tx.tx_in
      → lib.btc_encode (signed_tx scripts ctrtx.tx) ≡ ok bs
      → IsReady lib (signed_of ctrtx scripts)
  signed_of-IsReady ctrtx scripts bs ready distinct e = record {
    counted = omega (
      arith,
      length-with_scripts scripts ctrtx.tx.tx_in,
      length-picked ctrtx.prev_out_points ctrtx.tx.tx_in [] ready.found distinct
          (λ o spent. lookup-nil o),
    );
    found =
        all_found-with_scripts (picked ctrtx.prev_out_points ctrtx.tx.tx_in []) scripts
          ctrtx.tx.tx_in
        ∙ all_found_same ctrtx.prev_out_points (picked ctrtx.prev_out_points ctrtx.tx.tx_in [])
            ctrtx.tx.tx_in ready.found
            (λ o spent. ground (arith, spent, lookup-signed_of ctrtx scripts ready o));
    encoding = bs;
    encoded = e;
  }

  signed_of-IsSound :
      (ctrtx : ConstructionTx) (scripts : List (List ℕ))
      → IsReady lib ctrtx
      → IsDistinct ctrtx.tx.tx_in
      → IsSound lib ctrtx
      → IsCoded lib (signed_tx scripts ctrtx.tx)
      → IsSound lib (signed_of ctrtx scripts)
  signed_of-IsSound ctrtx scripts ready distinct sound coded = record {
    coded = coded;
    few = omega (
      arith,
      ready.counted,
      sound.few,
      length-picked ctrtx.prev_out_points ctrtx.tx.tx_in [] ready.found distinct
          (λ o spent. lookup-nil o),
    );
    outputs =
        λ o p e. sound.outputs o p (ground (arith, e, lookup-signed_of ctrtx scripts ready o));
  }

  -- Combine, on a text that serialize gives of a transaction with distinct inputs, with a signature
  -- that passes the checks for every input, returns a text of the signed transaction, which
  -- deserialize reads with the same previous outputs. The conditions: package wire reads back
  -- the transactions and varints that it encodes, and the previous outputs are in range.
  pub combine-serialize :
      (ctrtx : ConstructionTx) (text : String) (sigs : List Signature) (scripts : List (List ℕ))
      (bs : List ℕ)
      → IsSound lib ctrtx
      → IsDistinct ctrtx.tx.tx_in
      → serialize lib ctrtx ≡ ok text
      → Scripts sign sigs scripts
      → length sigs ≡ length ctrtx.tx.tx_in
      → IsCoded lib (signed_tx scripts ctrtx.tx)
      → lib.btc_encode (signed_tx scripts ctrtx.tx) ≡ ok bs
      → (out : String) × ((m : Map OutPoint PrevOutput) × ((combine wire sign lib sigs text
              ≡ ok out)
            × ((deserialize lib out
                  ≡ ok (record { tx = signed_tx scripts ctrtx.tx; prev_out_points = m }))
                × ((o : OutPoint)
                    → lookup o m ≡ (
                        if is_spent_by ctrtx.tx.tx_in o
                        then lookup o ctrtx.prev_out_points
                        else none)))))
  unfolding combine
  combine-serialize ctrtx text sigs scripts bs sound distinct e passed counted coded encoded =
      let ready = serialize-ok lib ctrtx text e in
      let (written, (is_written, is_read)) = deserialize-IsReady lib codec ctrtx ready sound in
      let same = ok-injective (serialize lib ctrtx) written text is_written e in
      let read = rw same at is_read in
      let after = signed_of ctrtx scripts in
      let after_ready = signed_of-IsReady ctrtx scripts bs ready distinct encoded in
      let after_sound = signed_of-IsSound ctrtx scripts ready distinct sound coded in
      let (out, (out_written, _)) = deserialize-IsReady lib codec after after_ready after_sound in
      let (m, (out_read, entries)) =
        deserialize-serialize lib codec after out after_sound out_written in
      (
        out,
        (
          m,
          (
            rw
                (
                  read,
                  combine_tx_sigs-Scripts sign sigs scripts ctrtx.tx passed counted,
                  out_written,
                )
                refl,
            (
              out_read,
              λ o.
                  spent_twice (is_spent_by ctrtx.tx.tx_in o)
                    (is_spent_by (with_scripts scripts ctrtx.tx.tx_in) o) (lookup o m)
                    (lookup o after.prev_out_points) (lookup o ctrtx.prev_out_points)
                    (is_spent_by-with_scripts scripts ctrtx.tx.tx_in o) (entries o)
                    (lookup-signed_of ctrtx scripts ready o),
            ),
          ),
        ),
      )
