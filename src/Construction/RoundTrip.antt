-- ===== src/Construction/RoundTrip.antt =====
-- backend/svc_construction.go: the text of a construction transaction read back.
use dcrros.Prelude.{
  ℕ, ◌^◌, ◌<◌, ◌≡◌, refl, sym, ap, ◌∙◌, inl, inr, String, Bool, true, false, not, none, some, List,
  [], ◌∷◌, ◌++◌, nat_eq, Option-cases, nat_eq→eq, if◌then◌else◌, arith,
}
use mathlib.Core.List.{append-nil}
use dcrros.Prelude.Lists.{length, All}
use dcrros.Prelude.Bytes.{IsByte, append-All}
use dcrros.Prelude.Maps.{Map, lookup, lookup-nil, lookup-insert}
use dcrros.Prelude.Results.{Result, ok, err}
use dcrros.Prelude.Outcomes.{ok-bind, ok-injective}
use dcrros.BackendDb.{OutPoint, outpoint_comparable, outpoint_eq, outpoint_eq_iff}
use dcrros.Wire.{TxIn}
use dcrros.Types.Block.{PrevOutput}
use dcrros.Types.Errors.{GoError}
use dcrros.Types.Address.{hex_encode}
use dcrros.Types.Account.RoundTrip.{hex_decode-hex_encode}
use dcrros.Construction.{
  CodecLib, ConstructionTx, all_found, serialize, read_construction_tx, deserialize,
}
use dcrros.Construction.Written.{
  IsCodec, IsCoded, IsOutput, IsWritten, is_spent_by, put_found, picked, all_found-IsWritten,
}

-- What `serialize` asks for: as many inputs as entries, an entry for every input, and an encoding.
pub record IsReady (lib : CodecLib) (ctrtx : ConstructionTx) : Type 0 where
  pub counted : length ctrtx.tx.tx_in ≡ length ctrtx.prev_out_points
  pub found : all_found ctrtx.prev_out_points ctrtx.tx.tx_in ≡ true
  pub encoding : List ℕ
  pub encoded : lib.btc_encode ctrtx.tx ≡ ok encoding

-- The entries in the map, and their number, as the codec can write them.
pub record IsSound (lib : CodecLib) (ctrtx : ConstructionTx) : Type 0 where
  pub coded : IsCoded lib ctrtx.tx
  pub few : length ctrtx.prev_out_points < 2 ^ 64
  pub outputs :
      (o : OutPoint) (p : PrevOutput) → lookup o ctrtx.prev_out_points ≡ some p → IsOutput lib p

nat_eq_same : (a b : ℕ) → a ≡ b → nat_eq a b ≡ true
nat_eq_same a b h = ground arith

lookup-put_found :
    (o k : OutPoint) (p : PrevOutput) (m : Map OutPoint PrevOutput)
    → lookup k (put_found o (some p) m) ≡ (if outpoint_eq o k then some p else lookup k m)
lookup-put_found o k p m = lookup-insert o k p m

pub lookup-picked :
    (prevs : Map OutPoint PrevOutput) (ins : List TxIn) (m : Map OutPoint PrevOutput) (o : OutPoint)
    → all_found prevs ins ≡ true
    → lookup o (picked prevs ins m) ≡ (if is_spent_by ins o then lookup o prevs else lookup o m)
unfolding all_found
lookup-picked prevs [] m o h = refl
lookup-picked prevs (in_ ∷ ins) m o h = elim (Option-cases (lookup in_.previous_out_point prevs)) [
  | inl missing ↦ absurd (ground (arith, missing))
  | inr (p, found) ↦ ground (
    arith,
    found,
    outpoint_eq_iff in_.previous_out_point o,
    lookup-put_found in_.previous_out_point o p m,
    lookup-picked prevs ins (put_found in_.previous_out_point (some p) m) o,
  )
]

module _ (lib : CodecLib) (codec : IsCodec lib) where
  abbrev text_bytes : List ℕ → ℕ → List ℕ → List ℕ
  text_bytes encoding n written = 1 ∷ (encoding ++ (lib.write_var_int n ++ written))

  serialize-IsReady :
      (ctrtx : ConstructionTx) (ready : IsReady lib ctrtx)
      (w : IsWritten lib codec ctrtx.prev_out_points ctrtx.tx.tx_in)
      → serialize lib ctrtx
        ≡ ok (hex_encode (text_bytes ready.encoding (length ctrtx.prev_out_points) w.written))
  unfolding serialize
  serialize-IsReady ctrtx ready w =
      rw
        (
          nat_eq_same (length ctrtx.tx.tx_in) (length ctrtx.prev_out_points) ready.counted,
          ready.found,
          ready.encoded,
          w.is_written,
        )
        refl

  read_construction_tx-text_bytes :
      (ctrtx : ConstructionTx) (ready : IsReady lib ctrtx)
      (w : IsWritten lib codec ctrtx.prev_out_points ctrtx.tx.tx_in)
      → IsSound lib ctrtx
      → read_construction_tx lib
          (text_bytes ready.encoding (length ctrtx.prev_out_points) w.written)
        ≡ ok (record {
          tx = ctrtx.tx;
          prev_out_points = picked ctrtx.prev_out_points ctrtx.tx.tx_in [];
        })
  unfolding read_construction_tx
  read_construction_tx-text_bytes ctrtx ready w sound =
      let n = length ctrtx.prev_out_points in
      let read = w.read [] [] in
      rw
        (
          sound.coded.read ready.encoding (lib.write_var_int n ++ w.written) ready.encoded,
          codec.read_var_int n w.written sound.few,
          nat_eq_same n (length ctrtx.tx.tx_in) (sym ready.counted),
          rw (append-nil w.written) at read,
        )
        refl

  text_bytes-IsByte :
      (ctrtx : ConstructionTx) (ready : IsReady lib ctrtx)
      (w : IsWritten lib codec ctrtx.prev_out_points ctrtx.tx.tx_in)
      → IsSound lib ctrtx
      → All IsByte (text_bytes ready.encoding (length ctrtx.prev_out_points) w.written)
  text_bytes-IsByte ctrtx ready w sound = (
    omega arith,
    append-All IsByte ready.encoding (lib.write_var_int (length ctrtx.prev_out_points) ++ w.written)
        (sound.coded.bytes ready.encoding ready.encoded)
        (append-All IsByte (lib.write_var_int (length ctrtx.prev_out_points)) w.written
          (codec.var_int-IsByte (length ctrtx.prev_out_points)) w.bytes),
  )

  -- A construction transaction that is ready is written, and its text is read back as its transaction
  -- with the entries of the inputs.
  pub deserialize-IsReady :
      (ctrtx : ConstructionTx)
      → IsReady lib ctrtx
      → IsSound lib ctrtx
      → (text : String) × ((serialize lib ctrtx ≡ ok text)
          × (deserialize lib text
              ≡ ok (record {
                tx = ctrtx.tx;
                prev_out_points = picked ctrtx.prev_out_points ctrtx.tx.tx_in [];
              })))
  unfolding deserialize
  deserialize-IsReady ctrtx ready sound =
      let w =
        all_found-IsWritten lib codec ctrtx.prev_out_points ctrtx.tx.tx_in sound.outputs
          ready.found in
      let bytes = text_bytes ready.encoding (length ctrtx.prev_out_points) w.written in
      (
        hex_encode bytes,
        (
          serialize-IsReady ctrtx ready w,
          rw (hex_decode-hex_encode bytes (text_bytes-IsByte ctrtx ready w sound))
              (read_construction_tx-text_bytes ctrtx ready w sound),
        ),
      )

-- The tests of `serialize` have passed where it returns.
-- A test whose failure is an error has passed where the result is not one.
pub passed :
    {A : Type 0} (e : GoError) (b : Bool) (r : Result GoError A) (t : A)
    → (if not b then err e else r) ≡ ok t
    → (b ≡ true) × (r ≡ ok t)
passed e true r t h = (refl, h)
passed e false r t h = absurd cc

pub serialize-ok :
    (lib : CodecLib) (ctrtx : ConstructionTx) (text : String)
    → serialize lib ctrtx ≡ ok text
    → IsReady lib ctrtx
unfolding serialize
serialize-ok lib ctrtx text e =
    let counted = passed _ _ _ _ e in
    let found = passed _ _ _ _ counted.1 in
    let (encoding, (encoded, more)) = ok-bind (lib.btc_encode ctrtx.tx) _ _ found.1 in
    record {
      counted = nat_eq→eq _ _ counted.0;
      found = found.0;
      encoding = encoding;
      encoded = encoded;
    }

module _ (lib : CodecLib) (codec : IsCodec lib) where
  -- Where serialize returns a text, deserialize gives its transaction back, with the entry of the map
  -- under every outpoint that an input spends and no other. The conditions: package wire reads back
  -- the transactions and varints that it encodes, and the previous outputs are in range.
  pub deserialize-serialize :
      (ctrtx : ConstructionTx) (text : String)
      → IsSound lib ctrtx
      → serialize lib ctrtx ≡ ok text
      → (m : Map OutPoint PrevOutput) × ((deserialize lib text
            ≡ ok (record { tx = ctrtx.tx; prev_out_points = m }))
          × ((o : OutPoint)
              → lookup o m
                ≡ (if is_spent_by ctrtx.tx.tx_in o then lookup o ctrtx.prev_out_points else none)))
  deserialize-serialize ctrtx text sound e =
      let ready = serialize-ok lib ctrtx text e in
      let (written, (is_written, is_read)) = deserialize-IsReady lib codec ctrtx ready sound in
      let same = ok-injective (serialize lib ctrtx) written text is_written e in
      (
        picked ctrtx.prev_out_points ctrtx.tx.tx_in [],
        (
          rw same at is_read,
          λ o.
              lookup-picked ctrtx.prev_out_points ctrtx.tx.tx_in [] o ready.found
              ∙ ap (λ r. if is_spent_by ctrtx.tx.tx_in o then lookup o ctrtx.prev_out_points else r)
                  (lookup-nil o),
        ),
      )
