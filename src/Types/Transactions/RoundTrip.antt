-- ===== src/Types/Transactions/RoundTrip.antt =====
-- types/transactions.go: a transaction as operations, and back.
use dcrros.Prelude.{
  ℕ, ◌^◌, ◌<◌, ◌≡◌, refl, sym, ap, ◌∙◌, String, none, some, List, [], ◌∷◌, ◌++◌, arith, map,
}
use mathlib.Core.List.{append-nil, append_assoc}
use dcrros.Prelude.Lists.{All}
use dcrros.Prelude.Maps.{Map, lookup}
use dcrros.Prelude.Words.{neg64}
use dcrros.Prelude.Results.{ok}
use dcrros.BackendDb.{OutPoint}
use dcrros.Wire.{TxIn, TxOut, MsgTx, Dcrd}
use dcrros.Types.Ops.{r_type}
use dcrros.Types.Address.{hex_encode}
use dcrros.Types.Rosetta.{Value, CoinAction, AccountIdentifier, Operation}
use dcrros.Types.Amount.{dcr_amount_to_rosetta, rosetta_to_dcr_amount-dcr_amount_to_rosetta}
use dcrros.Types.Metadata.{metadata_int8, metadata_uint16, metadata_uint32, metadata_hex}
use dcrros.Types.Account.{AddressLib}
use dcrros.Prelude.Bytes.{IsByte}
use dcrros.Types.Account.RoundTrip.{
  hex_decode-hex_encode, IsPayable, account_of, rosetta_account_to_pk_script-account_of,
}
use dcrros.Types.Transactions.{
  WireLib, magnitude, coin_change_to_out_point, debit_in, credit_out, rosetta_op_to_tx, add_ops,
  rosetta_ops_to_tx,
}
use dcrros.Types.Transactions.OutPoints.{
  IsHashText, out_point_text, decode_out_point-out_point_text,
}

-- The operation of an input, with its account, and that of an output, as a client makes them. The
-- amount of a debit is negative.
abbrev pub input_op : WireLib → AccountIdentifier → TxIn → Operation
input_op lib account in_ = record {
  index = 0;
  type = "debit";
  status = none;
  account = some account;
  amount = some (dcr_amount_to_rosetta (neg64 in_.value_in));
  metadata =
      ("prev_tree", Value.int8 in_.previous_out_point.tree)
      ∷ ("sequence", Value.uint32 in_.sequence)
      ∷ ("block_height", Value.uint32 in_.block_height)
      ∷ ("block_index", Value.uint32 in_.block_index)
      ∷ ("signature_script", Value.text (hex_encode in_.signature_script))
      ∷ [];
  coin_change = some (record {
    coin_identifier = some (out_point_text lib in_.previous_out_point);
    coin_action = CoinAction.coin_spent;
  });
}

abbrev pub output_op : Dcrd → TxOut → Operation
output_op dcrd out = record {
  index = 0;
  type = "credit";
  status = none;
  account = some (account_of dcrd out.version out.pk_script);
  amount = some (dcr_amount_to_rosetta out.value);
  metadata = [];
  coin_change = none;
}

abbrev pub tx_metadata : MsgTx → Map String Value
tx_metadata tx =
    ("version", Value.uint16 tx.version)
    ∷ ("expiry", Value.uint32 tx.expiry)
    ∷ ("locktime", Value.uint32 tx.lock_time)
    ∷ []

abbrev pub tx_ops : WireLib → Dcrd → AccountIdentifier → MsgTx → List Operation
tx_ops lib dcrd account tx = map (input_op lib account) tx.tx_in ++ map (output_op dcrd) tx.tx_out

-- wire.NewTxIn takes the outpoint and the amount, and wire.NewMsgTx has no input and no output.
pub record IsWireLib (lib : WireLib) : Type 0 where
  pub hashes : IsHashText lib
  pub out_point : (o : OutPoint) (x : ℕ) → (lib.new_tx_in o x).previous_out_point ≡ o
  pub value_in : (o : OutPoint) (x : ℕ) → (lib.new_tx_in o x).value_in ≡ x
  pub no_ins : lib.new_msg_tx.tx_in ≡ []
  pub no_outs : lib.new_msg_tx.tx_out ≡ []

-- An input within the bounds of the wire format, of an amount that is not negative.
abbrev pub IsIn : TxIn → Type 0
IsIn in_ =
    (in_.previous_out_point.hash < 2 ^ 256)
    × ((in_.previous_out_point.index < 2 ^ 32)
        × ((in_.value_in < 2 ^ 63) × All IsByte in_.signature_script))

abbrev pub IsOut : Dcrd → AddressLib → TxOut → Type 0
IsOut dcrd addresses out =
    (out.value < 2 ^ 64)
    × ((out.version < 2 ^ 15)
        × (All IsByte out.pk_script × IsPayable dcrd addresses out.version out.pk_script))

module _ (lib : WireLib) (laws : IsWireLib lib) (dcrd : Dcrd) (addresses : AddressLib)
    (account : AccountIdentifier) where
  debit_in-input_op :
      (in_ : TxIn)
      → IsIn in_
      → debit_in lib (input_op lib account in_) (neg64 in_.value_in) ≡ ok in_
  unfolding debit_in coin_change_to_out_point metadata_int8 metadata_uint32 metadata_hex lookup
  debit_in-input_op in_ (hash, (index, (amount, script))) =
      let o : OutPoint = in_.previous_out_point in
      let size : magnitude (neg64 in_.value_in) ≡ in_.value_in = ground arith in
      rw
        (
          decode_out_point-out_point_text lib laws.hashes in_.previous_out_point hash index,
          hex_decode-hex_encode in_.signature_script script,
          size,
          laws.out_point o in_.value_in,
          laws.value_in o in_.value_in,
        )
        refl

  credit_out-output_op :
      (out : TxOut)
      → IsOut dcrd addresses out
      → credit_out lib addresses (output_op dcrd out) out.value ≡ ok out
  unfolding credit_out
  credit_out-output_op out (value, (version, (bytes, payable))) =
      rw
        (rosetta_account_to_pk_script-account_of dcrd addresses out.version out.pk_script payable
          version bytes)
        refl

  rosetta_op_to_tx-input_op :
      (in_ : TxIn) (tx : MsgTx)
      → IsIn in_
      → rosetta_op_to_tx lib addresses (input_op lib account in_) tx
        ≡ ok (record tx { tx_in = tx.tx_in ++ in_ ∷ [] })
  unfolding rosetta_op_to_tx r_type
  rosetta_op_to_tx-input_op in_ tx h =
      rw
        (
          rosetta_to_dcr_amount-dcr_amount_to_rosetta (neg64 in_.value_in) (omega arith),
          debit_in-input_op in_ h,
        )
        refl

  rosetta_op_to_tx-output_op :
      (out : TxOut) (tx : MsgTx)
      → IsOut dcrd addresses out
      → rosetta_op_to_tx lib addresses (output_op dcrd out) tx
        ≡ ok (record tx { tx_out = tx.tx_out ++ out ∷ [] })
  unfolding rosetta_op_to_tx r_type
  rosetta_op_to_tx-output_op out tx h =
      rw (rosetta_to_dcr_amount-dcr_amount_to_rosetta out.value h.0, credit_out-output_op out h)
        refl

  add_ops-ins :
      (ins : List TxIn) (ops : List Operation) (tx : MsgTx)
      → All IsIn ins
      → add_ops lib addresses (map (input_op lib account) ins ++ ops) tx
        ≡ add_ops lib addresses ops (record tx { tx_in = tx.tx_in ++ ins })
  unfolding add_ops
  add_ops-ins [] ops tx h =
      ap (λ ins. add_ops lib addresses ops (record tx { tx_in = ins })) (sym (append-nil tx.tx_in))
  add_ops-ins (in_ ∷ ins) ops tx (h, hs) = rw (rosetta_op_to_tx-input_op in_ tx h) (
      add_ops-ins ins ops (record tx { tx_in = tx.tx_in ++ in_ ∷ [] }) hs
      ∙ ap (λ ins. add_ops lib addresses ops (record tx { tx_in = ins }))
          (append_assoc tx.tx_in (in_ ∷ []) ins))

  add_ops-outs :
      (outs : List TxOut) (tx : MsgTx)
      → All (IsOut dcrd addresses) outs
      → add_ops lib addresses (map (output_op dcrd) outs) tx
        ≡ ok (record tx { tx_out = tx.tx_out ++ outs })
  unfolding add_ops
  add_ops-outs [] tx h = ap (λ outs. ok (record tx { tx_out = outs })) (sym (append-nil tx.tx_out))
  add_ops-outs (out ∷ outs) tx (h, hs) = rw (rosetta_op_to_tx-output_op out tx h) (
      add_ops-outs outs (record tx { tx_out = tx.tx_out ++ out ∷ [] }) hs
      ∙ ap (λ outs. ok (record tx { tx_out = outs })) (append_assoc tx.tx_out (out ∷ []) outs))

  -- A transaction that is written as operations, an input or an output each, is read back from them.
  pub rosetta_ops_to_tx-tx_ops :
      (tx : MsgTx)
      → All IsIn tx.tx_in
      → All (IsOut dcrd addresses) tx.tx_out
      → rosetta_ops_to_tx lib addresses (tx_metadata tx) (tx_ops lib dcrd account tx) ≡ ok tx
  unfolding rosetta_ops_to_tx metadata_uint16 metadata_uint32 lookup
  rosetta_ops_to_tx-tx_ops tx ins outs =
      let start : MsgTx = record lib.new_msg_tx {
        version = tx.version;
        expiry = tx.expiry;
        lock_time = tx.lock_time;
      } in
      add_ops-ins tx.tx_in (map (output_op dcrd) tx.tx_out) start ins
      ∙ add_ops-outs tx.tx_out (record start { tx_in = start.tx_in ++ tx.tx_in }) outs
      ∙ ap
          (λ new. ok (record start { tx_in = new ++ tx.tx_in; tx_out = start.tx_out ++ tx.tx_out }))
          laws.no_ins
      ∙ ap (λ new. ok (record tx { tx_out = new ++ tx.tx_out })) laws.no_outs
