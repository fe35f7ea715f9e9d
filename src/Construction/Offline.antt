-- ===== src/Construction/Offline.antt =====
-- backend/svc_construction.go: what `ConstructionParse` needs of dcrd.
use dcrros.Prelude.{
  ℕ, ◌+◌, ◌≡◌, refl, sym, ap, ◌∙◌, inl, inr, String, true, ◌&&◌, ◌||◌, List, [], ◌∷◌, nat_eq,
  Bool-cases, Option-cases, arith,
}
use dcrros.Prelude.Lists.{length, All}
use dcrros.Prelude.Maps.{Map, lookup, insert, lookup-insert}
use dcrros.Prelude.Results.{Result, ok, err, panic}
use dcrros.Prelude.Outcomes.{◌>>=◌, error_to, ok-bind, ok-injective}
use dcrros.BackendDb.{OutPoint, outpoint_comparable, outpoint_eq_iff}
use dcrros.Wire.{TxIn, MsgTx, Dcrd}
use dcrros.Types.Block.{PrevOutput, TxFlags, prev_outpoints, tx_flags, iterate_block_ops_in_tx}
use dcrros.Types.Block.Mempool.{mempool_op, mempool_tx_to_rosetta}
use dcrros.Types.Errors.{GoError}
use dcrros.Types.Text.{hex_decode}
use dcrros.Types.Transactions.{WireLib}
use dcrros.Types.Transactions.Signing.{SignLib}
use dcrros.Outputs.{find_known, prev_outs_fetcher}
use dcrros.Construction.{
  CodecLib, ConstructionTx, is_some, read_prev_out, read_prev_outs, read_construction_tx,
  deserialize, from_hex, read_version, read_prevs, invalid_transaction, err_wrong_nb_prev_outs,
  to_response,
}
use dcrros.Construction.Written.{is_spent_by}
use dcrros.Construction.RoundTrip.{passed}
use dcrros.Construction.Service.{construction_parse, parse_tx}

-- Every outpoint has an entry.
abbrev AllKnown : Map OutPoint PrevOutput → List OutPoint → Type 0
AllKnown prevs os = All (λ o. is_some (lookup o prevs) ≡ true) os

find_known-AllKnown :
    (prevs : Map OutPoint PrevOutput) (os : List OutPoint) (res : Map OutPoint PrevOutput)
    → AllKnown prevs os
    → (res' : Map OutPoint PrevOutput) × (find_known prevs os (res, []) ≡ (res', []))
unfolding find_known
find_known-AllKnown prevs [] res h = (res, refl)
find_known-AllKnown prevs (o ∷ os) res (h, hs) = elim (Option-cases (lookup o prevs)) [
  | inl missing ↦ absurd (ground (arith, missing, h))
  | inr (p, found) ↦ rw found (find_known-AllKnown prevs os (insert o p res) hs)
]

-- Known outpoints are not asked for.
prev_outs_fetcher-AllKnown :
    (g g' : ℕ → Result GoError MsgTx) (prevs : Map OutPoint PrevOutput) (os : List OutPoint)
    → AllKnown prevs os
    → prev_outs_fetcher g prevs os ≡ prev_outs_fetcher g' prevs os
unfolding prev_outs_fetcher
prev_outs_fetcher-AllKnown g g' prevs os h =
    let (res, found) = find_known-AllKnown prevs os [] h in rw found refl

prev_outpoints-AllKnown :
    (f : TxFlags) (i : ℕ) (ins : List TxIn) (prevs : Map OutPoint PrevOutput)
    → ((o : OutPoint) → is_spent_by ins o ≡ true → is_some (lookup o prevs) ≡ true)
    → AllKnown prevs (prev_outpoints f i ins)
unfolding prev_outpoints
prev_outpoints-AllKnown f i [] prevs h = tt
prev_outpoints-AllKnown f i (in_ ∷ ins) prevs h =
    let o = in_.previous_out_point in
    let first = h o (ground (arith, outpoint_eq_iff o o)) in
    let rest =
      prev_outpoints-AllKnown f (i + 1) ins prevs (λ k spent. h k (ground (arith, spent))) in
    elim (Bool-cases (nat_eq i 0 && (f.is_vote || f.is_coinbase || f.is_tbase || f.is_tspend))) [
      | inl left_out ↦ rw left_out rest
      | inr asked ↦ rw asked (first, rest)
    ]

-- Two ways to go on that agree on what the first part gives
bind_same :
    {A B : Type 0} (r : Result GoError A) (f f' : A → Result GoError B)
    → ((a : A) → r ≡ ok a → f a ≡ f' a)
    → (r >>= f) ≡ (r >>= f')
bind_same (ok a) f f' h = h a refl
bind_same (err e) f f' h = refl
bind_same panic f f' h = refl

module _ (lib : CodecLib) where
  read_prev_outs-known :
      (ins : List TxIn) (bs : List ℕ) (m m' : Map OutPoint PrevOutput) (o : OutPoint)
      → read_prev_outs lib ins bs m ≡ ok m'
      → (is_spent_by ins o || is_some (lookup o m)) ≡ true
      → is_some (lookup o m') ≡ true
  unfolding read_prev_outs
  read_prev_outs-known [] bs m m' o h known = rw (ok-injective _ m m' refl h) at known
  read_prev_outs-known (in_ ∷ ins) bs m m' o h known =
      let ((p, rest_bytes), (_, rest)) = ok-bind (read_prev_out lib bs) _ m' h in
      read_prev_outs-known ins rest_bytes (insert in_.previous_out_point p m) m' o rest
        (ground (arith, known, lookup-insert in_.previous_out_point o p m))

  read_prevs-known :
      (tx : MsgTx) (nb : ℕ × List ℕ) (ctrtx : ConstructionTx) (o : OutPoint)
      → read_prevs lib tx nb ≡ ok ctrtx
      → is_spent_by ctrtx.tx.tx_in o ≡ true
      → is_some (lookup o ctrtx.prev_out_points) ≡ true
  read_prevs-known tx nb ctrtx o h spent =
      let counted =
        passed (GoError.wrapped "%w: %d inputs, %d prevOuts" err_wrong_nb_prev_outs)
          (nat_eq nb.0 (length tx.tx_in)) _ ctrtx h in
      let (prevs, (read, made)) = ok-bind (read_prev_outs lib tx.tx_in nb.1 []) _ ctrtx counted.1 in
      let same = ok-injective _ (record { tx = tx; prev_out_points = prevs }) ctrtx refl made in
      let spent_here : is_spent_by tx.tx_in o ≡ true =
        ap (λ c. is_spent_by (ConstructionTx.tx c).tx_in o) same ∙ spent in
      ap (λ c. is_some (lookup o (ConstructionTx.prev_out_points c))) (sym same)
      ∙ read_prev_outs-known tx.tx_in nb.1 [] prevs o read (ground (arith, spent_here))

  deserialize-known :
      (text : String) (ctrtx : ConstructionTx) (o : OutPoint)
      → deserialize lib text ≡ ok ctrtx
      → is_spent_by ctrtx.tx.tx_in o ≡ true
      → is_some (lookup o ctrtx.prev_out_points) ≡ true
  unfolding deserialize read_construction_tx
  deserialize-known text ctrtx o h spent =
      let (bts, (_, h1)) = ok-bind (from_hex (hex_decode text)) _ ctrtx h in
      let (bs, (_, h2)) = ok-bind (read_version bts) _ ctrtx h1 in
      let (tx, (_, h3)) = ok-bind (error_to invalid_transaction (lib.btc_decode bs)) _ ctrtx h2 in
      let (nb, (_, h4)) = ok-bind (lib.read_var_int tx.1) _ ctrtx h3 in
      read_prevs-known tx.0 nb ctrtx o h4 spent

module _ (wire : WireLib) (sign : SignLib) (lib : CodecLib) (dcrd : Dcrd)
    (out_point_text : OutPoint → String) (g g' : ℕ → Result GoError MsgTx) where
  parse_tx-known :
      (ctrtx : ConstructionTx)
      → ((o : OutPoint)
          → is_spent_by ctrtx.tx.tx_in o ≡ true
          → is_some (lookup o ctrtx.prev_out_points) ≡ true)
      → parse_tx wire sign lib dcrd out_point_text g ctrtx
        ≡ parse_tx wire sign lib dcrd out_point_text g' ctrtx
  unfolding mempool_tx_to_rosetta mempool_op iterate_block_ops_in_tx
  parse_tx-known ctrtx known =
      let op = mempool_op wire.hash_text out_point_text dcrd ctrtx.tx in
      let f = tx_flags dcrd op.tree op.tx_index op.tx in
      rw
        (prev_outs_fetcher-AllKnown g g' ctrtx.prev_out_points (prev_outpoints f 0 op.tx.tx_in)
          (prev_outpoints-AllKnown f 0 ctrtx.tx.tx_in ctrtx.prev_out_points known))
        refl

  -- ConstructionParse gives the same whatever dcrd gives for transactions: the text has the previous
  -- output of every input.
  pub construction_parse_offline :
      (text : String)
      → construction_parse wire sign lib dcrd out_point_text g text
        ≡ construction_parse wire sign lib dcrd out_point_text g' text
  unfolding construction_parse
  construction_parse_offline text =
      ap (λ r. to_response r)
        (bind_same (deserialize lib text) _ _
          (λ ctrtx h. parse_tx-known ctrtx (λ o spent. deserialize-known lib text ctrtx o h spent)))
