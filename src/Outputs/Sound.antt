-- ===== src/Outputs/Sound.antt =====
-- backend/svc_block.go: where the outputs that `prevOutsFetcher` gives come from.
use dcrros.Prelude.{
  ℕ, ◌≡◌, refl, sym, ◌∙◌, ◌⊎◌, inl, inr, Option, none, some, List, [], ◌∷◌, Bool-cases,
  if◌then◌else◌,
}
use mathlib.Core.Path.{subst}
use mathlib.Core.Option.{none-ne-some}
use dcrros.Prelude.Keys.{Comparable, nat_comparable, ◌==◌, ==_eq}
use dcrros.Prelude.Lists.{get_elem?}
use dcrros.Prelude.Maps.{Map, lookup, insert, lookup-insert, lookup-nil}
use dcrros.Prelude.Results.{Result, ok, err, panic}
use dcrros.Prelude.Outcomes.{◌>>=◌}
use dcrros.BackendDb.{OutPoint, outpoint_comparable}
use dcrros.Wire.{TxOut, MsgTx}
use dcrros.Types.Block.{PrevOutput}
use dcrros.Types.Errors.{GoError}
use dcrros.Outputs.{
  Found, found_with, find_known, output_of, with_output, with_tx, build_outputs, request_txs,
  fetch_rest, prev_outs_fetcher,
}

-- The value that a call gave, if it gave one.
abbrev OnOk : {A : Type 0} → (A → Type 0) → Result GoError A → Type 0
OnOk P (ok a) = P a
OnOk P (err e) = Unit
OnOk P panic = Unit

OnOk-bind :
    {A B : Type 0}
    → (P : A → Type 0) (Q : B → Type 0) (r : Result GoError A) (f : A → Result GoError B) → OnOk P r
    → ((a : A) → P a → OnOk Q (f a))
    → OnOk Q (r >>= f)
OnOk-bind P Q (ok a) f h k = k a h
OnOk-bind P Q (err e) f h k = tt
OnOk-bind P Q panic f h k = tt

OnOk-refl : {A : Type 0} → (r : Result GoError A) → OnOk (λ a. r ≡ ok a) r
OnOk-refl (ok a) = refl
OnOk-refl (err e) = tt
OnOk-refl panic = tt

module _ {K V : Type 0} ⦃c : Comparable K⦄ (P : K → V → Type 0) where
  abbrev IsSound : Map K V → Type 0
  IsSound m = (k : K) (v : V) → lookup k m ≡ some v → P k v

  nil-IsSound : IsSound []
  nil-IsSound k v e = absurd (none-ne-some v (sym (lookup-nil k) ∙ e))

  insert-IsSound : (j : K) (w : V) (m : Map K V) → P j w → IsSound m → IsSound (insert j w m)
  insert-IsSound j w m here rest k v e =
      let found : (if j == k then some w else lookup k m) ≡ some v =
        sym (lookup-insert j k w m) ∙ e in
      elim (Bool-cases (j == k)) [
        | inl q ↦
            let same : some w ≡ some v =
              subst (λ b. (if b then some w else lookup k m) ≡ some v) q found in
            let value : w ≡ v = cc in subst (λ x. P x v) (==_eq j k q) (subst (P j) value here)
        | inr q ↦ rest k v (subst (λ b. (if b then some w else lookup k m) ≡ some v) q found)
      ]

module _ (get_raw_tx : ℕ → Result GoError MsgTx) (utxo_set : Map OutPoint PrevOutput) where
  -- An output of the utxo set, or of the transaction that dcrd gives for the outpoint's hash.
  abbrev pub IsOutput : OutPoint → PrevOutput → Type 0
  IsOutput o p =
      (lookup o utxo_set ≡ some p)
      ⊎ ((tx : MsgTx) × ((get_raw_tx o.hash ≡ ok tx)
            × ((out : TxOut) × ((get_elem? tx.tx_out o.index ≡ some out) × (output_of out ≡ p)))))

  abbrev IsTx : ℕ → MsgTx → Type 0
  IsTx h tx = get_raw_tx h ≡ ok tx

  found_with-IsSound :
      (o : OutPoint) (prev : Option PrevOutput) (found : Found)
      → lookup o utxo_set ≡ prev
      → IsSound IsOutput found.0
      → IsSound IsOutput (found_with o prev found).0
  found_with-IsSound o none (res, txs) e h = h
  found_with-IsSound o (some p) (res, txs) e h = insert-IsSound IsOutput o p res (inl e) h

  find_known-IsSound :
      (os : List OutPoint) (found : Found)
      → IsSound IsOutput found.0
      → IsSound IsOutput (find_known utxo_set os found).0
  unfolding find_known
  find_known-IsSound [] found h = h
  find_known-IsSound (o ∷ os) found h =
      find_known-IsSound os (found_with o (lookup o utxo_set) found)
        (found_with-IsSound o (lookup o utxo_set) found refl h)

  request_txs-IsSound : (hs : Map ℕ (Unit {0})) → OnOk (IsSound IsTx) (request_txs get_raw_tx hs)
  unfolding request_txs
  request_txs-IsSound [] = nil-IsSound IsTx
  request_txs-IsSound ((h, u) ∷ hs) =
      OnOk-bind (λ tx. get_raw_tx h ≡ ok tx) (IsSound IsTx) (get_raw_tx h)
        (λ tx. request_txs get_raw_tx hs >>= λ txs. ok (insert h tx txs)) (OnOk-refl (get_raw_tx h))
        (λ tx e.
          OnOk-bind (IsSound IsTx) (IsSound IsTx) (request_txs get_raw_tx hs)
            (λ txs. ok (insert h tx txs)) (request_txs-IsSound hs)
            (λ txs k. insert-IsSound IsTx h tx txs e k))

  with_output-IsSound :
      (o : OutPoint) (tx : MsgTx) (out : Option TxOut) (res : Map OutPoint PrevOutput)
      → get_raw_tx o.hash ≡ ok tx
      → get_elem? tx.tx_out o.index ≡ out
      → IsSound IsOutput res
      → OnOk (IsSound IsOutput) (with_output o out res)
  with_output-IsSound o tx none res e k h = tt
  with_output-IsSound o tx (some out) res e k h =
      insert-IsSound IsOutput o (output_of out) res (inr (tx, (e, (out, (k, refl))))) h

  with_tx-IsSound :
      (o : OutPoint) (tx : Option MsgTx) (txs : Map ℕ MsgTx) (res : Map OutPoint PrevOutput)
      → lookup o.hash txs ≡ tx
      → IsSound IsTx txs
      → IsSound IsOutput res
      → OnOk (IsSound IsOutput) (with_tx o tx res)
  with_tx-IsSound o none txs res e k h = h
  with_tx-IsSound o (some tx) txs res e k h =
      with_output-IsSound o tx (get_elem? tx.tx_out o.index) res (k o.hash tx e) refl h

  build_outputs-IsSound :
      (txs : Map ℕ MsgTx) (os : List OutPoint) (res : Map OutPoint PrevOutput)
      → IsSound IsTx txs
      → IsSound IsOutput res
      → OnOk (IsSound IsOutput) (build_outputs txs os res)
  unfolding build_outputs
  build_outputs-IsSound txs [] res k h = h
  build_outputs-IsSound txs (o ∷ os) res k h =
      OnOk-bind (IsSound IsOutput) (IsSound IsOutput) (with_tx o (lookup o.hash txs) res)
        (build_outputs txs os) (with_tx-IsSound o (lookup o.hash txs) txs res refl k h)
        (λ res' h'. build_outputs-IsSound txs os res' k h')

  fetch_rest-IsSound :
      (targets : List OutPoint) (found : Found)
      → IsSound IsOutput found.0
      → OnOk (IsSound IsOutput) (fetch_rest get_raw_tx targets found)
  fetch_rest-IsSound targets (res, []) h = h
  fetch_rest-IsSound targets (res, x ∷ hs) h =
      OnOk-bind (IsSound IsTx) (IsSound IsOutput) (request_txs get_raw_tx (x ∷ hs))
        (λ txs. build_outputs txs targets res) (request_txs-IsSound (x ∷ hs))
        (λ txs k. build_outputs-IsSound txs targets res k h)

  of_ok :
      (r : Result GoError (Map OutPoint PrevOutput)) (res : Map OutPoint PrevOutput)
      → r ≡ ok res
      → OnOk (IsSound IsOutput) r
      → IsSound IsOutput res
  of_ok r res e h = subst (OnOk (IsSound IsOutput)) e h

  -- Every output that prevOutsFetcher gives, where it returns, is that of the utxo set, or the output
  -- at the outpoint's index of the transaction that dcrd gives for its hash.
  pub prev_outs_fetcher-IsOutput :
      (targets : List OutPoint) (res : Map OutPoint PrevOutput) (o : OutPoint) (p : PrevOutput)
      → prev_outs_fetcher get_raw_tx utxo_set targets ≡ ok res
      → lookup o res ≡ some p
      → IsOutput o p
  unfolding prev_outs_fetcher
  prev_outs_fetcher-IsOutput targets res o p e =
      let known : Found = find_known utxo_set targets ([], []) in
      of_ok (fetch_rest get_raw_tx targets known) res e
        (fetch_rest-IsSound targets known
          (find_known-IsSound targets ([], []) (nil-IsSound IsOutput)))
        o p
