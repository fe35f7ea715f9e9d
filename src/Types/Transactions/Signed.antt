-- ===== src/Types/Transactions/Signed.antt =====
-- types/transactions.go: what `CombineTxSigs` leaves in the transaction.
use dcrros.Prelude.{ℕ, ◌≡◌, refl, List, [], ◌∷◌, ◌++◌, arith}
use dcrros.Prelude.Lists.{length, length-append}
use dcrros.Prelude.Results.{ok, err}
use dcrros.Wire.{TxIn, MsgTx}
use dcrros.Types.Errors.{GoError}
use dcrros.Types.Rosetta.{Signature}
use dcrros.Types.Transactions.Signing.{SignLib}
use dcrros.Types.Transactions.Signatures.{sig_script, sign_ins, combine_tx_sigs}

-- The first inputs with these scripts, the others as they were.
abbrev pub with_scripts : List (List ℕ) → List TxIn → List TxIn
with_scripts [] ins = ins
with_scripts (script ∷ scripts) [] = []
with_scripts (script ∷ scripts) (in_ ∷ ins) =
    record in_ { signature_script = script } ∷ with_scripts scripts ins

module _ (lib : SignLib) where
  -- Signatures that pass the checks, and their scripts.
  abbrev pub Scripts : List Signature → List (List ℕ) → Type 0
  Scripts [] [] = Unit
  Scripts (sig ∷ sigs) (script ∷ scripts) = (sig_script lib sig ≡ ok script) × Scripts sigs scripts
  Scripts _ _ = ⊥

  sign_ins-Scripts :
      (sigs : List Signature) (scripts : List (List ℕ)) (ins : List TxIn)
      → Scripts sigs scripts
      → length sigs ≡ length ins
      → sign_ins lib sigs ins ≡ (ok tt, with_scripts scripts ins)
  unfolding sign_ins
  sign_ins-Scripts [] [] ins h e = refl
  sign_ins-Scripts [] (script ∷ scripts) ins h e = absurd h
  sign_ins-Scripts (sig ∷ sigs) [] ins h e = absurd h
  sign_ins-Scripts (sig ∷ sigs) (script ∷ scripts) [] h e = absurd (omega arith)
  sign_ins-Scripts (sig ∷ sigs) (script ∷ scripts) (in_ ∷ ins) (h, hs) e =
      rw (h, sign_ins-Scripts sigs scripts ins hs (omega arith)) refl

  -- If there is a signature for every input and each passes the checks, CombineTxSigs succeeds; each
  -- input has the script of its signature, and nothing else changes.
  pub combine_tx_sigs-Scripts :
      (sigs : List Signature) (scripts : List (List ℕ)) (tx : MsgTx)
      → Scripts sigs scripts
      → length sigs ≡ length tx.tx_in
      → combine_tx_sigs lib sigs tx ≡ (ok tt, record tx { tx_in = with_scripts scripts tx.tx_in })
  unfolding combine_tx_sigs
  combine_tx_sigs-Scripts sigs scripts tx h e =
      ground (arith, sign_ins-Scripts sigs scripts tx.tx_in h e)

  sign_ins_failed :
      (sigs : List Signature) (scripts : List (List ℕ)) (bad : Signature) (more : List Signature)
      (ins : List TxIn) (e : GoError)
      → Scripts sigs scripts
      → sig_script lib bad ≡ err e
      → length (sigs ++ bad ∷ more) ≡ length ins
      → sign_ins lib (sigs ++ bad ∷ more) ins ≡ (err e, with_scripts scripts ins)
  unfolding sign_ins
  sign_ins_failed sigs scripts bad more [] e h k n =
      absurd (omega (arith, length-append sigs (bad ∷ more)))
  sign_ins_failed [] [] bad more (in_ ∷ ins) e h k n = rw k refl
  sign_ins_failed [] (script ∷ scripts) bad more (in_ ∷ ins) e h k n = absurd h
  sign_ins_failed (sig ∷ sigs) [] bad more (in_ ∷ ins) e h k n = absurd h
  sign_ins_failed (sig ∷ sigs) (script ∷ scripts) bad more (in_ ∷ ins) e (h, hs) k n =
      rw (h, sign_ins_failed sigs scripts bad more ins e hs k (omega arith)) refl

  -- If a signature fails a check, CombineTxSigs gives the error and has written the scripts of the
  -- signatures before it to their inputs; the inputs from there on are as they were.
  pub combine_tx_sigs_failed :
      (sigs : List Signature) (scripts : List (List ℕ)) (bad : Signature) (more : List Signature)
      (tx : MsgTx) (e : GoError)
      → Scripts sigs scripts
      → sig_script lib bad ≡ err e
      → length (sigs ++ bad ∷ more) ≡ length tx.tx_in
      → combine_tx_sigs lib (sigs ++ bad ∷ more) tx
        ≡ (err e, record tx { tx_in = with_scripts scripts tx.tx_in })
  unfolding combine_tx_sigs
  combine_tx_sigs_failed sigs scripts bad more tx e h k n =
      ground (arith, sign_ins_failed sigs scripts bad more tx.tx_in e h k n)
