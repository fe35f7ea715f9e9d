-- ===== src/Types/Block/Net.antt =====
-- The loops over the inputs and the outputs of a transaction: what they do to one account.
use dcrros.Prelude.{
  ℕ, ◌+◌, ◌≡◌, refl, ◌∙◌, String, ◌&&◌, ◌||◌, Option, none, some, List, [], ◌∷◌, arith, nat_eq, inl,
  inr, Bool-cases,
}
use mathlib.Core.Path.{subst}
use text.Mathlib.Text.{◌==◌ as str_eq}
use dcrros.Prelude.Maps.{Map, lookup}
use dcrros.Prelude.Words.{add64, neg64}
use dcrros.Prelude.Results.{Action, Result, ok, err, panic, pure, continue}
use dcrros.BackendDb.{Error, OutPoint, outpoint_comparable}
use dcrros.Wire.{TxIn, TxOut, Dcrd}
use dcrros.Types.Ops.{OpStatus}
use dcrros.Types.Address.{treasury_account_address, dcr_pk_script_to_account_addr}
use dcrros.Types.Block.Amounts.{counts, prev_spent, in_spent, ins_spent, out_paid, outs_paid}
use dcrros.Types.Block.{
  PrevOutput, Op, TxFlags, signed_for, in_op, out_op, emit, spend_prev, add_tx_in, add_tx_ins_from,
  add_tx_out, add_tx_outs_from,
}

-- The parts of an operation that the loops leave alone.
abbrev pub Keeps : Op → Op → Type 0
Keeps op op' = (op'.status ≡ op.status) × ((op'.tx ≡ op.tx) × (op'.tree ≡ op.tree))

-- A callback that adds the amounts of the account's operations to a measure of its state, and a
-- source of previous outputs that leaves it alone and gives true ones.
module _ {S : Type 0} (dcrd : Dcrd) (apply_op : Op → Action Error S (Unit {0}))
    (prev_of : OutPoint → Option PrevOutput) (a : String) (measure : S → ℕ)
    (adds : (op : Op) (s s' : S)
      → apply_op op s ≡ (ok tt, s')
      → add64 (measure s') 0 ≡ add64 (measure s) (counts a op.account op.amount)) where
  -- If the call returns an operation, the measure grew by the number, as an int64.
  abbrev pub Grows : Op → ℕ → ℕ → Result Error Op × S → Type 0
  Grows op m x (ok op', s') = Keeps op op' × (add64 (measure s') 0 ≡ add64 m x)
  Grows op m x (err e, s') = Unit
  Grows op m x (panic, s') = Unit

  pub Grows-bind :
      (op : Op) (m x y : ℕ) (r : Result Error Op × S) (g : Op → Action Error S Op)
      → Grows op m x r
      → ((op' : Op) (s' : S) → Keeps op op' → Grows op' (measure s') y (g op' s'))
      → Grows op m (x + y) (continue r.0 g r.1)
  Grows-bind op m x y (ok op', s') g h k = then_on (g op' s') (k op' s' h.0)
    where
      then_on : (q : Result Error Op × S) → Grows op' (measure s') y q → Grows op m (x + y) q
      then_on (ok op'', s'') q =
          ((q.0.0 ∙ h.0.0, (q.0.1.0 ∙ h.0.1.0, q.0.1.1 ∙ h.0.1.1)), omega (arith, q.1, h.1))
      then_on (err e, s'') q = tt
      then_on (panic, s'') q = tt
  Grows-bind op m x y (err e, s') g h k = tt
  Grows-bind op m x y (panic, s') g h k = tt

  Grows-emit :
      (op op₀ : Op) (s : S)
      → Keeps op₀ op
      → Grows op₀ (measure s) (counts a op.account op.amount) (emit dcrd apply_op op s)
  unfolding emit
  Grows-emit op op₀ s k = on (apply_op op s) refl
    where
      on :
          (r : Result Error (Unit {0}) × S)
          → apply_op op s ≡ r
          → Grows op₀
              (measure s)
              (counts a op.account op.amount)
              (continue r.0 (λ _. pure (record op { op_index = op.op_index + 1 })) r.1)
      on (ok u, s') e = ((k.0, (k.1.0, k.1.1)), adds op s s' e)
      on (err e', s') e = tt
      on (panic, s') e = tt

  pub Grows-eq :
      (op : Op) (m x y : ℕ) (r : Result Error Op × S)
      → add64 x 0 ≡ add64 y 0
      → Grows op m x r
      → Grows op m y r
  Grows-eq op m x y (ok op', s') e h = (h.0, omega (arith, h.1))
  Grows-eq op m x y (err e', s') e h = tt
  Grows-eq op m x y (panic, s') e h = tt

  abbrev spent : TxFlags → ℕ → TxIn → ℕ
  spent = in_spent dcrd prev_of a

  abbrev paid : TxFlags → ℕ → TxOut → ℕ
  paid = out_paid dcrd prev_of a

  counts-signed :
      (account : String) (st : OpStatus) (x : ℕ)
      → add64 (counts a account (signed_for st x)) 0 ≡ add64 (signed_for st (counts a account x)) 0
  counts-signed account st x = ground arith

  counts-neg :
      (account : String) (st : OpStatus) (x : ℕ)
      → add64 (counts a account (signed_for st (neg64 x))) 0
        ≡ add64 (signed_for st (neg64 (counts a account x))) 0
  counts-neg account st x = ground arith

  -- An operation for an input.
  Grows-in_op :
      (i : ℕ) (in_ : TxIn) (prev : Option PrevOutput) (version : ℕ) (account : String) (amount : ℕ)
      (op : Op) (s : S)
      → Grows op
          (measure s)
          (signed_for op.status (neg64 (counts a account amount)))
          (emit dcrd apply_op (in_op i in_ prev version account (neg64 amount) op) s)
  unfolding in_op
  Grows-in_op i in_ prev version account amount op s =
      let op' = in_op i in_ prev version account (neg64 amount) op in
      Grows-eq op (measure s) (counts a op'.account op'.amount)
        (signed_for op.status (neg64 (counts a account amount))) (emit dcrd apply_op op' s)
        (counts-neg account op.status amount) (Grows-emit op' op s ((refl, (refl, refl))))

  -- An operation for an output.
  Grows-out_op :
      (i : ℕ) (out : TxOut) (account : String) (op : Op) (s : S)
      → Grows op
          (measure s)
          (signed_for op.status (counts a account out.value))
          (emit dcrd apply_op (out_op i out account op) s)
  unfolding out_op
  Grows-out_op i out account op s =
      let op' = out_op i out account op in
      Grows-eq op (measure s) (counts a op'.account op'.amount)
        (signed_for op.status (counts a account out.value)) (emit dcrd apply_op op' s)
        (counts-signed account op.status out.value) (Grows-emit op' op s ((refl, (refl, refl))))

  signed_zero :
      (st : OpStatus)
      → (add64 0 0 ≡ add64 (signed_for st (neg64 0)) 0) × (add64 0 0 ≡ add64 (signed_for st 0) 0)
  signed_zero st = (ground arith, ground arith)

  Grows-add_tx_out :
      (f : TxFlags) (i : ℕ) (out : TxOut) (op : Op) (s : S)
      → Grows op
          (measure s)
          (signed_for op.status (paid f i out))
          (add_tx_out dcrd apply_op f i out op s)
  unfolding add_tx_out out_paid
  Grows-add_tx_out f i out op s =
      let none_paid = (signed_zero op.status).1 in
      let account = dcr_pk_script_to_account_addr dcrd out.version out.pk_script in
      elim (Bool-cases (nat_eq out.value 0)) [
        | inl t ↦ rw t ((refl, (refl, refl)), omega (arith, none_paid))
        | inr t ↦ rw t (elim (Bool-cases ((f.is_tadd || f.is_tbase) && nat_eq i 0)) [
          | inl t' ↦ rw t' (Grows-out_op i out treasury_account_address op s)
          | inr t' ↦ rw t' (elim (Bool-cases (str_eq account "")) [
            | inl e ↦ rw e ((refl, (refl, refl)), omega (arith, none_paid))
            | inr e ↦ rw e (Grows-out_op i out account op s)
          ])
        ])
      ]

  Grows-spend_prev :
      (i : ℕ) (in_ : TxIn) (op : Op) (s : S) (q r : Option PrevOutput)
      → ((p : PrevOutput) → q ≡ some p → r ≡ some p)
      → Grows op
          (measure s)
          (signed_for op.status (neg64 (prev_spent dcrd prev_of a r)))
          (spend_prev dcrd apply_op i in_ op q s)
  unfolding spend_prev prev_spent
  Grows-spend_prev i in_ op s none r h = tt
  Grows-spend_prev i in_ op s (some p) r h = rw (h p refl) (
      let none_spent = (signed_zero op.status).0 in
      let account = dcr_pk_script_to_account_addr dcrd p.version p.pk_script in
      elim (Bool-cases (str_eq account "")) [
        | inl e ↦ rw e ((refl, (refl, refl)), omega (arith, none_spent))
        | inr e ↦ rw e (Grows-in_op i in_ (some p) p.version account p.amount op s)
      ])

  pub signed-sum :
      (st : OpStatus) (x y : ℕ)
      → (add64 (signed_for st (neg64 x) + signed_for st (neg64 y)) 0
          ≡ add64 (signed_for st (neg64 (x + y))) 0)
        × (add64 (signed_for st x + signed_for st y) 0 ≡ add64 (signed_for st (x + y)) 0)
  signed-sum st x y = (ground arith, ground arith)

  pub Grows-add_tx_outs_from :
      (f : TxFlags) (i : ℕ) (outs : List TxOut) (op : Op) (s : S)
      → Grows op
          (measure s)
          (signed_for op.status (outs_paid dcrd prev_of a f i outs))
          (add_tx_outs_from dcrd apply_op f i outs op s)
  unfolding add_tx_outs_from outs_paid
  Grows-add_tx_outs_from f i [] op s =
      ((refl, (refl, refl)), omega (arith, (signed_zero op.status).1))
  Grows-add_tx_outs_from f i (out ∷ outs) op s =
      let x = paid f i out in
      let y = outs_paid dcrd prev_of a f (i + 1) outs in
      let r = add_tx_out dcrd apply_op f i out op s in
      let g = add_tx_outs_from dcrd apply_op f (i + 1) outs in
      Grows-eq op (measure s) (signed_for op.status x + signed_for op.status y)
        (signed_for op.status (x + y)) (continue r.0 g r.1) (signed-sum op.status x y).1
        (Grows-bind op (measure s) (signed_for op.status x) (signed_for op.status y) r g
          (Grows-add_tx_out f i out op s)
          (λ op' s' k.
            subst (λ st. Grows op' (measure s') (signed_for st y) (g op' s')) k.0
              (Grows-add_tx_outs_from f (i + 1) outs op' s')))

  module _ (prevs : Map OutPoint PrevOutput)
      (true_prevs : (o : OutPoint) (p : PrevOutput)
        → lookup o prevs ≡ some p
        → prev_of o ≡ some p) where
    Grows-add_tx_in :
        (f : TxFlags) (i : ℕ) (in_ : TxIn) (op : Op) (s : S)
        → Grows op
            (measure s)
            (signed_for op.status (neg64 (spent f i in_)))
            (add_tx_in dcrd apply_op f prevs i in_ op s)
    unfolding add_tx_in in_spent
    Grows-add_tx_in f i in_ op s =
        let none_spent = (signed_zero op.status).0 in
        elim (Bool-cases (nat_eq i 0 && (f.is_vote || f.is_coinbase || f.is_tbase))) [
          | inl t ↦ rw t ((refl, (refl, refl)), omega (arith, none_spent))
          | inr t ↦ rw t (elim (Bool-cases f.is_tspend) [
            | inl t' ↦ rw t' (Grows-in_op i in_ none 0 treasury_account_address in_.value_in op s)
            | inr t' ↦ rw t' (
                Grows-spend_prev i in_ op s (lookup in_.previous_out_point prevs)
                  (prev_of in_.previous_out_point) (true_prevs in_.previous_out_point))
          ])
        ]

    pub Grows-add_tx_ins_from :
        (f : TxFlags) (i : ℕ) (ins : List TxIn) (op : Op) (s : S)
        → Grows op
            (measure s)
            (signed_for op.status (neg64 (ins_spent dcrd prev_of a f i ins)))
            (add_tx_ins_from dcrd apply_op f prevs i ins op s)
    unfolding add_tx_ins_from ins_spent
    Grows-add_tx_ins_from f i [] op s =
        ((refl, (refl, refl)), omega (arith, (signed_zero op.status).0))
    Grows-add_tx_ins_from f i (in_ ∷ ins) op s =
        let x = spent f i in_ in
        let y = ins_spent dcrd prev_of a f (i + 1) ins in
        let r = add_tx_in dcrd apply_op f prevs i in_ op s in
        let g = add_tx_ins_from dcrd apply_op f prevs (i + 1) ins in
        Grows-eq op (measure s) (signed_for op.status (neg64 x) + signed_for op.status (neg64 y))
          (signed_for op.status (neg64 (x + y))) (continue r.0 g r.1) (signed-sum op.status x y).0
          (Grows-bind op (measure s) (signed_for op.status (neg64 x))
            (signed_for op.status (neg64 y)) r g (Grows-add_tx_in f i in_ op s)
            (λ op' s' k.
              subst (λ st. Grows op' (measure s') (signed_for st (neg64 y)) (g op' s')) k.0
                (Grows-add_tx_ins_from f (i + 1) ins op' s')))
