-- ===== src/Accounts/Balances.antt =====
-- backend/svc_account.go: the balances of a block, account by account.
use dcrros.Prelude.{
  Bool, true, false, not, ℕ, ◌≡◌, refl, sym, ap, ◌∙◌, String, Option, none, some, List, [], arith,
  if◌then◌else◌,
}
use mathlib.Core.Path.{subst}
use text.Mathlib.Text.{◌==◌ as str_eq}
use dcrros.Prelude.Keys.{string_comparable}
use dcrros.Prelude.Maps.{Map, lookup, insert, lookup-insert, lookup-insert_self, lookup-nil}
use dcrros.Prelude.Words.{add64, sub64}
use dcrros.Prelude.Results.{Action, Result, ok, err, panic, modify, throw_if, continue, ◌>>◌}
use dcrros.BackendDb.{Error, OutPoint, outpoint_comparable}
use dcrros.Wire.{MsgBlock, Dcrd}
use dcrros.Types.Block.{PrevOutput, Op}
use dcrros.Types.Block.Amounts.{counts, block_net}
use dcrros.Types.Block.Whole.{iterate_block_ops-net}
use dcrros.Sync.{connect_op}
use dcrros.Accounts.{
  Work, AccountDb, lift, amount_at, read_first, add_amount, apply_op, work_out, store_work,
  not_extending, extends_tip, pre_process_account_block,
}

keep_if :
    (account a : String) (v : ℕ) (f : String → ℕ)
    → v ≡ f account
    → (if str_eq account a then v else f a) ≡ f a
keep_if account a v f e = ground (arith, string_comparable.equal_iff account a)

add_if :
    (account a : String) (base amount : ℕ) (f : String → ℕ)
    → base ≡ f account
    → add64 (if str_eq account a then add64 base amount else f a) 0
      ≡ add64 (f a) (counts a account amount)
add_if account a base amount f e = ground (arith, string_comparable.equal_iff account a)

-- A database whose reads give the balances it shows, and whose utxo index is apart from them.
module _ {S : Type 0} (db : AccountDb S) (bal : S → String → ℕ → ℕ)
    (reads : (a : String) (h : ℕ) (s s' : S) (v : ℕ)
      → db.balance a h s ≡ (ok v, s')
      → (s' ≡ s) × (v ≡ bal s a h))
    (keeps : (op : Op) (s s' : S)
      → connect_op db.index op s ≡ (ok tt, s')
      → (a : String) (h : ℕ) → bal s' a h ≡ bal s a h) where
  -- The balance of an account at the block, as far as it is worked out.
  abbrev shown_from : ℕ → String → S → Option ℕ → ℕ
  shown_from height a s none = bal s a (sub64 height 1)
  shown_from height a s (some x) = x

  abbrev pub shown : ℕ → String → Work S → ℕ
  shown height a w = shown_from height a w.conn (lookup a w.new_balances)

  abbrev AfterRead : ℕ → String → Work S → Result Error (Unit {0}) × Work S → Type 0
  AfterRead height account w (ok u, w') =
      (lookup account w'.new_balances ≡ some (shown height account w))
      × ((a : String) → shown height a w' ≡ shown height a w)
  AfterRead height account w (err e, w') = Unit
  AfterRead height account w (panic, w') = Unit

  shown-insert :
      (height : ℕ) (account a : String) (v : ℕ) (w : Work S)
      → shown height a (record w { new_balances = insert account v w.new_balances })
        ≡ (if str_eq account a then v else shown height a w)
  shown-insert height account a v w =
      ap (shown_from height a w.conn) (lookup-insert account a v w.new_balances)
      ∙ ground (arith, string_comparable.equal_iff account a)

  read_first-AfterRead :
      (height : ℕ) (account : String) (q : Option ℕ) (w : Work S)
      → lookup account w.new_balances ≡ q
      → AfterRead height account w (read_first db height account q w)
  read_first-AfterRead height account (some x) w e =
      (e ∙ ap (λ q. some (shown_from height account w.conn q)) (sym e), λ a. refl)
  read_first-AfterRead height account none w e =
      on (db.balance account (sub64 height 1) w.conn) refl
    where
      on :
          (r : Result Error ℕ × S)
          → db.balance account (sub64 height 1) w.conn ≡ r
          → AfterRead height account w (
              continue r.0
                (λ last.
                  modify (λ w. record w { new_balances = insert account last w.new_balances }))
                (record w { conn = r.1 }))
      on (ok v, s') e' =
          let read = reads account (sub64 height 1) w.conn s' v e' in
          let now : v ≡ shown height account w =
            read.1 ∙ ap (shown_from height account w.conn) (sym e) in
          (
            lookup-insert_self account v w.new_balances ∙ ap some now,
            λ a.
                subst
                  (λ s.
                    shown height a
                      (record { conn = s; new_balances = insert account v w.new_balances })
                    ≡ shown height a w)
                  (sym read.0)
                  (shown-insert height account a v w
                    ∙ keep_if account a v (λ k. shown height k w) now),
          )
      on (err x, s') e' = tt
      on (panic, s') e' = tt

  -- If the call returns, the balance shown for an account grew by the amount, as an int64.
  abbrev Adds : ℕ → String → ℕ → Work S → Result Error (Unit {0}) × Work S → Type 0
  Adds height a x w (ok u, w') = add64 (shown height a w') 0 ≡ add64 (shown height a w) x
  Adds height a x w (err e, w') = Unit
  Adds height a x w (panic, w') = Unit

  shown_from-keeps :
      (height : ℕ) (a : String) (s s' : S) (q : Option ℕ)
      → ((a : String) (h : ℕ) → bal s' a h ≡ bal s a h)
      → shown_from height a s' q ≡ shown_from height a s q
  shown_from-keeps height a s s' none k = k a (sub64 height 1)
  shown_from-keeps height a s s' (some x) k = refl

  -- The amount is added to the balance that was read.
  shown-add_amount :
      (height : ℕ) (account a : String) (amount : ℕ) (w : Work S)
      → lookup account w.new_balances ≡ some (shown height account w)
      → add64 (shown height a (add_amount db account amount w)) 0
        ≡ add64 (shown height a w) (counts a account amount)
  shown-add_amount height account a amount w e =
      let base = amount_at (lookup account w.new_balances) in
      ap (λ x. add64 x 0) (shown-insert height account a (add64 base amount) w)
      ∙ add_if account a base amount (λ k. shown height k w) (ap amount_at e)

  Adds-apply_op :
      (height : ℕ) (a : String) (op : Op) (w : Work S)
      → Adds height a (counts a op.account op.amount) w (apply_op db height op w)
  unfolding apply_op
  Adds-apply_op height a op w =
      after_read (read_first db height op.account (lookup op.account w.new_balances) w)
        (read_first-AfterRead height op.account (lookup op.account w.new_balances) w refl)
    where
      after_connect :
          (w' : Work S) (r : Result Error (Unit {0}) × S)
          → connect_op db.index op w'.conn ≡ r
          → add64 (shown height a w') 0 ≡ add64 (shown height a w) (counts a op.account op.amount)
          → Adds height a (counts a op.account op.amount) w (r.0, record w' { conn = r.1 })
      after_connect w' (ok u, s') e h =
          ap (λ x. add64 x 0)
            (shown_from-keeps height a w'.conn s' (lookup a w'.new_balances)
              (keeps op w'.conn s' e))
          ∙ h
      after_connect w' (err x, s') e h = tt
      after_connect w' (panic, s') e h = tt

      after_read :
          (r : Result Error (Unit {0}) × Work S)
          → AfterRead height op.account w r
          → Adds height a (counts a op.account op.amount) w (
              continue
                (continue r.0 (λ _. modify (add_amount db op.account op.amount)) r.1).0
                (λ _. lift (connect_op db.index op))
                (continue r.0 (λ _. modify (add_amount db op.account op.amount)) r.1).1)
      after_read (ok u, w') h =
          let w'' = add_amount db op.account op.amount w' in
          after_connect w'' (connect_op db.index op w''.conn) refl (
            shown-add_amount height op.account a op.amount w' (h.0 ∙ ap some (sym (h.1 op.account)))
            ∙ ap (λ x. add64 x (counts a op.account op.amount)) (h.1 a))
      after_read (err x, w') h = tt
      after_read (panic, w') h = tt

  module _ (dcrd : Dcrd) (genesis : ℕ)
      (fetch : List OutPoint → Action Error S (Map OutPoint PrevOutput))
      (prev_of : OutPoint → Option PrevOutput)
      (fetches : (os : List OutPoint) (s s' : S) (m : Map OutPoint PrevOutput)
        → fetch os s ≡ (ok m, s')
        → (s' ≡ s)
          × ((o : OutPoint) (p : PrevOutput) → lookup o m ≡ some p → prev_of o ≡ some p)) where
    lift-fetch :
        (h : ℕ) (a : String) (os : List OutPoint) (w w' : Work S) (m : Map OutPoint PrevOutput)
        → lift (fetch os) w ≡ (ok m, w')
        → (shown h a w' ≡ shown h a w)
          × ((o : OutPoint) (p : PrevOutput) → lookup o m ≡ some p → prev_of o ≡ some p)
    lift-fetch h a os w w' m e =
        let f = fetches os w.conn w'.conn m (ap (λ r. (r.0, r.1.conn)) e) in
        (
          ap (λ s. shown_from h a s (lookup a w'.new_balances)) f.0
              ∙ ap (λ r. shown_from h a w.conn (lookup a r.1.new_balances)) (sym e),
          f.1,
        )

    work_out-net :
        (b : MsgBlock) (prev : Option MsgBlock) (s : S) (w : Work S) (a : String)
        → work_out db dcrd genesis fetch b prev s ≡ (ok tt, w)
        → add64 (shown b.header.height a w) 0
          ≡ add64 (bal s a (sub64 b.header.height 1)) (block_net dcrd prev_of a b prev)
    unfolding work_out
    work_out-net b prev s w a e =
        let h = b.header.height in
        iterate_block_ops-net dcrd (apply_op db h) (λ os. lift (fetch os)) prev_of a (shown h a)
          (λ op w w' e'.
            subst (Adds h a (counts a op.account op.amount) w) e' (Adds-apply_op h a op w))
          (λ os w w' m e'. lift-fetch h a os w w' m e') b prev
          (record { conn = s; new_balances = [] }) w e
        ∙ ap (λ q. add64 (shown_from h a s q) (block_net dcrd prev_of a b prev)) (lookup-nil a)

    -- What a call that returned has stored.
    abbrev pub Stored : ℕ → MsgBlock → Option MsgBlock → S → S → Type 0
    Stored bh b prev s s' =
        (w : Work S) × ((db.store_balances bh b.header.height w.new_balances w.conn ≡ (ok tt, s'))
          × ((a : String)
              → add64 (shown b.header.height a w) 0
                ≡ add64 (bal s a (sub64 b.header.height 1)) (block_net dcrd prev_of a b prev)))

    store_work-Stored :
        (bh : ℕ) (b : MsgBlock) (prev : Option MsgBlock) (s s' : S)
        → store_work db dcrd genesis fetch bh b.header.height
            (work_out db dcrd genesis fetch b prev s)
          ≡ (ok tt, s')
        → Stored bh b prev s s'
    store_work-Stored bh b prev s s' = on (work_out db dcrd genesis fetch b prev s) refl
      where
        on :
            (r : Result Error (Unit {0}) × Work S)
            → work_out db dcrd genesis fetch b prev s ≡ r
            → store_work db dcrd genesis fetch bh b.header.height r ≡ (ok tt, s')
            → Stored bh b prev s s'
        on (ok u, w) e f = (w, (f, λ a. work_out-net b prev s w a e))
        on (err x, w) e f = cc
        on (panic, w) e f = cc

    -- If `preProcessAccountBlock` returns without an error, for a nil utxo set, then in the balances
    -- that it has stored each account has its balance at the height before, plus the outputs of
    -- the block that pay to it, less the inputs that spend from it, as an int64, and, if the block
    -- disapproves its parent, with the parent's regular transactions reversed. An account with no
    -- new balance keeps that at the height before. The reads of the database give the balances it
    -- shows and change nothing, its utxo index leaves them alone, and the previous outputs fetched
    -- are the true ones.
    pub pre_process_account_block-net :
        ((s : S) → (db.last_processed_block s).1 ≡ s)
        → (bh : ℕ) (b : MsgBlock) (prev : Option MsgBlock) (s s' : S)
        → pre_process_account_block db dcrd genesis fetch bh b prev s ≡ (ok tt, s')
        → Stored bh b prev s s'
    unfolding pre_process_account_block
    pre_process_account_block-net tips bh b prev s s' e = on (db.last_processed_block s) (tips s) e
      where
        checked :
            (r : Bool) (s₁ : S)
            → s₁ ≡ s
            → continue
                (throw_if r not_extending s₁).0
                (λ _ s.
                  store_work db dcrd genesis fetch bh b.header.height
                    (work_out db dcrd genesis fetch b prev s))
                (throw_if r not_extending s₁).1
              ≡ (ok tt, s')
            → Stored bh b prev s s'
        checked true s₁ q e = cc
        checked false s₁ q e =
            subst (λ t. Stored bh b prev t s') q (store_work-Stored bh b prev s₁ s' e)

        on :
            (r : Result Error (ℕ × ℕ) × S)
            → r.1 ≡ s
            → continue r.0
                (λ tip.
                  throw_if (not (extends_tip db dcrd genesis fetch b tip)) not_extending >> (λ s.
                    store_work db dcrd genesis fetch bh b.header.height
                      (work_out db dcrd genesis fetch b prev s)))
                r.1
              ≡ (ok tt, s')
            → Stored bh b prev s s'
        on (ok tip, s₁) q e = checked (not (extends_tip db dcrd genesis fetch b tip)) s₁ q e
        on (err x, s₁) q e = cc
        on (panic, s₁) q e = cc
