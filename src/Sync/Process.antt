-- ===== src/Sync/Process.antt =====
-- backend/sync.go: what the server promises of its database and its transactions, and where
-- `preProcessAccountBlock` (backend/svc_account.go) leaves the tip.
use dcrros.Prelude.{ℕ, ◌≡◌, refl, sym, ◌∙◌, String, Bool, true, false, not, Option, none, some, []}
use mathlib.Core.Path.{subst}
use dcrros.Prelude.Keys.{string_comparable}
use dcrros.Prelude.Words.{sub64}
use dcrros.Prelude.Maps.{Map, lookup, insert}
use dcrros.Prelude.Results.{Action, Result, ok, err, panic, throw_if, modify, continue, ◌>>◌}
use dcrros.Prelude.Posts.{Post, Post-bind}
use dcrros.BackendDb.{Error}
use dcrros.Wire.{MsgBlock, Dcrd}
use dcrros.Types.Block.{Op}
use dcrros.Types.Block.Invariant.{iterate_block_ops_keeps}
use dcrros.Sync.{connect_op}
use dcrros.Accounts.{
  Work, lift, read_first, add_amount, apply_op, pre_process_account_block, store_work, work_out,
  extends_tip, not_extending,
}
use dcrros.Sync.Links.{Keeps, IsChain}
use dcrros.Sync.Reorg.{ChainServer, error_as, process}

-- `StoreBalances` moves the tip, and transactions show the tip of the database. `Saved` says that a
-- transaction leaves what later ones need to roll the tip back.
pub record IsServer {S D : Type 0} (server : ChainServer S D) (tip : S → ℕ × ℕ) (db_tip : D → ℕ × ℕ)
    (Stored Saved : S → Type 0) (DbStored : D → Type 0) (block_of : ℕ → Option MsgBlock)
    : Type 1 where
  pub chain : IsChain server.inside tip Stored block_of
  pub connects :
      (op : Op) (s : S) → Keeps tip Stored s (connect_op server.inside.accounts.index op s).1
  pub balances :
      (a : String) (h : ℕ) (s : S) → Keeps tip Stored s (server.inside.accounts.balance a h s).1
  pub stores :
      (bh h : ℕ) (m : Map String ℕ) (s : S)
      → Stored s
      → Post
          (λ _ s'. (tip s' ≡ (bh, h)) × Saved s')
          (server.inside.accounts.store_balances bh h m s)
  pub saves : (s : S) → Stored s → Saved s
  pub updates :
      {A : Type 0} (f : Action Error S A) (d : D) (P : A → ℕ × ℕ → Type 0)
      → DbStored d
      → ((s : S) → tip s ≡ db_tip d → Stored s → Post (λ a s'. P a (tip s') × Saved s') (f s))
      → Post (λ a d'. P a (db_tip d') × DbStored d') (server.update f d)
  pub views :
      (d : D)
      → Post
          (λ t d'. (t ≡ db_tip d) × Keeps db_tip DbStored d d')
          (server.view server.inside.accounts.last_processed_block d)
  pub blocks :
      (h : ℕ) (d : D)
      → Post (λ b d'. Keeps db_tip DbStored d d' × (block_of h ≡ some b)) (server.get_block h d)

throw_if-same : {S : Type 0} (b : Bool) (e : Error) (s : S) → Post (λ _ s'. s' ≡ s) (throw_if b e s)
throw_if-same true e s = tt
throw_if-same false e s = refl

pub Post-error_as :
    {A D : Type 0} (P : A → D → Type 0) (text : String) (r : Result Error A × D)
    → Post P r
    → Post P (error_as text r)
Post-error_as P text (ok a, d) h = h
Post-error_as P text (err e, d) h = tt
Post-error_as P text (panic, d) h = tt

module _ {S D : Type 0} (dcrd : Dcrd) (genesis : ℕ) (server : ChainServer S D) (tip : S → ℕ × ℕ)
    (db_tip : D → ℕ × ℕ) (Stored Saved : S → Type 0) (DbStored : D → Type 0)
    (block_of : ℕ → Option MsgBlock)
    (laws : IsServer server tip db_tip Stored Saved DbStored block_of) where
  -- A call of the callback keeps the tip.
  continue-Keeps :
      {A B : Type 0} (s : S) (r : Result Error A × Work S) (f : A → Action Error (Work S) B)
      → Keeps tip Stored s r.1.conn
      → ((a : A) (w : Work S) → Keeps tip Stored s w.conn → Keeps tip Stored s (f a w).1.conn)
      → Keeps tip Stored s (continue r.0 f r.1).1.conn
  continue-Keeps s (ok a, w) f h k = k a w h
  continue-Keeps s (err e, w) f h k = h
  continue-Keeps s (panic, w) f h k = h

  Keeps-next :
      (s s₁ s₂ : S) → Keeps tip Stored s s₁ → Keeps tip Stored s₁ s₂ → Keeps tip Stored s s₂
  Keeps-next s s₁ s₂ h k = (k.0 ∙ h.0, λ x. k.1 (h.1 x))

  read_first-Keeps :
      (s : S) (height : ℕ) (account : String) (o : Option ℕ) (w : Work S)
      → Keeps tip Stored s w.conn
      → Keeps tip Stored s (read_first server.inside.accounts height account o w).1.conn
  read_first-Keeps s height account (some x) w h = h
  read_first-Keeps s height account none w h =
      continue-Keeps s (lift (server.inside.accounts.balance account (sub64 height 1)) w)
        (λ last. modify (λ w. record w { new_balances = insert account last w.new_balances }))
        (Keeps-next s w.conn _ h (laws.balances account (sub64 height 1) w.conn)) (λ last w' k. k)

  apply_op-Keeps :
      (s : S) (height : ℕ) (op : Op) (w : Work S)
      → Keeps tip Stored s w.conn
      → Keeps tip Stored s (apply_op server.inside.accounts height op w).1.conn
  unfolding apply_op
  apply_op-Keeps s height op w h =
      let db = server.inside.accounts in
      let read = read_first db height op.account (lookup op.account w.new_balances) in
      continue-Keeps s
        (continue (read w).0 (λ _. modify (add_amount db op.account op.amount)) (read w).1)
        (λ _. lift (connect_op db.index op))
        (continue-Keeps s (read w) (λ _. modify (add_amount db op.account op.amount))
          (read_first-Keeps s height op.account (lookup op.account w.new_balances) w h)
          (λ _ w' k. k))
        (λ _ w' k. Keeps-next s w'.conn _ k (laws.connects op w'.conn))

  work_out-Keeps :
      (b : MsgBlock) (prev : Option MsgBlock) (s : S)
      → Keeps tip Stored s
          (work_out server.inside.accounts dcrd genesis server.inside.fetch_prev_outs b prev
            s).1.conn
  unfolding work_out
  work_out-Keeps b prev s =
      iterate_block_ops_keeps dcrd (apply_op server.inside.accounts b.header.height)
        (λ os. lift (server.inside.fetch_prev_outs os)) (λ w. Keeps tip Stored s w.conn)
        (λ op w h. apply_op-Keeps s b.header.height op w h)
        (λ os w h. Keeps-next s w.conn _ h (laws.chain.fetches os w.conn)) b prev
        (record { conn = s; new_balances = [] }) (refl, λ x. x)

  abbrev Processed : ℕ → MsgBlock → S → Type 0
  Processed bh b s' = (tip s' ≡ (bh, b.header.height)) × Saved s'

  store_work-tip :
      (bh : ℕ) (b : MsgBlock) (r : Result Error (Unit {0}) × Work S)
      → Stored r.1.conn
      → Post
          (λ _ s'. Processed bh b s')
          (store_work server.inside.accounts dcrd genesis server.inside.fetch_prev_outs bh
            b.header.height r)
  store_work-tip bh b (ok u, w) st = laws.stores bh b.header.height w.new_balances w.conn st
  store_work-tip bh b (err e, w) st = tt
  store_work-tip bh b (panic, w) st = tt

  -- `preProcessAccountBlock` makes its block the tip.
  pre_process_account_block-tip :
      (bh : ℕ) (b : MsgBlock) (prev : Option MsgBlock) (s : S)
      → Stored s
      → Post
          (λ _ s'. Processed bh b s')
          (pre_process_account_block server.inside.accounts dcrd genesis
            server.inside.fetch_prev_outs bh b prev s)
  unfolding pre_process_account_block
  pre_process_account_block-tip bh b prev s st =
      let db = server.inside.accounts in
      let fetch = server.inside.fetch_prev_outs in
      let work : Action Error S (Unit {0}) = λ s.
        store_work db dcrd genesis fetch bh b.header.height
          (work_out db dcrd genesis fetch b prev s) in
      let check : ℕ × ℕ → Action Error S (Unit {0}) =
        λ t. throw_if (not (extends_tip db dcrd genesis fetch b t)) not_extending in
      Post-bind (λ t s'. (s' ≡ s) × (t ≡ tip s)) (λ _ s'. Processed bh b s')
        (db.last_processed_block s) (λ t. check t >> work) (laws.chain.lasts s)
        (λ t s₁ h.
          Post-bind (λ _ s'. s' ≡ s₁) (λ _ s'. Processed bh b s') (check t s₁) (λ _. work)
            (throw_if-same (not (extends_tip db dcrd genesis fetch b t)) not_extending s₁)
            (λ _ s₂ k.
              store_work-tip bh b (work_out db dcrd genesis fetch b prev s₂)
                ((work_out-Keeps b prev s₂).1 (subst Stored (sym (k ∙ h.0)) st))))

  pub process-tip :
      (bh : ℕ) (b : MsgBlock) (prev : Option MsgBlock) (d : D)
      → DbStored d
      → Post
          (λ _ d'. (db_tip d' ≡ (bh, b.header.height)) × DbStored d')
          (process dcrd genesis server bh b prev d)
  process-tip bh b prev d st =
      laws.updates _ d (λ _ t. t ≡ (bh, b.header.height)) st
        (λ s _ u. pre_process_account_block-tip bh b prev s u)
