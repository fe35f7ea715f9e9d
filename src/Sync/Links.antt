-- ===== src/Sync/Links.antt =====
-- backend/sync.go: the blocks between the tip that `rollbackDbChain` leaves and its target.
use dcrros.Prelude.{
  ℕ, ◌≡◌, true, refl, sym, ap, ◌∙◌, inl, inr, Bool-cases, Option, none, some, List, [], ◌∷◌, ◌++◌,
}
use dcrros.Prelude.Words.{sub64, slt}
use mathlib.Core.Path.{subst}
use dcrros.Prelude.Results.{pure, ◌>>=◌, ◌>>◌}
use dcrros.Prelude.Posts.{Post, Post-bind, Post-map, Post-any}
use dcrros.BackendDb.{OutPoint}
use dcrros.Wire.{MsgBlock, Dcrd}
use dcrros.Types.Block.{Op, vote_bits_approves_parent, iterate_block_ops}
use dcrros.Types.Block.Invariant.{iterate_block_ops_keeps}
use dcrros.Sync.{roll_back_op}
use dcrros.Sync.RollBack.{ChainDb, disapproved_parent, roll_back_block, roll_back_to}

-- A state with the same tip, which has the blocks below it if the first has them.
abbrev pub Keeps : {S : Type 0} → (S → ℕ × ℕ) → (S → Type 0) → S → S → Type 0
Keeps tip Stored s s' = (tip s' ≡ tip s) × (Stored s → Stored s')

-- A database with a tip, which only `RollbackTip` moves among the calls of sync.go, and the blocks
-- that dcrd has. `Stored` says that the database has what it needs to roll the tip back, which a
-- rollback of the tip keeps.
pub record IsChain {S : Type 0} (db : ChainDb S) (tip : S → ℕ × ℕ) (Stored : S → Type 0)
    (block_of : ℕ → Option MsgBlock) : Type 0 where
  pub lasts : (s : S) → Post (λ t s'. (s' ≡ s) × (t ≡ tip s)) (db.accounts.last_processed_block s)
  pub blocks :
      (h : ℕ) (s : S)
      → Post (λ b s'. Keeps tip Stored s s' × (block_of h ≡ some b)) (db.get_block h s)
  pub fetches : (os : List OutPoint) (s : S) → Keeps tip Stored s (db.fetch_prev_outs os s).1
  pub ops : (op : Op) (s : S) → Keeps tip Stored s (roll_back_op db.accounts.index op s).1
  pub rolls :
      (t : ℕ × ℕ) (s : S)
      → Stored s
      → tip s ≡ t
      → slt 0 t.1 ≡ true
      → Post (λ _ s'. Stored s' × ((tip s').1 ≡ sub64 t.1 1)) (db.roll_back_tip t.0 t.1 s)

-- The hashes of a chain of blocks, newer ones first, from one hash down to the parent of the last.
module _ (block_of : ℕ → Option MsgBlock) where
  abbrev pub Links : List ℕ → ℕ → ℕ → Type 0
  Links [] h end = h ≡ end
  Links (m ∷ ms) h end =
      (m ≡ h) × ((b : MsgBlock) × ((block_of m ≡ some b) × Links ms b.header.prev_block end))

  pub Links-snoc :
      (ms : List ℕ) (h end : ℕ) (b : MsgBlock)
      → Links ms h end
      → block_of end ≡ some b
      → Links (ms ++ end ∷ []) h b.header.prev_block
  Links-snoc [] h end b e k = (sym e, (b, (k, refl)))
  Links-snoc (m ∷ ms) h end b (e, (c, (f, rest))) k =
      (e, (c, (f, Links-snoc ms c.header.prev_block end b rest k)))

abbrev pub OnSome : {A S : Type 0} → (A → S → Type 0) → Option A → S → Type 0
OnSome P none s = ⊥
OnSome P (some a) s = P a s

module _ {S : Type 0} (dcrd : Dcrd) (db : ChainDb S) (tip : S → ℕ × ℕ) (Stored : S → Type 0)
    (block_of : ℕ → Option MsgBlock) (chain : IsChain db tip Stored block_of) where
  Keeps-then :
      (s s₁ s₂ : S) → Keeps tip Stored s s₁ → Keeps tip Stored s₁ s₂ → Keeps tip Stored s s₂
  Keeps-then s s₁ s₂ h k = (k.0 ∙ h.0, λ x. k.1 (h.1 x))

  disapproved_parent-Keeps :
      (b : MsgBlock) (s : S) → Post (λ _ s'. Keeps tip Stored s s') (disapproved_parent dcrd db b s)
  disapproved_parent-Keeps b s = elim (Bool-cases (vote_bits_approves_parent b.header.vote_bits)) [
    | inl e ↦ rw e (refl, λ x. x)
    | inr e ↦ rw e (
        Post-bind (λ b s'. Keeps tip Stored s s' × (block_of _ ≡ some b))
          (λ _ s'. Keeps tip Stored s s') (db.get_block b.header.prev_block s)
          (λ prev. pure (some prev)) (chain.blocks b.header.prev_block s) (λ prev s' h. h.0))
  ]

  iterate-Keeps :
      (b : MsgBlock) (prev : Option MsgBlock) (s : S)
      → Keeps tip Stored s
          (iterate_block_ops dcrd (roll_back_op db.accounts.index) db.fetch_prev_outs b prev s).1
  iterate-Keeps b prev s =
      iterate_block_ops_keeps dcrd (roll_back_op db.accounts.index) db.fetch_prev_outs
        (λ s'. Keeps tip Stored s s')
        (λ op s' h. Keeps-then s s' (roll_back_op db.accounts.index op s').1 h (chain.ops op s'))
        (λ os s' h. Keeps-then s s' (db.fetch_prev_outs os s').1 h (chain.fetches os s')) b prev s
        (refl, λ x. x)

  -- `rollbackTip` of a tip above height 0 leaves the height below.
  pub roll_back_block-tip :
      (t : ℕ × ℕ) (s : S)
      → Stored s
      → tip s ≡ t
      → slt 0 t.1 ≡ true
      → Post (λ _ s'. Stored s' × ((tip s').1 ≡ sub64 t.1 1)) (roll_back_block dcrd db t s)
  unfolding roll_back_block
  roll_back_block-tip t s st e pos =
      let done : Unit {0} → S → Type 0 = λ _ s'. Stored s' × ((tip s').1 ≡ sub64 t.1 1) in
      let run = λ (b : MsgBlock) (prev : Option MsgBlock).
        iterate_block_ops dcrd (roll_back_op db.accounts.index) db.fetch_prev_outs b prev in
      Post-bind (λ b s'. Keeps tip Stored s s' × (block_of t.0 ≡ some b)) done (db.get_block t.0 s)
        (λ b. disapproved_parent dcrd db b >>= λ prev. run b prev >> db.roll_back_tip t.0 t.1)
        (chain.blocks t.0 s)
        (λ b s₁ h.
          Post-bind (λ _ s'. Keeps tip Stored s₁ s') done (disapproved_parent dcrd db b s₁)
            (λ prev. run b prev >> db.roll_back_tip t.0 t.1) (disapproved_parent-Keeps b s₁)
            (λ prev s₂ k.
              Post-bind (λ _ s'. Keeps tip Stored s₂ s') done (run b prev s₂)
                (λ _. db.roll_back_tip t.0 t.1)
                (Post-any (λ s'. Keeps tip Stored s₂ s') (run b prev s₂) (iterate-Keeps b prev s₂))
                (λ _ s₃ l.
                  let m = Keeps-then s s₂ s₃ (Keeps-then s s₁ s₂ h.0 k) l in
                  chain.rolls t s₃ (m.1 st) (m.0 ∙ e) pos)))

  pub roll_back_to-tip :
      (t : ℕ × ℕ) (s : S)
      → Stored s
      → tip s ≡ t
      → slt 0 t.1 ≡ true
      → Post
          (λ t' s'. Stored s' × ((t' ≡ tip s') × (t'.1 ≡ sub64 t.1 1)))
          (roll_back_to dcrd db t s)
  unfolding roll_back_to
  roll_back_to-tip t s st e pos =
      Post-bind (λ _ s'. Stored s' × ((tip s').1 ≡ sub64 t.1 1))
        (λ t' s'. Stored s' × ((t' ≡ tip s') × (t'.1 ≡ sub64 t.1 1))) (roll_back_block dcrd db t s)
        (λ _. db.accounts.last_processed_block) (roll_back_block-tip t s st e pos)
        (λ _ s₁ h.
          Post-map (λ t' s'. (s' ≡ s₁) × (t' ≡ tip s₁))
            (λ t' s'. Stored s' × ((t' ≡ tip s') × (t'.1 ≡ sub64 t.1 1)))
            (db.accounts.last_processed_block s₁) (chain.lasts s₁)
            (λ t' s' k. (
              subst Stored (sym k.0) h.0,
              (k.1 ∙ ap tip (sym k.0), ap (λ (u : ℕ × ℕ). u.1) k.1 ∙ h.1),
            )))
