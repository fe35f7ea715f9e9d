-- ===== src/Sync/Forks.antt =====
-- backend/sync.go: the loops of `rollbackDbChain`.
use dcrros.Prelude.{
  ℕ, zero, suc, ◌+◌, ◌^◌, ◌≤◌, ◌<◌, ◌≡◌, refl, sym, ap, ◌∙◌, ◌⊎◌, inl, inr, ◌&&◌, Bool-cases,
  Option, none, some, List, [], ◌∷◌, ◌++◌, nat_eq, arith, if◌then◌else◌,
}
use mathlib.Core.Path.{subst}
use dcrros.Prelude.Lists.{length, length-append}
use dcrros.Prelude.Words.{sub64}
use dcrros.Prelude.Results.{Action, pure, ◌>>=◌}
use dcrros.Prelude.Posts.{Post, Post-bind}
use dcrros.BackendDb.{Error}
use dcrros.Wire.{MsgBlock, Dcrd}
use dcrros.Sync.RollBack.{
  ChainDb, Fork, roll_back_to, is_ahead, rewind, is_behind, follow_back, is_forked, find_fork,
  then_some, roll_back_from, roll_back_db_chain,
}
use dcrros.Sync.Links.{IsChain, Links, Links-snoc, Keeps, OnSome, roll_back_to-tip}

-- A fork at a tip: the missing blocks go from the target down to the tip, unless nothing but genesis
-- is left.
abbrev pub AtFork : (ℕ → Option MsgBlock) → ℕ × ℕ → Fork → ℕ × ℕ → Type 0
AtFork block_of target fork t =
    (fork.tip ≡ t)
    × ((length fork.missing + fork.tip.1 ≡ target.1)
        × ((end : ℕ) × (Links block_of fork.missing target.0 end
              × ((fork.tip.1 ≡ 0) ⊎ (end ≡ fork.tip.0)))))

module _ {S : Type 0} (dcrd : Dcrd) (db : ChainDb S) (tip : S → ℕ × ℕ) (Stored : S → Type 0)
    (block_of : ℕ → Option MsgBlock) (chain : IsChain db tip Stored block_of) where
  -- The first loop ends at or below the target.
  abbrev Rewound : ℕ → ℕ × ℕ → S → Type 0
  Rewound target t' s' = (t' ≡ tip s') × ((t'.1 ≤ target) × ((t'.1 < 2 ^ 63) × Stored s'))

  rewind-Rewound :
      (fuel target : ℕ) (t : ℕ × ℕ) (s : S)
      → Stored s
      → t ≡ tip s
      → t.1 ≤ fuel
      → t.1 < 2 ^ 63
      → target < 2 ^ 63
      → Post (OnSome (Rewound target)) (rewind dcrd db fuel target t s)
  unfolding rewind
  rewind-Rewound zero target t s st e f l m = elim (Bool-cases (is_ahead dcrd db target t)) [
    | inl a ↦ absurd (ground arith)
    | inr a ↦ rw a (e, (ground arith, (l, st)))
  ]
  rewind-Rewound (suc fuel) target t s st e f l m = elim (Bool-cases (is_ahead dcrd db target t)) [
    | inr a ↦ rw a (e, (ground arith, (l, st)))
    | inl a ↦ rw a (
        Post-bind (λ t' s'. Stored s' × ((t' ≡ tip s') × (t'.1 ≡ sub64 t.1 1)))
          (OnSome (Rewound target)) (roll_back_to dcrd db t s) (rewind dcrd db fuel target)
          (roll_back_to-tip dcrd db tip Stored block_of chain t s st (sym e) (ground arith))
          (λ t' s' h.
            rewind-Rewound fuel target t' s' h.0 h.1.0 (ground (arith, h.1.1))
              (ground (arith, h.1.1)) m))
  ]

  -- The second loop ends at the height of the tip, and lists the blocks above that.
  abbrev Followed : ℕ → ℕ → ℕ → ℕ × ℕ → ℕ × List ℕ → S → Type 0
  Followed h₀ n tip_height t₀ f s' =
      Links block_of f.1 h₀ f.0 × ((length f.1 + tip_height ≡ n) × ((tip s' ≡ t₀) × Stored s'))

  follow_back-Followed :
      (fuel tip_height h₀ n : ℕ) (t₀ target : ℕ × ℕ) (missing : List ℕ) (s : S)
      → Stored s
      → target.1 ≤ fuel
      → tip_height ≤ target.1
      → target.1 < 2 ^ 63
      → Links block_of missing h₀ target.0
      → length missing + target.1 ≡ n
      → tip s ≡ t₀
      → Post
          (OnSome (Followed h₀ n tip_height t₀))
          (follow_back dcrd db fuel tip_height target missing s)
  unfolding follow_back
  follow_back-Followed zero tip_height h₀ n t₀ target missing s st f l m links count e =
      elim (Bool-cases (is_behind dcrd db tip_height target.1)) [
        | inl a ↦ absurd (ground arith)
        | inr a ↦ rw a (links, (ground arith, (e, st)))
      ]
  follow_back-Followed (suc fuel) tip_height h₀ n t₀ target missing s st f l m links count e =
      elim (Bool-cases (is_behind dcrd db tip_height target.1)) [
        | inr a ↦ rw a (links, (ground arith, (e, st)))
        | inl a ↦ rw a (
            Post-bind (λ b s'. Keeps tip Stored s s' × (block_of target.0 ≡ some b))
              (OnSome (Followed h₀ n tip_height t₀)) (db.get_block target.0 s)
              (λ b.
                follow_back dcrd db fuel tip_height (b.header.prev_block, sub64 target.1 1)
                  (missing ++ target.0 ∷ []))
              (chain.blocks target.0 s)
              (λ b s' h.
                follow_back-Followed fuel tip_height h₀ n t₀ (b.header.prev_block, sub64 target.1 1)
                  (missing ++ target.0 ∷ []) s' (h.0.1 st) (ground arith) (ground arith)
                  (ground arith) (Links-snoc block_of missing h₀ target.0 b links h.1)
                  (ground (arith, length-append missing (target.0 ∷ []))) (h.0.0 ∙ e)))
      ]

  -- The last loop ends at the fork, and what the database has for rollbacks is kept.
  abbrev pub Forked : ℕ × ℕ → Fork → S → Type 0
  Forked target fork s' = AtFork block_of target fork (tip s') × Stored s'

  find_fork-Forked :
      (fuel : ℕ) (target t : ℕ × ℕ) (hash : ℕ) (missing : List ℕ) (s : S)
      → Stored s
      → t ≡ tip s
      → t.1 ≤ fuel
      → t.1 < 2 ^ 63
      → Links block_of missing target.0 hash
      → length missing + t.1 ≡ target.1
      → Post (OnSome (Forked target)) (find_fork dcrd db fuel t hash missing s)
  unfolding find_fork
  find_fork-Forked zero target t hash missing s st e f l links count =
      elim (Bool-cases (is_forked dcrd db t hash)) [
        | inl a ↦ absurd (ground arith)
        | inr a ↦ rw a ((e, (count, (hash, (links, ground arith)))), st)
      ]
  find_fork-Forked (suc fuel) target t hash missing s st e f l links count =
      elim (Bool-cases (is_forked dcrd db t hash)) [
        | inr a ↦ rw a ((e, (count, (hash, (links, ground arith)))), st)
        | inl a ↦ rw a (
            let next = λ (t' : ℕ × ℕ) (b : MsgBlock).
              find_fork dcrd db fuel t' b.header.prev_block (missing ++ hash ∷ []) in
            Post-bind (λ t' s'. Stored s' × ((t' ≡ tip s') × (t'.1 ≡ sub64 t.1 1)))
              (OnSome (Forked target)) (roll_back_to dcrd db t s)
              (λ t'. db.get_block hash >>= next t')
              (roll_back_to-tip dcrd db tip Stored block_of chain t s st (sym e) (ground arith))
              (λ t' s₁ h.
                Post-bind (λ b s'. Keeps tip Stored s₁ s' × (block_of hash ≡ some b))
                  (OnSome (Forked target)) (db.get_block hash s₁) (next t') (chain.blocks hash s₁)
                  (λ b s' k.
                    find_fork-Forked fuel target t' b.header.prev_block (missing ++ hash ∷ []) s'
                      (k.0.1 h.0) (h.1.0 ∙ sym k.0.0) (ground (arith, h.1.1))
                      (ground (arith, h.1.1))
                      (Links-snoc block_of missing target.0 hash b links k.1)
                      (ground (arith, length-append missing (hash ∷ []), h.1.1)))))
      ]

  OnSome-then :
      {A B : Type 0} (P : A → S → Type 0) (Q : B → S → Type 0) (o : Option A) (s : S)
      (f : A → Action Error S (Option B))
      → OnSome P o s
      → ((a : A) → P a s → Post (OnSome Q) (f a s))
      → Post (OnSome Q) (then_some dcrd db o f s)
  OnSome-then P Q none s f h k = h
  OnSome-then P Q (some a) s f h k = k a h

  roll_back_from-Forked :
      (target t : ℕ × ℕ) (s : S)
      → Stored s
      → t ≡ tip s
      → t.1 < 2 ^ 63
      → target.1 < 2 ^ 63
      → Post (OnSome (Forked target)) (roll_back_from dcrd db target t s)
  unfolding roll_back_from
  roll_back_from-Forked target t s st e l m =
      let last = λ (t' : ℕ × ℕ) (f : ℕ × List ℕ). find_fork dcrd db t'.1 t' f.0 f.1 in
      let rest = λ (t' : ℕ × ℕ). follow_back dcrd db target.1 t'.1 target [] >>= λ followed.
      then_some dcrd db followed (last t') in
      Post-bind (OnSome (Rewound target.1)) (OnSome (Forked target))
        (rewind dcrd db t.1 target.1 t s) (λ rewound. then_some dcrd db rewound rest)
        (rewind-Rewound t.1 target.1 t s st e (omega arith) l m)
        (λ rewound s₁ h. OnSome-then (Rewound target.1) (Forked target) rewound s₁ rest h (λ t' r.
          Post-bind (OnSome (Followed target.0 target.1 t'.1 t')) (OnSome (Forked target))
            (follow_back dcrd db target.1 t'.1 target [] s₁)
            (λ followed. then_some dcrd db followed (last t'))
            (follow_back-Followed target.1 t'.1 target.0 target.1 t' target [] s₁ r.1.1.1
              (omega arith) r.1.0 m refl (omega arith) (sym r.0))
            (λ followed s₂ k.
              OnSome-then (Followed target.0 target.1 t'.1 t') (Forked target) followed s₂ (last t')
                k
                (λ f g.
                  find_fork-Forked t'.1 target t' f.0 f.1 s₂ g.1.1.1 (sym g.1.1.0) (omega arith)
                    r.1.1.0 g.0 g.1.0))))

  -- If `rollbackDbChain` returns, none of its loops ran out of fuel, the tip it gives is that of the
  -- database, and the missing blocks are the target, its parent and so on, as many as the tip is
  -- below the target; the last of them goes on the tip, unless the tip is at height 0. The
  -- database can still roll its tip back as before: the in-memory database can where it has a
  -- processed block at every height up to the tip. The database keeps the named promises, and the
  -- heights of the tip and of the target are not negative.
  pub roll_back_db_chain-Forked :
      (target : ℕ × ℕ) (s : S)
      → Stored s
      → (tip s).1 < 2 ^ 63
      → target.1 < 2 ^ 63
      → Post (OnSome (Forked target)) (roll_back_db_chain dcrd db target s)
  unfolding roll_back_db_chain
  roll_back_db_chain-Forked target s st l m =
      Post-bind (λ t s'. (s' ≡ s) × (t ≡ tip s)) (OnSome (Forked target))
        (db.accounts.last_processed_block s)
        (λ t.
          if nat_eq target.1 t.1 && nat_eq target.0 t.0
          then pure (some (record { tip = t; missing = [] }))
          else roll_back_from dcrd db target t)
        (chain.lasts s)
        (λ t s' h.
          let e : t ≡ tip s' = h.1 ∙ ap tip (sym h.0) in
          elim (Bool-cases (nat_eq target.1 t.1 && nat_eq target.0 t.0)) [
            | inl a ↦
                rw a
                  ((e, (ground arith, (target.0, (refl, ground arith)))), subst Stored (sym h.0) st)
            | inr a ↦ rw a (
                roll_back_from-Forked target t s' (subst Stored (sym h.0) st) e
                  (subst (λ (u : ℕ × ℕ). u.1 < 2 ^ 63) (sym h.1) l) m)
          ])
