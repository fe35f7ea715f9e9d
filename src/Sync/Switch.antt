-- ===== src/Sync/Switch.antt =====
-- backend/sync.go: where reorganisations and notifications leave the tip of the database.
use dcrros.Prelude.{
  ℕ, ◌^◌, ◌<◌, ◌≡◌, refl, sym, ap, ◌∙◌, ◌⊎◌, inl, inr, String, Bool-cases, Option, none, some, List,
  [], ◌∷◌, arith,
}
use mathlib.Core.Path.{subst}
use dcrros.Prelude.Keys.{string_comparable}
use dcrros.Prelude.Words.{slt}
use dcrros.Prelude.Results.{Action, pure, ◌>>=◌, ◌>>◌}
use dcrros.Prelude.Posts.{Post, Post-bind, Post-map}
use dcrros.BackendDb.{Error}
use dcrros.Wire.{MsgBlock, Dcrd}
use dcrros.Sync.RollBack.{Fork, roll_back_db_chain}
use dcrros.Sync.Links.{Keeps, Links, OnSome}
use dcrros.Sync.Forks.{AtFork, Forked, roll_back_db_chain-Forked}
use dcrros.Sync.Reorg.{
  ChainServer, error_as, then_found, parent_of, process, tip_block, connect, connect_missing,
  reorg_to_parent_of,
}
use dcrros.Sync.Process.{IsServer, Post-error_as, process-tip}

module _ {S D : Type 0} (dcrd : Dcrd) (genesis : ℕ) (server : ChainServer S D) (tip : S → ℕ × ℕ)
    (db_tip : D → ℕ × ℕ) (Stored Saved : S → Type 0) (DbStored : D → Type 0)
    (block_of : ℕ → Option MsgBlock)
    (laws : IsServer server tip db_tip Stored Saved DbStored block_of) where
  tip_block-tip :
      (t : ℕ × ℕ) (d : D)
      → Post (λ _ d'. Keeps db_tip DbStored d d') (tip_block dcrd genesis server t d)
  tip_block-tip t d = elim (Bool-cases (slt 0 t.1)) [
    | inr e ↦ rw e (refl, λ x. x)
    | inl e ↦ rw e (
        let text : String = "unable to fetch tip block %s at height %d" in
        Post-bind (λ b d'. Keeps db_tip DbStored d d' × (block_of t.0 ≡ some b))
          (λ _ d'. Keeps db_tip DbStored d d') (error_as text (server.get_block t.0 d))
          (λ b. pure (some b))
          (Post-error_as (λ b d'. Keeps db_tip DbStored d d' × (block_of t.0 ≡ some b)) text
            (server.get_block t.0 d) (laws.blocks t.0 d))
          (λ b d' h. h.0))
  ]

  connect-tip :
      (hash : ℕ) (prev : Option MsgBlock) (d : D)
      → DbStored d
      → Post
          (λ _ d'. ((db_tip d').0 ≡ hash) × DbStored d')
          (connect dcrd genesis server hash prev d)
  connect-tip hash prev d st =
      let text : String = "unable to fetch missing block %s: %v" in
      let text' : String = "unable to process accounts of connected block %s: %v" in
      let put : MsgBlock → Action Error D (Unit {0}) =
        λ b d. error_as text' (process dcrd genesis server hash b prev d) in
      Post-bind (λ b d'. Keeps db_tip DbStored d d' × (block_of hash ≡ some b))
        (λ _ d'. ((db_tip d').0 ≡ hash) × DbStored d') (error_as text (server.get_block hash d))
        (λ b. put b >> pure (some b))
        (Post-error_as (λ b d'. Keeps db_tip DbStored d d' × (block_of hash ≡ some b)) text
          (server.get_block hash d) (laws.blocks hash d))
        (λ b d₁ k.
          Post-bind (λ _ d'. (db_tip d' ≡ (hash, b.header.height)) × DbStored d')
            (λ _ d'. ((db_tip d').0 ≡ hash) × DbStored d') (put b d₁) (λ _. pure (some b))
            (Post-error_as (λ _ d'. (db_tip d' ≡ (hash, b.header.height)) × DbStored d') text'
              (process dcrd genesis server hash b prev d₁)
              (process-tip dcrd genesis server tip db_tip Stored Saved DbStored block_of laws hash b
                prev d₁ (k.0.1 st)))
            (λ _ d' h. (ap (λ t. t.0) h.0, h.1)))

  -- The newest of the missing blocks, if there are any.
  abbrev IsNewest : List ℕ → ℕ × ℕ → ℕ × ℕ → Type 0
  IsNewest [] t t' = t' ≡ t
  IsNewest (hash ∷ hashes) t t' = t'.0 ≡ hash

  connect_missing-tip :
      (hashes : List ℕ) (prev : Option MsgBlock) (d : D)
      → DbStored d
      → Post
          (λ _ d'. IsNewest hashes (db_tip d) (db_tip d') × DbStored d')
          (connect_missing dcrd genesis server hashes prev d)
  unfolding connect_missing
  connect_missing-tip [] prev d st = (refl, st)
  connect_missing-tip (hash ∷ hashes) prev d st =
      Post-bind (λ _ d'. IsNewest hashes (db_tip d) (db_tip d') × DbStored d')
        (λ _ d'. ((db_tip d').0 ≡ hash) × DbStored d')
        (connect_missing dcrd genesis server hashes prev d) (connect dcrd genesis server hash)
        (connect_missing-tip hashes prev d st) (λ prev' d' h. connect-tip hash prev' d' h.1)

  -- On a fork, the newest missing block is the target, and with none the tip is the target.
  at_target :
      (ms : List ℕ) (target ft t : ℕ × ℕ) (end : ℕ)
      → Links block_of ms target.0 end
      → (ft.1 ≡ 0) ⊎ (end ≡ ft.0)
      → IsNewest ms ft t
      → (t.0 ≡ target.0) ⊎ (t.1 ≡ 0)
  at_target [] target ft t end l (inl z) n = inr (ap (λ u. u.1) n ∙ z)
  at_target [] target ft t end l (inr e) n = inl (ap (λ u. u.0) n ∙ sym e ∙ sym l)
  at_target (m ∷ ms) target ft t end l e n = inl (n ∙ l.0)

  -- The blocks are processed until the parent of the block is the tip, or nothing but genesis is
  -- there.
  abbrev pub AtParent : MsgBlock → Option MsgBlock → D → Type 0
  AtParent block prev d' =
      (((db_tip d').0 ≡ block.header.prev_block) ⊎ ((db_tip d').1 ≡ 0)) × DbStored d'

  connect_fork-AtParent :
      (block : MsgBlock) (fork : Fork) (d : D)
      → DbStored d
      → fork.tip ≡ db_tip d
      → (end : ℕ) → Links block_of fork.missing block.header.prev_block end
      → (fork.tip.1 ≡ 0) ⊎ (end ≡ fork.tip.0)
      → Post (OnSome (AtParent block)) (
          (tip_block dcrd genesis server fork.tip >>= λ prev.
          connect_missing dcrd genesis server fork.missing prev >>= λ prev'. pure (some prev'))
            d)
  connect_fork-AtParent block fork d st t end links e =
      let rest : Option MsgBlock → Action Error D (Option (Option MsgBlock)) = λ prev.
        connect_missing dcrd genesis server fork.missing prev >>= λ prev'. pure (some prev') in
      Post-bind (λ _ d'. Keeps db_tip DbStored d d') (OnSome (AtParent block))
        (tip_block dcrd genesis server fork.tip d) rest (tip_block-tip fork.tip d)
        (λ prev d₁ h.
          Post-bind (λ _ d'. IsNewest fork.missing (db_tip d₁) (db_tip d') × DbStored d')
            (OnSome (AtParent block)) (connect_missing dcrd genesis server fork.missing prev d₁)
            (λ prev'. pure (some prev')) (connect_missing-tip fork.missing prev d₁ (h.1 st))
            (λ prev' d' n. (
              at_target fork.missing (parent_of block) fork.tip (db_tip d') end links e
                  (subst (λ u. IsNewest fork.missing u (db_tip d')) (h.0 ∙ sym t) n.0),
              n.1,
            )))

  OnSome-tip :
      (target : ℕ × ℕ) (o : Option Fork) (s : S)
      → OnSome (Forked dcrd server.inside tip Stored block_of laws.chain target) o s
      → OnSome (AtFork block_of target) o (tip s) × Saved s
  OnSome-tip target none s h = absurd h
  OnSome-tip target (some fork) s h = (h.0, laws.saves s h.1)

  then_found-OnSome :
      {A B : Type 0} (P : A → ℕ × ℕ → Type 0) (Q : B → D → Type 0) (o : Option A) (d : D)
      (f : A → Action Error D (Option B))
      → OnSome P o (db_tip d)
      → ((a : A) → P a (db_tip d) → Post (OnSome Q) (f a d))
      → Post (OnSome Q) (then_found o f d)
  then_found-OnSome P Q none d f h k = h
  then_found-OnSome P Q (some a) d f h k = k a h

  pub reorg_to_parent_of-AtParent :
      (block : MsgBlock) (d : D)
      → DbStored d
      → (db_tip d).1 < 2 ^ 63
      → Post (OnSome (AtParent block)) (reorg_to_parent_of dcrd genesis server block d)
  unfolding reorg_to_parent_of
  reorg_to_parent_of-AtParent block d st lt =
      let target : ℕ × ℕ = parent_of block in
      let rest : Fork → Action Error D (Option (Option MsgBlock)) = λ fork.
        tip_block dcrd genesis server fork.tip >>= λ prev.
        connect_missing dcrd genesis server fork.missing prev >>= λ prev'. pure (some prev') in
      let roll : Action Error S (Option Fork) = roll_back_db_chain dcrd server.inside target in
      let Found : Option Fork → ℕ × ℕ → Type 0 = OnSome (AtFork block_of target) in
      Post-bind (λ o d'. Found o (db_tip d') × DbStored d') (OnSome (AtParent block))
        (server.update roll d) (λ found. then_found found rest)
        (laws.updates roll d Found st (λ s e u.
          Post-map (OnSome (Forked dcrd server.inside tip Stored block_of laws.chain target))
            (λ o s'. Found o (tip s') × Saved s') (roll s)
            (roll_back_db_chain-Forked dcrd server.inside tip Stored block_of laws.chain target s u
              (subst (λ (u : ℕ × ℕ). u.1 < 2 ^ 63) (sym e) lt) (omega arith))
            (λ o s'. OnSome-tip target o s')))
        (λ found d' h.
          then_found-OnSome (AtFork block_of target) (AtParent block) found d' rest h.0
            (λ fork k. connect_fork-AtParent block fork d' h.1 k.0 k.1.1.0 k.1.1.1.0 k.1.1.1.1))
