-- ===== src/Sync/Handlers.antt =====
-- backend/sync.go: where `switchChainTo` and the handlers of notifications leave the database.
use dcrros.Prelude.{
  ℕ, ◌^◌, ◌<◌, ◌≡◌, ◌≢◌, sym, ap, ◌∙◌, ◌⊎◌, inl, inr, String, true, ◌&&◌, Bool-cases, Option, none,
  some, nat_eq, arith, if◌then◌else◌,
}
use mathlib.Core.Path.{subst}
use dcrros.Prelude.Words.{sub64, slt}
use dcrros.Prelude.Results.{Action, pure, ◌>>=◌}
use dcrros.Prelude.Posts.{Post, Post-bind, Post-map}
use dcrros.BackendDb.{Error}
use dcrros.Wire.{MsgBlock, BlockHeader, Dcrd}
use dcrros.Sync.RollBack.{roll_back_block}
use dcrros.Sync.Links.{Keeps, OnSome, roll_back_block-tip}
use dcrros.Sync.Reorg.{
  ChainServer, error_as, then_found, process, reorg_to_parent_of, connect_block, switch_chain_to,
  handle_block_connected, disconnect, handle_block_disconnected, read_last_processed,
}
use dcrros.Sync.Process.{IsServer, Post-error_as, process-tip}
use dcrros.Sync.Switch.{AtParent, reorg_to_parent_of-AtParent}

module _ {S D : Type 0} (dcrd : Dcrd) (genesis : ℕ) (server : ChainServer S D) (tip : S → ℕ × ℕ)
    (db_tip : D → ℕ × ℕ) (Stored Saved : S → Type 0) (DbStored : D → Type 0)
    (block_of : ℕ → Option MsgBlock)
    (laws : IsServer server tip db_tip Stored Saved DbStored block_of) where
  -- The block is the tip, and the database has what it needs to roll it back.
  abbrev pub EndsAt : ℕ → MsgBlock → D → Type 0
  EndsAt bh b d' = (db_tip d' ≡ (bh, b.header.height)) × DbStored d'

  connect_block-tip :
      (bh : ℕ) (b : MsgBlock) (prev : Option MsgBlock) (d : D)
      → DbStored d
      → Post (OnSome (λ _ d'. EndsAt bh b d')) (connect_block dcrd genesis server bh b prev d)
  connect_block-tip bh b prev d st =
      let text : String = "unable to process accounts of connected block %s (height %d): %v" in
      let r = process dcrd genesis server bh b prev d in
      let Done : Unit {0} → D → Type 0 = λ _ d'. EndsAt bh b d' in
      Post-bind Done (OnSome Done) (error_as text r) (λ _. pure (some tt))
        (Post-error_as Done text r (
          process-tip dcrd genesis server tip db_tip Stored Saved DbStored block_of laws bh b prev d
            st))
        (λ _ d' h. h)

  then_found-tip :
      (bh : ℕ) (b : MsgBlock) (found : Option (Option MsgBlock)) (d : D)
      → OnSome
          (AtParent dcrd genesis server tip db_tip Stored Saved DbStored block_of laws b)
          found
          d
      → Post
          (OnSome (λ _ d'. EndsAt bh b d'))
          (then_found found (connect_block dcrd genesis server bh b) d)
  then_found-tip bh b none d h = h
  then_found-tip bh b (some prev) d h = connect_block-tip bh b prev d h.1

  found_block :
      (bh : ℕ) (b : MsgBlock) (o : Option (Unit {0})) (d' : D) (Q : Unit {0} → D → Type 0)
      → (EndsAt bh b d' → Q tt d')
      → OnSome (λ _ d'. EndsAt bh b d') o d'
      → OnSome Q o d'
  found_block bh b none d' Q k h = h
  found_block bh b (some u) d' Q k h = k h

  -- If `switchChainTo` returns, no loop ran out of fuel, the block, with its height, is the tip of the
  -- database, and the database can roll its tip back, as it could before. The server keeps the named
  -- promises, and the height of the tip before is not negative.
  pub switch_chain_to-tip :
      (bh : ℕ) (b : MsgBlock) (d : D)
      → DbStored d
      → (db_tip d).1 < 2 ^ 63
      → Post (OnSome (λ _ d'. EndsAt bh b d')) (switch_chain_to dcrd genesis server bh b d)
  unfolding switch_chain_to
  switch_chain_to-tip bh b d st lt =
      let text : String = "unable to reorg to parent of %s (height %d): %v" in
      let Done : Unit {0} → D → Type 0 = λ _ d'. EndsAt bh b d' in
      Post-bind
        (OnSome (AtParent dcrd genesis server tip db_tip Stored Saved DbStored block_of laws b))
        (OnSome Done) (error_as text (reorg_to_parent_of dcrd genesis server b d))
        (λ found. then_found found (connect_block dcrd genesis server bh b))
        (Post-error_as
          (OnSome (AtParent dcrd genesis server tip db_tip Stored Saved DbStored block_of laws b))
          text (reorg_to_parent_of dcrd genesis server b d)
          (reorg_to_parent_of-AtParent dcrd genesis server tip db_tip Stored Saved DbStored block_of
            laws b d st lt))
        (λ found d' h. then_found-tip bh b found d' h)

  -- If `handleBlockConnected` returns, it has left the tip alone, and the block was below the tip, or
  -- the block that dcrd has under the hash of the header is the tip; the database can roll its tip
  -- back, as it could before. The server keeps the named promises, and the height of the tip before
  -- is not negative.
  pub handle_block_connected-tip :
      (block_hash : BlockHeader → ℕ) (header : BlockHeader) (d : D)
      → DbStored d
      → (db_tip d).1 < 2 ^ 63
      → Post
          (OnSome (λ _ d'.
            ((slt header.height (db_tip d).1 ≡ true) × ((db_tip d' ≡ db_tip d) × DbStored d'))
            ⊎ ((b : MsgBlock) × ((block_of (block_hash header) ≡ some b)
                  × EndsAt (block_hash header) b d'))))
          (handle_block_connected dcrd genesis server block_hash header d)
  unfolding handle_block_connected
  handle_block_connected-tip block_hash header d st lt =
      let tip_read : Action Error D (ℕ × ℕ) = read_last_processed dcrd genesis server in
      let text : String = "unable to fetch dcrd connected block %s: %v" in
      let bh : ℕ = block_hash header in
      let Done : Unit {0} → D → Type 0 = λ _ d'.
        ((slt header.height (db_tip d).1 ≡ true) × ((db_tip d' ≡ db_tip d) × DbStored d'))
        ⊎ ((b : MsgBlock) × ((block_of bh ≡ some b) × EndsAt bh b d')) in
      let fetch : Action Error D MsgBlock = λ d. error_as text (server.get_block bh d) in
      Post-bind (λ t d'. (t ≡ db_tip d) × Keeps db_tip DbStored d d') (OnSome Done) (tip_read d)
        (λ t.
          if slt header.height t.1
          then pure (some tt)
          else (fetch >>= λ b. switch_chain_to dcrd genesis server bh b))
        (laws.views d)
        (λ t d₁ h. elim (Bool-cases (slt header.height t.1)) [
          | inl e ↦
              rw e
                (inl (subst (λ (u : ℕ × ℕ). slt header.height u.1 ≡ true) h.0 e, (h.1.0, h.1.1 st)))
          | inr e ↦ rw e (
              Post-bind (λ b d'. Keeps db_tip DbStored d₁ d' × (block_of bh ≡ some b)) (OnSome Done)
                (fetch d₁) (λ b. switch_chain_to dcrd genesis server bh b)
                (Post-error_as (λ b d'. Keeps db_tip DbStored d₁ d' × (block_of bh ≡ some b)) text
                  (server.get_block bh d₁) (laws.blocks bh d₁))
                (λ b d₂ k.
                  Post-map (OnSome (λ _ d'. EndsAt bh b d')) (OnSome Done)
                    (switch_chain_to dcrd genesis server bh b d₂)
                    (switch_chain_to-tip bh b d₂ (k.0.1 (h.1.1 st))
                      (subst (λ (u : ℕ × ℕ). u.1 < 2 ^ 63) (sym (k.0.0 ∙ h.1.0)) lt))
                    (λ o d'. found_block bh b o d' Done (λ q. inr (b, (k.1, q))))))
        ])

  -- If `handleBlockDisconnected` returns for a block above height 0, the height of the tip is one
  -- below the block where the block was the tip, and the tip is what it was where not; the database
  -- can roll its tip back, as it could before. The server keeps the named promises.
  pub handle_block_disconnected-tip :
      (block_hash : BlockHeader → ℕ) (header : BlockHeader) (d : D)
      → DbStored d
      → slt 0 header.height ≡ true
      → Post
          (λ _ d'.
            (((db_tip d ≡ (block_hash header, header.height))
                × ((db_tip d').1 ≡ sub64 header.height 1))
              ⊎ ((db_tip d ≢ (block_hash header, header.height)) × (db_tip d' ≡ db_tip d)))
            × DbStored d')
          (handle_block_disconnected dcrd genesis server block_hash header d)
  unfolding handle_block_disconnected
  handle_block_disconnected-tip block_hash header d st pos =
      let target : ℕ × ℕ = (block_hash header, header.height) in
      let Done : Unit {0} → ℕ × ℕ → Type 0 = λ _ t.
        ((db_tip d ≡ target) × (t.1 ≡ sub64 header.height 1))
        ⊎ ((db_tip d ≢ target) × (t ≡ db_tip d)) in
      laws.updates (disconnect dcrd genesis server block_hash header) d Done st (λ s e stored.
        Post-bind (λ t s'. (s' ≡ s) × (t ≡ tip s)) (λ u s'. Done u (tip s') × Saved s')
          (server.inside.accounts.last_processed_block s)
          (λ t.
            if nat_eq t.0 (block_hash header) && nat_eq t.1 header.height
            then roll_back_block dcrd server.inside (t.0, header.height)
            else pure tt)
          (laws.chain.lasts s)
          (λ t s₁ h.
            let stored₁ = subst Stored (sym h.0) stored in
            elim (Bool-cases (nat_eq t.0 (block_hash header) && nat_eq t.1 header.height)) [
              | inl q ↦ rw q (
                  let hash : t.0 ≡ block_hash header = ground arith in
                  let height : t.1 ≡ header.height = ground arith in
                  Post-map (λ _ s'. Stored s' × ((tip s').1 ≡ sub64 header.height 1))
                    (λ u s'. Done u (tip s') × Saved s')
                    (roll_back_block dcrd server.inside (t.0, header.height) s₁)
                    (roll_back_block-tip dcrd server.inside tip Stored block_of laws.chain
                      (t.0, header.height) s₁ stored₁
                      (ap tip h.0 ∙ sym h.1 ∙ ap (λ (x : ℕ). (t.0, x)) height) pos)
                    (λ u s' k. (
                      inl (
                        sym (h.1 ∙ e)
                            ∙ ap (λ (x : ℕ). (x, t.1)) hash
                            ∙ ap (λ (x : ℕ). (block_hash header, x)) height,
                        k.1,
                      ),
                      laws.saves s' k.0,
                    )))
              | inr q ↦ rw q (
                inr (
                  λ z.
                      (let hash : t.0 ≡ block_hash header = ap (λ u. u.0) (h.1 ∙ e ∙ z) in
                        let height : t.1 ≡ header.height = ap (λ u. u.1) (h.1 ∙ e ∙ z) in
                        absurd (ground arith)),
                  ap tip h.0 ∙ e,
                ),
                laws.saves s₁ stored₁,
              )
            ]))
