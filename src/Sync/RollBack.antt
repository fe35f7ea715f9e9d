-- ===== src/Sync/RollBack.antt =====
-- backend/sync.go: `rollbackTip` and `rollbackDbChain`, inside a transaction of the database. The
-- loops are on fuel: they give `none` where it runs out, which no Go call does.
use dcrros.Prelude.{
  ℕ, zero, suc, Bool, not, ◌&&◌, Option, none, some, List, [], ◌∷◌, ◌++◌, nat_eq, if◌then◌else◌,
}
use dcrros.Prelude.Maps.{Map}
use dcrros.Prelude.Words.{sub64, slt}
use dcrros.Prelude.Results.{Action, pure, ◌>>=◌, ◌>>◌}
use dcrros.BackendDb.{Error, OutPoint}
use dcrros.Wire.{MsgBlock, Dcrd}
use dcrros.Types.Block.{PrevOutput, iterate_block_ops, vote_bits_approves_parent}
use dcrros.Accounts.{AccountDb}
use dcrros.Sync.{roll_back_op}

-- What sync.go calls inside a transaction: the database, the blocks of dcrd, and the source of
-- previous outputs.
pub record ChainDb (S : Type 0) : Type 1 where
  pub accounts : AccountDb S
  pub roll_back_tip : ℕ → ℕ → Action Error S (Unit {0})
  pub get_block : ℕ → Action Error S MsgBlock
  pub fetch_prev_outs : List OutPoint → Action Error S (Map OutPoint PrevOutput)

-- The hashes of the blocks that are missing, newer ones first, and the tip that they go on.
pub record Fork : Type 0 where
  pub tip : ℕ × ℕ
  pub missing : List ℕ

module _ {S : Type 0} (dcrd : Dcrd) (db : ChainDb S) where
  -- The block before is fetched only if the block disapproves it.
  abbrev pub disapproved_parent : MsgBlock → Action Error S (Option MsgBlock)
  disapproved_parent b =
      if vote_bits_approves_parent b.header.vote_bits
      then pure none
      else (db.get_block b.header.prev_block >>= λ prev. pure (some prev))

  -- `rollbackTip`
  unfoldable pub roll_back_block : ℕ × ℕ → Action Error S (Unit {0})
  roll_back_block tip = do
    b ← db.get_block tip.0
    prev ← disapproved_parent b
    iterate_block_ops dcrd (roll_back_op db.accounts.index) db.fetch_prev_outs b prev
    db.roll_back_tip tip.0 tip.1

  -- One round of the loops that roll back: the new tip.
  unfoldable pub roll_back_to : ℕ × ℕ → Action Error S (ℕ × ℕ)
  unfolding roll_back_block
  roll_back_to tip = roll_back_block tip >> db.accounts.last_processed_block

  -- for tipHeight > 0 && tipHeight > targetHeight
  abbrev pub is_ahead : ℕ → ℕ × ℕ → Bool
  is_ahead target_height tip = slt 0 tip.1 && slt target_height tip.1

  unfoldable pub rewind : ℕ → ℕ → ℕ × ℕ → Action Error S (Option (ℕ × ℕ))
  unfolding roll_back_to
  rewind zero target_height tip = if is_ahead target_height tip then pure none else pure (some tip)
  rewind (suc fuel) target_height tip =
      if is_ahead target_height tip
      then (roll_back_to tip >>= rewind fuel target_height)
      else pure (some tip)

  -- for targetHeight > 0 && targetHeight > tipHeight
  abbrev pub is_behind : ℕ → ℕ → Bool
  is_behind tip_height height = slt 0 height && slt tip_height height

  unfoldable pub follow_back : ℕ → ℕ → ℕ × ℕ → List ℕ → Action Error S (Option (ℕ × List ℕ))
  follow_back zero tip_height target missing =
      if is_behind tip_height target.1 then pure none else pure (some (target.0, missing))
  follow_back (suc fuel) tip_height target missing =
      if is_behind tip_height target.1
      then (db.get_block target.0 >>= λ b.
          follow_back fuel tip_height (b.header.prev_block, sub64 target.1 1)
            (missing ++ target.0 ∷ []))
      else pure (some (target.0, missing))

  -- for tipHeight > 0 && !targetHash.IsEqual(&tipHash)
  abbrev pub is_forked : ℕ × ℕ → ℕ → Bool
  is_forked tip hash = slt 0 tip.1 && not (nat_eq hash tip.0)

  unfoldable pub find_fork : ℕ → ℕ × ℕ → ℕ → List ℕ → Action Error S (Option Fork)
  unfolding roll_back_to
  find_fork zero tip hash missing =
      if is_forked tip hash
      then pure none
      else pure (some (record { tip = tip; missing = missing }))
  find_fork (suc fuel) tip hash missing =
      if is_forked tip hash
      then (roll_back_to tip >>= λ tip'.
          db.get_block hash >>= λ b. find_fork fuel tip' b.header.prev_block (missing ++ hash ∷ []))
      else pure (some (record { tip = tip; missing = missing }))

  abbrev pub then_some :
      {A B : Type 0} → Option A → (A → Action Error S (Option B)) → Action Error S (Option B)
  then_some none f = pure none
  then_some (some a) f = f a

  -- The loops, one after another; each has as much fuel as the height that it counts down.
  unfoldable pub roll_back_from : ℕ × ℕ → ℕ × ℕ → Action Error S (Option Fork)
  unfolding rewind follow_back find_fork
  roll_back_from target tip = do
    rewound ← rewind tip.1 target.1 tip
    then_some rewound (λ tip. follow_back target.1 tip.1 target [] >>= λ followed.
        then_some followed (λ f. find_fork tip.1 tip f.0 f.1))

  -- `rollbackDbChain`
  unfoldable pub roll_back_db_chain : ℕ × ℕ → Action Error S (Option Fork)
  unfolding roll_back_from
  roll_back_db_chain target = do
    tip ← db.accounts.last_processed_block
    if nat_eq target.1 tip.1 && nat_eq target.0 tip.0
        then pure (some (record { tip = tip; missing = [] }))
        else roll_back_from target tip
