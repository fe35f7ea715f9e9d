-- ===== src/Sync/Mem/Server.antt =====
-- The in-memory database under the server of backend/sync.go, with what dcrd has: the blocks by their
-- hashes, and the previous outputs that it gives.
use dcrros.Prelude.{ℕ, ◌≡◌, refl, String, true, Option, none, some, List}
use dcrros.Prelude.Maps.{Map}
use dcrros.Prelude.Keys.{nat_comparable, string_comparable}
use dcrros.Prelude.Results.{Action, Result, ok, err}
use dcrros.Prelude.Posts.{Post}
use dcrros.BackendDb.{Error, plain, OutPoint}
use dcrros.Wire.{MsgBlock}
use dcrros.MemDb.State.{MemDb, Conn, new_transaction}
use dcrros.MemDb.Balances.{tip_of, last_processed_block, balance}
use dcrros.MemDb.Rollback.{rollback_tip}
use dcrros.MemDb.Commit.{update, view}
use dcrros.Accounts.Mem.{mem_accounts}
use dcrros.Types.Block.{PrevOutput}
use dcrros.Sync.RollBack.{ChainDb}
use dcrros.Sync.Links.{Keeps, IsChain}
use dcrros.Sync.Reorg.{ChainServer}
use dcrros.Sync.Process.{IsServer}
use dcrros.Sync.Mem.{db_tip, DbStored, Stored, Saved}
use dcrros.Sync.Mem.{roll_back_op-Keeps, connect_op-Keeps}
use dcrros.Sync.Mem.Tip.{rolls}
use dcrros.Sync.Mem.Saves.{stores, saves, finish-tip, opened-Stored}

abbrev pub found_block : {S : Type 0} → Option MsgBlock → Action Error S MsgBlock
found_block none s = (err (plain "block not found"), s)
found_block (some b) s = (ok b, s)

found_block-Keeps :
    {S : Type 0} (tip : S → ℕ × ℕ) (Inv : S → Type 0) (o : Option MsgBlock) (s : S)
    → Post (λ b s'. Keeps tip Inv s s' × (o ≡ some b)) (found_block o s)
found_block-Keeps tip Inv none s = tt
found_block-Keeps tip Inv (some b) s = ((refl, λ x. x), refl)

module _ (block_at : ℕ → Option MsgBlock)
    (outputs : List OutPoint → Result Error (Map OutPoint PrevOutput)) where
  abbrev pub mem_chain : ChainDb Conn
  mem_chain = record {
    accounts = mem_accounts;
    roll_back_tip = rollback_tip;
    get_block = λ h. found_block (block_at h);
    fetch_prev_outs = λ os c. (outputs os, c);
  }

  abbrev pub mem_server : ChainServer Conn MemDb
  mem_server = record {
    inside = mem_chain;
    update = λ f. update f;
    view = λ f. view f;
    get_block = λ h. found_block (block_at h);
  }

  lasts : (c : Conn) → Post (λ t c'. (c' ≡ c) × (t ≡ tip_of c)) (last_processed_block c)
  unfolding last_processed_block
  lasts c = (refl, refl)

  pub mem_chain-IsChain : IsChain mem_chain tip_of Stored block_at
  mem_chain-IsChain = record {
    lasts = lasts;
    blocks = λ h c. found_block-Keeps tip_of Stored (block_at h) c;
    fetches = λ os c. (refl, λ x. x);
    ops = roll_back_op-Keeps;
    rolls = rolls;
  }

  balances : (a : String) (h : ℕ) (c : Conn) → Keeps tip_of Stored c (balance a h c).1
  unfolding balance
  balances a h c = (refl, λ x. x)

  updates :
      {A : Type 0} (f : Action Error Conn A) (db : MemDb) (P : A → ℕ × ℕ → Type 0)
      → DbStored db
      → ((c : Conn)
          → tip_of c ≡ db_tip db
          → Stored c
          → Post (λ a c'. P a (tip_of c') × Saved c') (f c))
      → Post (λ a db'. P a (db_tip db') × DbStored db') (update f db)
  unfolding update tip_of
  updates f db P s h =
      let c : Conn = record { db = db; tx = new_transaction true } in
      finish-tip P (f c) (h c refl (opened-Stored db s))

  views :
      (db : MemDb)
      → Post
          (λ t db'. (t ≡ db_tip db) × Keeps db_tip DbStored db db')
          (view last_processed_block db)
  unfolding view last_processed_block tip_of
  views db = (refl, (refl, λ x. x))

  pub mem_server-IsServer : IsServer mem_server tip_of db_tip Stored Saved DbStored block_at
  mem_server-IsServer = record {
    chain = mem_chain-IsChain;
    connects = connect_op-Keeps;
    balances = balances;
    stores = stores;
    saves = saves;
    updates = λ f. updates f;
    views = views;
    blocks = λ h db. found_block-Keeps db_tip DbStored (block_at h) db;
  }
