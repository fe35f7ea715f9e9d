-- ===== src/Server.antt =====
-- backend/server.go: the queue of block notifications, which dcrd's client fills and `Run` empties. A
-- pointer in the queue is an Option.
pub mod Queue
mod Tests
use dcrros.Prelude.{
  ℕ, zero, suc, ◌-◌, Bool, true, false, Option, none, some, List, [], ◌∷◌, ◌++◌, map, ltb,
  if◌then◌else◌,
}
use dcrros.Prelude.Lists.{length, drop_last}
use dcrros.Prelude.Results.{Action, crash, pure, ◌>>=◌}
use dcrros.BackendDb.{Error}
use dcrros.Wire.{BlockHeader, Dcrd}
use dcrros.Sync.Reorg.{ChainServer, handle_block_connected, handle_block_disconnected}

pub data BlockNtfnType : Type 0 where
  block_connected block_disconnected : BlockNtfnType

pub record BlockNtfn : Type 0 where
  pub ntfn_type : BlockNtfnType
  pub header : BlockHeader

-- The errors that say that dcrd is not to be used.
pub data DcrdError : Type 0 where
  dcrd_unconnected dcrd_unsuitable : DcrdError

-- What the mutex of the server guards, but for its context and its sync status; and the goroutines
-- that wait to send on the channel of notifications.
pub record State : Type 0 where
  pub dcrd_active_err : Option DcrdError
  pub dcrd_version : Option ℕ
  pub block_ntfns : List (Option BlockNtfn)
  pub signals : ℕ

-- As `NewServer` leaves them.
abbrev pub new_state : State
new_state = record {
  dcrd_active_err = some DcrdError.dcrd_unconnected;
  dcrd_version = none;
  block_ntfns = [];
  signals = 0;
}

-- `onDcrdConnected`, with the version that `checkDcrd` gives, or its error.
unfoldable pub on_dcrd_connected : Option ℕ → State → State
on_dcrd_connected none s = record s {
  dcrd_version = none;
  dcrd_active_err = some DcrdError.dcrd_unsuitable;
}
on_dcrd_connected (some version) s = record s {
  dcrd_version = some version;
  dcrd_active_err = none;
}

-- Appends to the queue; `notifyNewBlockEvent` starts a goroutine.
abbrev pub enqueue : BlockNtfn → State → State
enqueue n s = record s { block_ntfns = s.block_ntfns ++ some n ∷ []; signals = suc s.signals }

abbrev pub enqueue_decoded : BlockNtfnType → Option BlockHeader → State → State
enqueue_decoded type none s = s
enqueue_decoded type (some header) s = enqueue (record { ntfn_type = type; header = header }) s

-- Only a node that is suitable is listened to.
abbrev pub enqueue_from : Option DcrdError → BlockNtfnType → Option BlockHeader → State → State
enqueue_from none type header s = enqueue_decoded type header s
enqueue_from (some e) type header s = s

-- `onDcrdBlockConnected` and `onDcrdBlockDisconnected`, with what `FromBytes` makes of the header.
unfoldable pub on_dcrd_block_connected : Option BlockHeader → State → State
on_dcrd_block_connected header s =
    enqueue_from s.dcrd_active_err BlockNtfnType.block_connected header s

unfoldable pub on_dcrd_block_disconnected : Option BlockHeader → State → State
on_dcrd_block_disconnected header s =
    enqueue_from s.dcrd_active_err BlockNtfnType.block_disconnected header s

-- if len(q) > 1 { copy(q, q[1:]); q[len(q)-1] = nil }; q = q[:len(q)-1]
abbrev pub without_front : Option BlockNtfn → List (Option BlockNtfn) → List (Option BlockNtfn)
without_front n rest = drop_last (if ltb 1 (length (n ∷ rest)) then rest ++ none ∷ [] else n ∷ rest)

abbrev pub taken : List (Option BlockNtfn) → State → Option (Option BlockNtfn) × State
taken [] s = (none, s)
taken (n ∷ rest) s = (some n, record s { block_ntfns = without_front n rest })

-- One round of the loop of `Run` up to the notification it takes, or none if the queue is empty: a
-- goroutine has sent its signal.
unfoldable pub take_ntfn : State → Option (Option BlockNtfn) × State
take_ntfn s = taken s.block_ntfns (record s { signals = s.signals - 1 })

module _ {S D : Type 0} (dcrd : Dcrd) (genesis : ℕ) (server : ChainServer S D)
    (block_hash : BlockHeader → ℕ) where
  abbrev pub handle_as : BlockNtfnType → BlockHeader → Action Error D (Option (Unit {0}))
  handle_as BlockNtfnType.block_connected header =
      handle_block_connected dcrd genesis server block_hash header
  handle_as BlockNtfnType.block_disconnected header =
      handle_block_disconnected dcrd genesis server block_hash header >>= λ u. pure (some u)

  -- The rest of the round; a nil notification panics.
  unfoldable pub handle_ntfn : Option BlockNtfn → Action Error D (Option (Unit {0}))
  handle_ntfn none = crash
  handle_ntfn (some n) = handle_as n.ntfn_type n.header

  -- A signal without a notification is passed over.
  unfoldable pub handle_taken : Option (Option BlockNtfn) → Action Error D (Option (Unit {0}))
  handle_taken none = pure (some tt)
  handle_taken (some n) = handle_ntfn n
