-- ===== src/Lib.antt =====
-- dcrros is a Rosetta server for Decred. It follows the chain of a dcrd node, keeps an index of
-- account balances and unspent outputs in a database, and answers queries from that index. This
-- library models its core as pure functions and proves what makes them correct.
--
-- The parts, and where they are:
--   Prelude     shared names, Go maps as association lists, slices, int64 as bit patterns, and the
--               results of Go functions (a value, an error, or a panic) with the state beside them.
--   BackendDb   backend/backenddb/interface.go: the errors of the database interface, outpoints,
--               and in `UtxoIndex` the utxo index as operations with the laws the server relies on.
--   MemDb       backend/internal/memdb/memdb.go. `MemDb.State` has `MemDB` and `transaction`;
--               `Balances` has `Balance`, `LastProcessedBlock`, `ProcessedBlockHash` and
--               `StoreBalances`; `Rollback` has `RollbackTip`; `Utxos` has `AddUtxo`, `DelUtxo` and
--               `ListUtxos`; `Commit` has `Update`, `View` and `Close`. The proofs are in the other
--               modules of that folder.
--   BadgerDb    backend/internal/badgerdb. `Keys` has the keys of db_ops.go, and `BadgerDb` itself its
--               reads and writes and the calls of badgerdb.go, over a badger transaction (`Txn`).
--               `Latest` and `Writes` say what they rely on of badger, `Sample` is a small store.
--   Wire        what the program reads of dcrd's package `wire`, and, as the record `Dcrd`, the
--               functions of dcrd that it calls: parameters of the model.
--   Types       `Ops` is types/ops.go, `Address` the account names of types/address.go, `Block` the
--               operations of types/block.go: `iterateBlockOpsInTx` and `IterateBlockOps`, over any
--               callback and any source of previous outputs. The modules below `Block` have the
--               proofs; `Amounts` says what a block does to an account, apart from any run.
--               `Errors` is types/errors.go, `Amount` types/amount.go, `Account` the reading of accounts
--               of types/address.go. `Metadata` and `Transactions` are types/transactions.go, with
--               `Transactions.Signing` and `Signatures` for what is signed; `Block.Rosetta` is `ROp`,
--               `Block.Mempool` `txMetaToRosetta` and `MempoolTxToRosetta`.
--               `Rosetta` has the fields of the Rosetta library's types, and `Text` what is called of
--               Go's strconv, strings and encoding/hex.
--   Sync        what an operation does to the utxo index: when its block is connected, in the
--               callback of `preProcessAccountBlock` (backend/svc_account.go), and when it is rolled
--               back, in the callback of `rollbackTip` (backend/sync.go). `MemDb.Index` has
--               the in-memory database as such an index. `RollBack` is `rollbackTip` and
--               `rollbackDbChain`, inside a transaction; `Reorg` is `reorgToParentOf`, `switchChainTo`
--               and the handlers of block notifications, outside. `Links` and `Process` say what
--               they rely on of a database (`IsChain`) and of its transactions (`IsServer`);
--               `Mem` has the in-memory database in their place.
--   Accounts    the transaction of `preProcessAccountBlock` (backend/svc_account.go), which works out
--               and stores the balances of a block, for a nil utxo set. `Accounts.Mem` has
--               the in-memory database in that place.
--   Server      backend/server.go: the queue of block notifications. `onDcrdConnected`,
--               `onDcrdBlockConnected` and `onDcrdBlockDisconnected` are functions on the state that the
--               mutex guards, with what `checkDcrd` and `FromBytes` give; `take_ntfn` and
--               `handle_ntfn` are a round of `Run`. `Server.Queue` has them as steps in any order.
--   Outputs     `prevOutsFetcher` of backend/svc_block.go, which finds the outputs that inputs spend. dcrd
--               gives a transaction or an error for a hash.
--   Construction  backend/svc_construction.go. `Construction` itself is `constructionTx`, the text that
--               passes between the calls; `Derive` is `ConstructionDerive`, and `Service` has the other
--               handlers, as functions of the fields of their requests. What they call of dcrd is in
--               the records `CodecLib`, `KeyLib`, `WireLib` and `SignLib`.
--
-- Conventions. A Go function keeps its name in snake case. A call inside a database transaction
-- takes the database and the transaction and gives both back with its result, also after an error.
-- Heights and amounts are int64 values, kept as bit patterns below 2 ^ 64; a hash is its bytes read
-- as one number. A `range` loop over a map, whose order Go leaves open, goes from the last entry of
-- the association list to the first. `sort.Search` has its loop on fuel, and as many rounds as the
-- slice is long are enough.
--
-- The loops of `rollbackDbChain` are on fuel and give `none` where it runs out. Each has as much fuel
-- as the height that it counts down, which is enough where `RollbackTip` lowers the tip.
--
-- An error made by fmt.Errorf or by Msgf is its format. The decimal print of an int64 has fuel for
-- twenty digits, which every uint64 fits.
--
-- The loops of types/block.go share one `Op` that Go changes in place; the model passes it from call
-- to call.
--
-- Not modelled: contexts and locks (transactions run one after another), logging, the network, and
-- the packages of dcrd, Rosetta and badger. Nor are the opening, the commits and the closing of the
-- badger database, the run over a block with a utxo set, `processSequentialBlocks`,
-- `WireBlockToRosetta`, the client of dcrd in backend/dcrd.go, or the services but for the
-- construction API and `prevOutsFetcher`.
pub mod Accounts
pub mod BackendDb
pub mod BadgerDb
pub mod Construction
pub mod MemDb
pub mod Outputs
pub mod Prelude
pub mod Server
pub mod Sync
pub mod Types
pub mod Wire
