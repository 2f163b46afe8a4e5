-- ===== src/Lib.antt =====
-- The core logic of the Astro API gateway, which serves the DAOs of SputnikDAO on NEAR: what an account
-- may do in a DAO, the draft proposals and their comments, the handling of transaction actions that the
-- indexer delivers, the policies of DAOs, the receipts and daily balances of their funds, the claims of bounties, the invalidation of the API's
-- cache, the DynamoDB service that stores most of this, the registry of web sockets, one-time passwords, and the paging of lists.
--
-- The parts and how they interact. Receipts come from a stream to the indexer processor, or from the
-- indexer's database to the aggregator, and a wallet reports single transactions; each becomes transaction
-- actions, with the status that the RPC node tells. Actions come in a batch or one by one; the transaction handler routes
-- it to the handlers of its receiver, saves the funds receipts of a DAO, and remembers the action as
-- handled. A bounty handler casts the claims that the contract reports. The draft API creates, edits,
-- closes and deletes draft proposals, and comments on them; both services ask the account permissions for
-- the rights of the caller, and the comment service writes the number of replies to the draft. Services
-- invalidate the cache by prefixes of keys, and send events to the sockets of an account.
--
-- Common: Boolean tests, lists and texts over the native numbers; Common.Effects has a service call, which
--   answers or throws and keeps what it wrote before; Common.Repository is the interface of a TypeORM
--   repository with what its driver documents, and Common.Repository.InMemory a repository in memory.
-- Permissions: libs/utils/src/index.ts (getAccountPermissions, checkPermissions), with
--   libs/proposal/src/types/proposal-type.ts and libs/dao/src/entities/role.entity.ts. The exception on a
--   group without accounts is the result none.
-- Draft.Entities: libs/draft-proposal/src/entities, libs/draft-comment/src/entities, and the state that the
--   two services share: three repositories, what was sent to the search index, and the events.
-- Draft.Proposals: libs/draft-proposal/src/mongo-draft-proposal.service.ts (create, update, delete, view,
--   save, removeSave, close, closeInternal, updateReplies), libs/opensearch/src/opensearch.service.ts
--   (indexDraftProposal).
-- Draft.Comments: libs/draft-comment/src/mongo-draft-comment.service.ts (create, update, like, removeLike,
--   dislike, removeDislike, delete).
-- Draft.Steps: any sequence of these calls, with an environment that may change between calls.
-- Transactions.Actions, Transactions.Routing, Transactions.Handling:
--   libs/transaction-handler/src/transaction-action-handler.service.ts (the constructor's table,
--   getContractHandlers, handleTransactionAction, handleTransactionActions) and
--   libs/transaction-handler/src/handled-receipt-action-dynamo.service.ts.
-- Transactions.Funds: saveDaoFunds of the same service.
-- Transactions.Near: getTxStatus of libs/near-api/src/near-api.service.ts, with libs/near-api/src/types.
-- Transactions.Mapping: libs/transaction-handler/src/transaction-action-mapper.service.ts, the casts of
--   libs/transaction-handler/src/types/transaction-action.ts, and handleNearReceipts and
--   handleNearTransaction of libs/transaction-handler/src/transaction-handler.service.ts.
-- Balances: getDailyBalanceByDaoId and getDailyTokenBalanceByDaoId of libs/dao-funds/src, with
--   getDays and patchDailyBalance of libs/utils/src/index.ts. The zone of the server is a parameter; the
--   loop over the days has one round a day from the first to today.
-- Policies: castVotePolicy, castRolePermission and castDaoPolicy of
--   libs/transaction-handler/src/types, which read the policy of a DAO's contract, and castCreateDao,
--   castAddProposalDao and castActProposalDao, which make the DAO that is stored.
-- Indexer: apps/indexer-processor/src (handleReceipt, handleNewError, resolveError, getTransactionAction,
--   the casts of types/receipt-entry.ts), with libs/error-tracker/src and saveState of the transaction
--   handler.
-- Dynamo: libs/dynamodb/src/dynamodb.service.ts. Dynamo.Values has normalizeData and denormalizeData, on
--   objects as data types; Dynamo.Items the operations on one item (putItem, updateItem, saveItem,
--   getItemById, increment, archiveItem, deleteItem, and these by type); Dynamo.Batches batchPut,
--   batchDelete and batchGet; Dynamo.Queries query, paginateAllItems and paginateAllItemsByType. The
--   document client is an interface for each of the three, with what DynamoDB documents: the limits of a
--   batch, the start keys that a query takes, and that a call may fail. Dynamo.Items.Others is about
--   increment on another table. Dynamo.Items.InMemory is a client in memory.
-- Cache: libs/cache/src/cache.service.ts, and getChunks of libs/utils/src/index.ts.
-- Bounties: libs/transaction-handler/src/types/bounty.ts, findLastClaim of
--   libs/bounty/src/bounty.service.ts, arrayUniqueBy of libs/utils/src/index.ts.
-- Sockets: libs/websocket/src/socket-state.
-- Otp: libs/otp/src/otp.service.ts. Whether a read of DynamoDB succeeds is an argument, and the scheduled
--   deletion takes the page of expired items that its query answered. A read that fails is also part of the
--   stores of handled actions and of errors.
-- Paging: paginate of libs/utils/src/index.ts.
-- Tests: the theorems at concrete inputs, and runs of the definitions.
--
-- Bounds and fuel. The loops over chunks (getChunks, clearKeysChunked) run on fuel, as many rounds as the
-- list has elements, which is enough for a positive size. The rounds of a
-- batch run on fuel, as many as the chunk has items, and the generators of pages on as many rounds as there
-- are keys left: enough where each call does something, as DynamoDB documents. The loop over the days of a
-- balance runs one round a day. All other loops recurse on
-- a list. Amounts and times are natural numbers of any size, as BigInt has them.
--
-- Not modelled. The calls of one service run one after another: interleavings at each await are left out.
-- The queries that only read (getAll, getOneById) are left out. The method handlers of the transaction
-- handler are a parameter, and so is the order in which the promise pool runs them; it runs them one after
-- another. The DAO API, the feature flags, the repositories, DynamoDB, Redis and the contract are
-- parameters or interfaces, as are bcrypt, the clock and random values. A malformed amount, at which
-- BigInt throws, is a constructor of its own; the numbers that bounties print and read are a parameter.
-- Logging and metrics are left out.
pub mod Common
pub mod Permissions
pub mod Draft
pub mod Transactions
pub mod Dynamo
pub mod Indexer
pub mod Balances
pub mod Policies
pub mod Cache
pub mod Bounties
pub mod Sockets
pub mod Otp
pub mod Paging
pub mod Tests
