-- ===== src/Lib.antt =====
-- A model of DRX-Wallet, a custodial wallet of several networks, and its correctness.
--
-- The program is a library with workers that share one database and run in intervals. A picker puts
-- requested withdrawals into a transaction, a signer signs it, a sender submits it to the network,
-- and a verifier waits for its end, settles the balances and also verifies transfers between wallets.
-- A crawler reads blocks and records deposits; a collector gathers them in hot wallets, for which a fee
-- seeder sends their addresses the fee where it is missing. A registry names the currencies. Each tick
-- of a worker is one database transaction: it takes effect as a whole or, if it throws, not at all.
--
-- Files and the code that they model (paths from the repository's root):
--   Base          lists as tables, integers, results of promises, and their lemmas.
--   Schema        libs/wallet-core/src/Enums.ts and entities/*.ts, as data types and records of the
--                 columns that are read; the database is the record of its tables. Registry is
--                 CurrencyRegistry, Gateway the calls of BaseGateway, World what else a tick depends on.
--   RawDb         libs/wallet-core/src/rawdb: one module for a group of files, one definition for a
--                 function, in snake case (getNextPickedWithdrawals is get_next_picked_withdrawals).
--   Workers       libs/wallet-core/src/callbacks/active: pickerDoProcess, signerDoProcess,
--                 senderDoProcess, verifierDoProcess with both halves, collectorDoProcess (CollectTx,
--                 Collector) and feeSeederDoProcess (Seeder), and insertWithdrawalRecord of
--                 hd_wallet/DBUtils.ts.
--   Lifecycle     the abstract machine of requests and bundles that the workers implement, its
--                 invariant (Keeps), what becomes of a request (Fates), the refinement of each worker
--                 (Refine) and the ticks of all of them in any order (Ticks).
--   Ledger        balances against their logs, and what a verified transaction costs.
--   Chain         libs/sota-common/src/types: the transfer entries of a transaction.
--   Deposits      rawdb/processOneDepositTransaction.ts, filterWatchingAddresses.ts and
--                 callbacks/crawl/onCrawlingTxs.ts; insertDeposit.ts is in RawDb/Deposits.
--   Collection    what the collector and the fee seeder do with deposits; the query of findDeposits.ts is in
--                 RawDb/Collectable.
--   Currencies    libs/sota-common/src/registries/CurrencyRegistry.ts: its maps and lists as a record, and
--                 one function for each method. A callback is the list of the calls that it got.
--   Evm           gas price, construction, submission and status in libs/sota-eth/src/EthGateway.ts,
--                 Erc20Gateway.ts and EthTransaction.ts, and getOneTransaction of BaseGateway.ts.
--   Gateways      getTransactionStatus of libs/sota-common/src/BitcoinBasedGateway.ts,
--                 libs/sota-xrp/src/XrpGateway.ts, libs/sota-ada/src/CardanoGateway.ts and
--                 libs/sota-eos/src/EosGateway.ts, with _getOneTransaction and the texts of bytes of the last, the
--                 cache of BaseGateway.ts, and the workers over them.
--   Crawler       the tick of libs/sota-common/src/BaseCrawler.ts.
--   Blocks        the reading of blocks and their transactions in libs/sota-common/src/BaseGateway.ts.
--   Coins         the unspent outputs and the choice of them in libs/sota-common/src/BitcoinBasedGateway.ts,
--                 and the raw transaction that is made of them; bitcore-lib is the parameter Bitcore.
--   Administration  libs/wallet-core/src/hd_wallet/DBUtils.ts: cold wallets and thresholds (Settings,
--                 Thresholds), tokens, accounts and reports; key service and seeds are parameters.
--   Webhooks      libs/wallet-core/src/WebhookProcessor.ts and rawdb/insertWebhookLog.ts; the request is a
--                 parameter, the texts of request and answer are left out of the log.
--   Tests         runs on small inputs, and each theorem of the list below with conditions applied to one.
--
-- State and operations: an operation takes the database and gives the new one, in Outcome where it may
-- throw. Amounts are integers in the smallest unit. The promises that the source awaits together run in the
-- order of their list, each after the one before. This is a limit of the model in two places: where a
-- transaction has two outputs of one currency to one address, insertDeposit can find neither and fail on
-- the unique index, while the model records the first; and upperThresholdHandle can read for all hot
-- wallets before it writes for any, while in the model a later one sees what was written for an earlier
-- one. The same goes for a failed promise, whose siblings are not run in the model; the database
-- transaction is undone in both. A query with a WHERE clause is a selection from the rows in the order of
-- their keys, and saving an entity replaces the row with its key. The loops are recursions on lists. Only
-- the retries of sendRawTransaction take fuel, of which six is enough since the source gives up at the
-- fifth retry.
--
-- What is a parameter: the clock, generated keys, the nodes of the networks and the signing libraries,
-- and what the query builder counts for the query of getNextPickedWithdrawals. Generated keys are fresh
-- (IsFresh). The workers see the registry through an interface with two laws, disjoint platforms and
-- symbols that find their own currency, and Currencies.Platforms says which states of CurrencyRegistry
-- have them. The record Collecting holds what the collector and the seeder ask of the gateways. The cache of
-- getOneTransaction is a function that the theorems take as it comes, but for Gateways.Caches, which says what
-- it can hold.
--
-- That query is data, the texts and lists that the query builder is given (CountQuery). The operator In is
-- given as the parameters of the text of a column, and what this counts is for the query builder to say. So
-- the machine has two readings: the strict one takes the count to be right (CountsPending), the other one
-- takes nothing for granted of it. Theorems with an argument `strict` hold for both.
--
-- Not modelled: the texts of the mails, the Cardano wallet, key derivation and encryption, what the gateways
-- only pass on between a node or a signing library and their caller, message queues, timers and the entry
-- points in bin.
pub mod Base
pub mod Schema
pub mod RawDb
pub mod Workers
pub mod Lifecycle
pub mod Ledger
pub mod Chain
pub mod Deposits
pub mod Crawler
pub mod Blocks
pub mod Currencies
pub mod Evm
pub mod Gateways
pub mod Collection
pub mod Administration
pub mod Coins
pub mod Webhooks
pub mod Tests
