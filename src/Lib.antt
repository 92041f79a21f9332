-- ===== src/Lib.antt =====
-- A verification library of spv-wallet, a custodial wallet for Bitcoin SV written in Go.
--
-- The wallet keeps its users' contacts, their unspent outputs and the transactions they take part
-- in. To pay, a client asks for a transaction outline: the engine selects unspent outputs that fund
-- it. The signed transaction comes back, is recorded and broadcast, and the miners' service later
-- reports on it by a callback. Contacts are invited, accepted, refused and confirmed.
--
-- Prelude holds the shared helpers: tests on native numbers and texts, lists, integers, and the
-- result type `Result E A` for a Go pair of a value and an error.
--
-- Bsv: models/bsv, the fee unit, outpoints and custom instructions.
--
-- Utxo: engine/v2/transaction/outlines/utxo/internal/sql. The SQL query of inputsQueryComposer is a
-- function of the table of unspent outputs, column by column: utxos, remainingValue,
-- feeCalculatedWithoutChangeOutput, feeCalculatedWithChangeOutput, addChangeValueCalculation,
-- searchForMinimalChangeValue, chooseInputsToCoverOutputsAndFeesAndHaveMinimalChange and build.
-- selectInputsForTransaction and Select are the database transaction around it, which also sets
-- touched_at. A window sum is the sum over the rows that come before a row or with it. The quotient
-- in floating point is exact below 2 ^ 53, where the model's ceiling agrees with it. The collation of
-- the database is a parameter, a total and transitive order where a theorem needs it.
-- Utxo.Size is calculate_size.go. Utxo.Order and Utxo.Minimum have the order of the rows and the least
-- change, Utxo.Selection what the chosen rows pay for, Utxo.Growth when the change grows with
-- the rows, Utxo.Join, Utxo.Funding and Utxo.Touch the whole query and the update, and Utxo.Dust a
-- selection that does not pay.
--
-- Contact: engine/model_contact.go, engine/model_contact_status.go, engine/action_contact.go and
-- engine/model_save.go. Contact.Model has the record and its methods, Contact.Store the table, the
-- queries for one contact and Save with its hook, Contact.Client the actions of the client. An action is a
-- function from the table to a result and a table; the paymail library, the paymail hosts, the clock
-- and the failures of the database are the record `Env`. Contact.Status is about the status
-- diagram, Contact.Validity, Contact.Triples, Contact.Actions, Contact.Invitations and
-- Contact.Requests about what sequences of actions keep, and Contact.Atomic about failures.
--
-- Tx: engine/v2/transaction/txmodels, engine/v2/transaction/txsync and
-- engine/v2/database/repository/transactions.go. Tx.Model has the tracked transaction and its methods
-- TX and Mined, Tx.Repository the tables with GetTransaction and UpdateTransaction, Tx.Sync the
-- handler Handle of the callback. The go-sdk library is the record `Sdk`. Tx.Frame, Tx.Callback
-- and Tx.Applies are about what a callback changes, Tx.Sources about the input sources it removes.
--
-- Conv: conv/convert_primitives.go, with the bits that a Go conversion keeps.
--
-- Record: engine/v2/transaction/record, over the new rows of engine/v2/transaction/txmodels. Record.Model
-- has the rows and operations, Record.Addresses is addresses.go, Record.Flow tx_flow.go, Record.Outputs
-- paymail.go, custom_outputs.go and op_return.go, and Record.Service has RecordTransactionOutline and
-- RecordPaymailTransaction. A run is a result and the effects that succeeded: the notification, the
-- broadcast and the save. The repositories and network services are the record `Env`. Go maps are
-- lists in the order of the visit. Record.Effects, Record.Guards and
-- Record.Sets prove.
--
-- Ledger: SaveAll, mapOperations and mapTransaction of engine/v2/database/repository/operations.go,
-- FindByOutpoints of outputs.go there, and the rows of engine/v2/database with their methods CreateUTXO,
-- CreateDataOutput and AfterCreate. Ledger.Tables has the rows and the mapping, Ledger.Save the save with the
-- rules of the ORM for stored keys. Ledger.Backing and Ledger.Rows are about the table of unspent outputs.
--
-- Outlines: engine/v2/transaction/outlines over the selector of Utxo, and GetP2PDestinations of
-- engine/paymail/paymail_service_client.go. Outlines.Model has the specifications and the annotated inputs and
-- outputs, Outlines.Paymail is output_paymail.go, Outlines.OpReturn output_op_return.go, and
-- Outlines.Evaluate the rest, up to CreateRawTx and CreateBEEF. The paymail hosts, the users and the
-- go-sdk are the record `Env`. Outlines.Sums is about the amounts of a paymail output, Outlines.Funds about
-- what an outline pays, Outlines.Indexes about its annotations.
--
-- Beef: engine/v2/transaction/beef, and FindTransactionInputSources and queryInputSourcesBatch of
-- engine/v2/database/repository/transactions.go. Beef.Search is the search, Beef.Resolver the
-- resolver and PrepareBEEF. The pointers to source transactions are a tree. Beef.Visits and Beef.Ancestors are about
-- the search, Beef.Resolves and Beef.Prepares about the whole.
--
-- Keys: engine/v2/keys/type42 and engine/v2/custominstructions. Keys.Type42 has Derive, the destinations
-- and PaymailPKI, Keys.Interpreter Process with the resolvers of an address and of a locking script.
-- Keys.Meaning compares it with a direct description, Keys.Recovery runs it on the change of an
-- outline, and Keys.Reuse runs one interpreter twice.
--
-- Webhooks: engine/notifications and engine/model_webhook.go. Webhooks.Model has the record and its
-- repository, Webhooks.Manager the WebhookManager with the messages it handles, Webhooks.Notifier
-- sendEventToChannel and the loop of accumulateEvents as a function of the queue. Webhooks.Consumer has the
-- goroutine of a notifier as a state with small steps: each receive, each try to send, the delay after a
-- failed one, the message for a ban and the end by a cancelled context is a step of its own, and the
-- exchange may send between any two of them. A channel is a queue. Webhooks.Update and Webhooks.Serves are
-- about an update, Webhooks.Batches about the events, over Webhooks.Sublists.
--
-- Chain: engine/chain/internal/arc/broadcast.go, engine/chain/internal/arc/request.go and
-- engine/chain/internal/combined_txs_getter.go. Chain.Broadcast has Broadcast with its headers and errors; the
-- HTTP library is the parameter `post`. Chain.Getters has CombineTxsGetters and GetTransactions. Chain.Answers
-- and Chain.Fetched prove.
--
-- Draft: engine/model_draft_transactions.go and engine/utils/fees.go, where no output sends all. Draft.Model has the
-- configuration with estimateSize, estimateFee, calculateAndSetFee, setChangeDestination, getChangeSatoshis
-- and validateOutputsInputs. Satoshis wrap around at 64 bits. Floating point numbers, random numbers and
-- the go-sdk are the record `Numbers`, and the creation of destinations the parameter `make`. Draft.Change
-- is about the split of the change, Draft.Balance about the whole.
--
-- Two recursions need fuel. The search has two rounds more than there are rows, and Beef.Ancestors
-- shows that it never runs out. The resolver follows ids that are hashes of transactions, so that no
-- cycle exists; its fuel is a bound on the rank of the ids. Every other loop is structural recursion on
-- a list. The value
-- of an operation and the satoshis of a draft wrap around at 64 bits. The other integers that Go holds in 64 bits are unbounded
-- numbers: those parts only compare and add satoshis, sizes and times.
-- Not modelled: the HTTP API, log calls, the caches, the network clients, and the first version's
-- reservations and records, which are left to later work.
pub mod Prelude
pub mod Bsv
pub mod Conv
pub mod Utxo
pub mod Contact
pub mod Tx
pub mod Record
pub mod Ledger
pub mod Outlines
pub mod Beef
pub mod Keys
pub mod Webhooks
pub mod Chain
pub mod Draft
