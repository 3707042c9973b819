-- ===== src/Lib.antt =====
-- tron-shkeeper pays out USDT on TRON for a shop. A payout is accepted as a row of the table
-- payout_executions, a worker claims the row, provides energy and bandwidth for the fee-deposit
-- wallet, signs a transfer, broadcasts it and follows it on the chain, and the shop is told by
-- callbacks. The development models these parts:
--
--   app/payout_execution.py: Payout. Payout/Types and Payout/World have the row, the exceptions, the
--   shared state (the rows, the transactions that were broadcast, the queue) and the effect of a
--   method: it reads and writes the shared state, asks for the time, and may raise. Payout/Fields,
--   Transitions, Status, Execute, Refresh and Submit have the methods of PayoutExecutionStore under
--   their own names, without the leading underscore. Payout/Wallet has
--   Wallet.signed_transfer_evidence of app/wallet.py and, as parameters, the client library and the
--   functions that execute is called with. The proofs are in Payout/Evolution, Ensures, Holds,
--   Known, Replace, Statements, Legal, Safety, Guarantees and Resubmit.
--
--   app/payout_callback_outbox.py: Outbox. Outbox/Table has the table and one function for each
--   statement of SQL, Outbox/Dispatch the dispatch of a callback, Outbox/Claims, Outbox/Failing and
--   Outbox/Batch the proofs.
--
--   app/usdt_resource_provisioning.py and app/payout_resources.py: Resources. Estimate has the
--   quote, Provision the provisioning, Payout the functions that a payout uses, and Preflight the
--   checks of app/payout_status.py that come before a payout; Contracts, Quotes, Ensured and Orders
--   have the proofs. Its ensure_fee_deposit_resources_for_usdt_payout is the resource_ensurer of
--   Payout/Wallet, and its exceptions are those that is_retryable_pre_broadcast_error of
--   Payout/Fields judges.
--
--   parse_tx of app/block_scanner.py and app/payout_status.py: Confirmation, with the proofs in
--   Confirmation/Verdict. Payout/Refresh calls it with what a row promised.
--
--   app/block_scanner.py: Scanner. Scanner/Range has the loop over chunks of blocks, Scanner/Scan the
--   scan of a block, and Scanner/Events what it does to the world, with app/sweep_guard.py and the
--   functions of app/custom/aml that it calls; Progress, Kept and Notices have the proofs. It parses
--   a transaction with the parse_tx of Confirmation.
--
--   app/resource_providers/profeex.py: Profeex. Failures has the codes and their classification,
--   Client the state of a provider, Orders the order and its polling, Acquire the acquisition of
--   energy and bandwidth, Activate the activation of an address with its proof; the other proofs are
--   in Waits, Accepted, Honest, Readings and Answers. Its last_failure is the one that Resources
--   reads of a provider, whose acquire functions are parameters there.
--
--   app/custom/aml/functions.py and app/custom/aml/classes.py: Aml. Split has the list of payouts of a
--   deposit, Payouts the loop that sends them, Exact, Counts and Once the proofs.
--
--   app/payout_auth.py: Auth. Request has the verification of a signed request and the table of
--   nonces, with the two readings of the clock, Replay the proof.
--
--   app/connection_manager.py: Servers. Choice has the best server and the thread that refreshes the
--   settings row, Best and Latest the proofs.
--
--   app/fee_deposit_spend_guard.py: Spend. Guard has the lock around what spends from the
--   fee-deposit wallet, and Balance the proofs. The calls of the guard in the other parts are not
--   among these: there the code inside it stands alone.
--
-- Effect has the effects in which these functions are written, code that reads and changes a state
-- and may raise, and Effect/Contracts the rules for what holds before and after it. Base has the
-- names and lemmas that all share.
--
-- Other processes. Between any two statements of a method of Payout, the function others of its
-- environment changes the shared state, as other workers, the API and the sweeps do. A statement
-- of SQL, with its commit, is one step. The theorems ask that others be fair: it keeps the shared
-- state safe, and moves a row only to later versions of it. The outbox has such a function before
-- each statement too.
--
-- Units and bounds. Amounts are micro-USDT (the program keeps decimals with six places), times of
-- payouts microseconds, those of callbacks seconds. Numbers are natural; where the program takes a
-- difference that may be negative it takes the maximum with 0, which subtraction does here. Token
-- amounts of the scanner are in the units of the token, compared with micro-units by cross
-- multiplication; the pieces of a split are in hundredths of them. The times of ProfeeX are ticks of
-- its clock. The polling of an order runs on fuel, one request for a tick of the timeout and one
-- more, which is enough where a request takes at least a tick. The other loops go over lists, and
-- over the numbers of attempts of the configuration.
--
-- What is a parameter. The chain's client, the signing and the ABI decoders of tronpy, SHA-256,
-- random identifiers, the clock, HTTP requests, and the lock around execute. The providers of energy
-- and the activation of a destination are taken through their interface: functions of a state of
-- their own, which the world of Resources holds. Their acquisitions may raise; an
-- estimate that fails is none. A quotient of decimals is compared by cross
-- multiplication, so that the rounding of Decimal beyond 28 digits is not seen.
--
-- What is not modelled: the validation of a payout's payload (validate_payload and
-- canonical_amount), the checks and rechecks of AML deposits, the tasks, the estimate of ProfeeX and
-- the other providers' code, the expiry of locks in Redis, the HTTP routes, metrics and
-- configuration. The scans of a chunk run in threads; each is a function of its own here. The log of
-- provider calls, of purchases and of events, the list of transactions that were broadcast, the
-- lists of transfers for split deposits and the counts of the spend lock are records of the model:
-- the program writes none of them.
pub mod Aml
pub mod Auth
pub mod Base
pub mod Confirmation
pub mod Effect
pub mod Outbox
pub mod Payout
pub mod Profeex
pub mod Resources
pub mod Scanner
pub mod Servers
pub mod Spend
