-- ===== src/Lib.antt =====
-- enigma-p2p: the worker node of the Enigma network.
--
-- A worker receives tasks from users and from the network, verifies them against the Enigma
-- contract on Ethereum, has its Core compute them, and publishes and stores the results. The parts
-- modelled here, and how they meet:
--
-- Base: shared names; Boolean tests, lists and options (Base/Tests, Base/Lists); a JavaScript
--   object as a map (Base/Dict); `remove0x` and `add0x` of src/common/utils.js (Base/Text).
-- Verifier: src/ethereum/EthereumVerifier.js.
--   Params: the array of worker parameters (`_sortWorkerParams`, `_findWorkerParamForTask`,
--     `_updateWorkerParamNow`, the window of `_newEpochEventCallback`); Window: its theorems.
--   Select: `selectWorkerGroup` and `_verifySelectedWorker`; Fairness and Groups: its theorems.
--   Check: `_checkDeployResult`, `_checkComputeResult`, `_checkComputeResultEvent`,
--     `_verifyTaskCreateParams`, `_verifyTaskCreationNow`, `_verifyTaskSubmissionNow`; Verdicts:
--     its theorems.
--   Listeners: the state, the record `Verifier`, with the two maps of tasks that wait, and one
--     function for each step: a task or result is submitted (`start_creation`,
--     `start_submission`), the contract answers (`answer_creation`, `answer_submission`), an
--     event arrives (`on_creation_event`, `on_submission_event`), an epoch begins
--     (`on_new_epoch`). A promise is a number, and a step returns the promises that it resolves.
--     Timeouts and Events hold the theorems.
--   Chain: the event parsers of src/ethereum/EnigmaContractReaderAPI.js.
-- Tasks: src/worker/tasks.
--   Result and Task: Result.js, Task.js and the subclasses; Json: their stored form; RoundTrip:
--     its theorem.
--   Level: the database as an interface with laws, and an instance in memory; Manager:
--     TaskManager.js over it, one function per method; Stored and Lifecycle: its theorems.
-- Db: src/common/DbUtils.js and src/db/DbKey.js; Bytes and Key hold the definitions, Codec and
--   Keys the theorems. LevelApi: src/db/LevelDbApi.js.
-- Sync: the synchronisation with the chain.
--   Compare: src/ethereum/StateSync.js; Plan and Surplus: its theorems.
--   Ranges: src/worker/state_sync/receiver/LocalMissingStatesResult.js, the requests; Covered and
--     Requests: their theorems, the second together with Compare.
--   Accept: src/worker/state_sync/receiver/StateSyncReqVerifier.js, and the map it reads; Received,
--     Accepting and Code: its theorems together with Compare.
--   Messages: src/policy/p2p_messages/sync_messages.js over src/common/EncoderUtil.js; Provide: the
--     streams of src/worker/state_sync/provider/Provider.js and those of the receiver, for one
--     request; Exchange: its theorem, together with Requests and Accepting.
--   Receive: `trySyncReceive` of src/worker/state_sync/receiver/Receiver.js and
--     src/worker/controller/actions/sync/TryReceiveAllAction.js; Providers: its theorem.
--   Finding: `findProvidersBatch` of Receiver.js and FindProviderResult.js beside it. Announce: the
--     actions that announce and identify states, and `provideContentsBatch` of Provider.js.
--   Pipeline: src/worker/controller/actions/sync/ReceiveAllPipelineAction.js; Running: its theorems.
-- Actions: src/worker/controller/actions.
--   StoreResult: tasks/VerifyAndStoreResultAction.js, with what it calls as a record; Guarded and
--     Failure: its theorems.
--   Commit: ethereum/CommitReceiptAction.js, and Publish: tasks/PublishTaskResultAction.js, which
--     calls it; Settled: the theorem on the first; Announced and Rejected: those on both.
--   Execute: tasks/StartTaskExecutionAction.js, VerifyNewTaskAction.js and ExecuteTaskAction.js;
--     Flow, with ReplyId: a task from its request to its result through them and the manager of
--     Tasks.
--   Init: InitWorkerAction.js; Account: the actions on the registration of the worker, and its health.
-- P2p: Messages: src/policy/p2p_messages/messages.js and src/policy/policy.js; Handler:
--   src/worker/handlers/ProtocolHandler.js; Node: the requests of src/worker/EnigmaNode.js, with
--   their theorem.
-- StateKeys: the exchange of the keys of Core with the principal node.
--   Principal: src/policy/p2p_messages/principal_messages.js and
--     src/worker/handlers/PrincipalNode.js; Attempts: the theorem on its retries.
--   System: src/worker/controller/actions/GetStateKeysAction.js, the flag that it shares with
--     HandleVerifiedTaskAction.js and ExecuteTaskAction.js, and the executions that are under way,
--     as a machine over calls and answers; Invariant, Waiting and Stored: its theorems.
-- Ethereum: src/ethereum/EnigmaContractWriterAPI.js, and EnigmaContractReaderAPI.js beside it.
--   Reader: the calls that read the contract and the subscription to an event, of
--     EnigmaContractReaderAPI.js; Subscribed: its theorem.
--   Account: the transactions on the worker itself.
--   Writer: options, arguments, and the promise of a transaction (`send_call`), which is what
--     Actions/Commit takes as the call of the contract; Confirmed and Committed: the theorems, the
--     second on both.
-- Rpc: the requests of users.
--   Server: src/client_api/JsonRpcServer.js; Gateway: the actions of
--     src/worker/controller/actions/proxy; Worker:
--     src/worker/controller/actions/SubscribeSelfSignKeyTopicPipelineAction.js, which starts tasks
--     by Actions/Execute; TaskPath and KeyPath: the theorems on a call through all three.
-- Channels: the way from a request of the worker to the response of Core.
--   Envelop: src/main_controller/channels/Envelop.js; Ipc: src/core/ipc.js and the action that sends;
--     Runtime: src/core/CoreRuntime.js, its actions, and the Communicator of
--     src/main_controller/channels, as a machine over requests and responses; Emit, Callbacks,
--     Matching and Answering: its theorem.
-- Runtime: src/common/StoppableTask.js; Retry holds the definitions, RetryBound the theorem.
-- The verifier's answer is what `on_verify_task` of the manager takes as its Boolean; results are
-- the values of Tasks/Result in both.
--
-- Conventions. Numbers are natural numbers: block numbers, balances, gas and indices are never
-- negative in the code. Those that web3 hands on as decimal texts are numbers too, although
-- `_sortWorkerParams` compares the texts. Hash functions (keccak256 of a package) are parameters
-- of the definitions that use them, and no theorem supposes anything of them. The draw of
-- `selectWorkerGroup` is a parameter that takes seed, contract and nonce. An exception, and a
-- promise that never settles, are values of the result types. The fuel of `select_loop` counts its
-- turns: the code's loop does not end where the group asked for is larger than the set of workers
-- that can be drawn; for the group of one that `_verifySelectedWorker` asks for, one unit is
-- enough. The fuel of a retried task counts its executions; `n + 3` is enough for a maximum of `n
-- + 1` retries.
--
-- Not modelled: network, sockets, terminal and HTTP input and output, logging; the building of web3
-- and libp2p objects, since they only call packages; the wiring of the runtimes; the mock of Core; and
-- the actions of the controller that hand a call on.
pub mod Actions
pub mod Base
pub mod Channels
pub mod Db
pub mod Ethereum
pub mod P2p
pub mod Rpc
pub mod Runtime
pub mod StateKeys
pub mod Sync
pub mod Tasks
pub mod Verifier
