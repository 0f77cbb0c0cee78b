-- ===== src/Rpc.antt =====
-- The requests of users: src/client_api/JsonRpcServer.js, the actions of src/worker/controller/
-- actions/proxy on the gateway, and SubscribeSelfSignKeyTopicPipelineAction.js on the worker.
pub mod Server
pub mod Gateway
pub mod Worker
pub mod TaskPath
pub mod KeyPath
mod Tests
