-- ===== src/PubSub/Transport.antt =====
-- pubsub/transport: the ZeroMQ transport of the groups.
pub mod Topics
pub mod Messages
pub mod Sockets
pub mod Auth
pub mod Listeners
pub mod Requests
pub mod Subscriptions
pub mod Replies
pub mod Connector
pub mod Published
pub mod Calm
pub mod Delivered
