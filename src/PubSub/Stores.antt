-- ===== src/PubSub/Stores.antt =====
-- pubsub/stores: the groups that this node is in, and the subscribers of their topics.
pub mod Group
pub mod Subscriber
