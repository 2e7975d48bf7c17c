-- ===== src/PubSub.antt =====
-- pubsub: the group agent, its stores, its clock layer, its checksums and its transport.
pub mod Validator
pub mod Syncer
pub mod Stores
pub mod Transport
pub mod Node
pub mod Processor
pub mod Agent
pub mod Views
