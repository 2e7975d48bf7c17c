-- ===== src/Prober.antt =====
-- prober: the DIDComm agent of one node.
pub mod Peers
pub mod Agent
