-- ===== src/ReqRep.antt =====
-- reqrep/zmq: requests and replies between two agents.
pub mod Server
pub mod Client
pub mod Exchange
