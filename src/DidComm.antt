-- ===== src/DidComm.antt =====
-- didcomm: invitations, peer DIDs, connection messages and feature discovery.
pub mod Did
pub mod Invitation
pub mod Connection
pub mod Discovery
