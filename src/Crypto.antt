-- ===== src/Crypto.antt =====
-- crypto: key pairs of the connections, the boxes of libsodium, and the packing of messages.
pub mod Keys
pub mod Cipher
pub mod Packer
