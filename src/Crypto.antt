-- ===== src/Crypto.antt =====
-- trinci-core-new/src/crypto: the multihash.
pub mod Hash
