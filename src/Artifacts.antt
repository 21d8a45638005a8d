-- ===== src/Artifacts.antt =====
-- trinci-core-new/src/artifacts: the traits and data that the services share, and their messages.
pub mod Models
pub mod Messages
