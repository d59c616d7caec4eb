-- ===== src/Util.antt =====
-- web/src/app/utils.js
pub mod Url
pub mod Topic
pub mod Lines
mod Tests
pub mod Hash
pub mod Shuffle
pub mod Format
pub mod Bytes
pub mod Auth
