-- ===== src/Db.antt =====
-- src/common/DbUtils.js and src/db/DbKey.js, the byte form of contract addresses and delta keys; and
-- src/db/LevelDbApi.js.
pub mod Bytes
pub mod Key
pub mod Codec
pub mod Keys
mod Tests
pub mod LevelApi
