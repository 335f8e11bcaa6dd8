-- ===== src/Comn.antt =====
-- The classes of the library comn that the servers use.
pub mod Memory
pub mod Text
pub mod IoBuffer
pub mod Timer
pub mod Base64
pub mod ByteBuffer
pub mod PercentEncoding
pub mod IniFile
