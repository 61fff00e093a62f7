-- ===== src/Wire.antt =====
-- internal/transport/gsc, the GSC wire protocol: the text form of commands, the binary form of
-- command sets, and the framed, compressed stream.
pub mod Escape
pub mod Command
pub mod Binary
pub mod Stream
mod Examples
