-- ===== src/Match.antt =====
-- internal/app/match and internal/domain/match: what the server makes of a running game.
pub mod IntArg
pub mod Endgame
pub mod StartedUsers
pub mod Rolling
pub mod UpdateStat
pub mod StartPayload
pub mod Stat
mod Examples
