-- ===== src/Gsc.antt =====
-- internal/app/gsc and internal/app/connectivity: from a command to its effect and its answer.
pub mod Connectivity
pub mod Params
pub mod Gettbl
pub mod Commands
pub mod GameCommands
pub mod ProxyCommand
pub mod OpenRoutes
pub mod Dispatch
pub mod Routes
mod Examples
