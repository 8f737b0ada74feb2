-- ===== src/Relay.antt =====
-- src/relay/relay_manager.{hpp,cpp}: the connection of the agents to a relay server, by a websocket for commands and by
-- HTTP for tasks.
pub mod Targets
pub mod Requests
pub mod Http
pub mod Dates
pub mod Calls
pub mod Projects
pub mod Manager
pub mod Commands
pub mod Reconnect
