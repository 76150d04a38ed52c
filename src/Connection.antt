-- ===== src/Connection.antt =====
-- src/smtp_connection.c: the connection's state machine. State has the data, Io what every handler
-- does, Handlers one function for each handler, Machine the calls of the orchestrator.
pub mod State
pub mod Io
pub mod Handlers
pub mod Machine
pub mod Security
pub mod Runs
pub mod Frame
pub mod Finished
pub mod Forgets
pub mod Greeting
pub mod Bounds
pub mod Progress
pub mod Reachable
