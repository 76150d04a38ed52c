-- ===== src/Examples.antt =====
-- Tests on concrete inputs, and an instance of each theorem that has hypotheses.
mod Replies
mod Bodies
mod Ehlo
mod Sessions
mod Addresses
mod Headers
mod Orchestrators
mod Reactors
mod Logs
mod Engines
