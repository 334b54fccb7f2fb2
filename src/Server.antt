-- ===== src/Server.antt =====
-- Serverlab: the dictionary and the string routines of the chat server.
pub mod Chat
pub mod Dictionary
pub mod Entity
pub mod Fields
pub mod Lines
pub mod Output
pub mod Query
