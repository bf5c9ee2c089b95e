-- ===== src/Server.antt =====
-- database/newSimpleServer/simple_server.c: the server in front of Redis, its commands, the root
-- key, and updates that read and write in two critical sections.
pub mod Redis
pub mod Values
pub mod Update
pub mod Commands
pub mod Turn
