-- ===== src/Server.antt =====
-- The server: serverlib/commands/*.c, serverlib/command.c and server.c.
pub mod Accounts
pub mod Talk
pub mod Sharing
pub mod Connection
pub mod Dispatch
pub mod Loop
pub mod Search
pub mod Links
pub mod Sessions
pub mod Logins
pub mod Requests
pub mod Table
pub mod Messages
pub mod Rounds
pub mod Input
pub mod Receive
pub mod Output
pub mod Guards
pub mod Online
pub mod Start
pub mod Changes
