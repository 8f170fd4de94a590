-- ===== src/Tacacs.antt =====
-- The TACACS+ server: src/Tacacs.cc and src/Tacacs.h.
pub mod Header
pub mod Crypt
pub mod Packet
pub mod Wire
pub mod Pair
pub mod Author
pub mod Intake
pub mod Authen
pub mod Client
pub mod Request
pub mod Replies
pub mod Response
pub mod Acct
mod Examples
