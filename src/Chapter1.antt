-- ===== src/Chapter1.antt =====
-- The programs of chapter_1/.
pub mod Dup
pub mod Fetch
pub mod FetchAll
pub mod EchoServer
pub mod EchoArgs
mod Tests
