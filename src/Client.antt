-- ===== src/Client.antt =====
-- The client side: the connection to the daemon.
pub mod Connection
pub mod Stream
pub mod Errors
pub mod Runnable
pub mod Streaming
pub mod Calls
pub mod Pool
pub mod Discover
pub mod Echo
pub mod Saver
