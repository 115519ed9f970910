-- ===== src/Ipc.antt =====
-- src/pilot_langgraph/_ipc.py: the daemon's wire format, its codecs and the event stream.
pub mod Bytes
pub mod Address
pub mod Encode
pub mod Parse
pub mod Events
