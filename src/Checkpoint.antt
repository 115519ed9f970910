-- ===== src/Checkpoint.antt =====
-- The checkpoint handlers of checkpoint_worker.py: the requests and replies, and the two stores. A
-- request is the payload that checkpoint.py sends, with its fields read out (`payload["thread"]`,
-- `payload.get("checkpoint_ns") or ""` and so on); blobs are the JSON values of the wire.
pub mod Requests
pub mod Memory
pub mod Sqlite
pub mod Agree
pub mod Retry
