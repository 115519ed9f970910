-- ===== src/Checkpoint/Requests.antt =====
-- The payloads of the four checkpoint handlers, and their replies.
use pilot_langgraph.Prelude.{ℕ, Option, List, String}
use pilot_langgraph.Json.{Json}

-- `(thread, ns)`, and `(thread, ns, checkpoint_id)`.
abbrev pub Key : Type 0
Key = String × String

abbrev pub WritesKey : Type 0
WritesKey = Key × String

-- What both stores keep of a `checkpoint_put`, less its id.
pub record Saved : Type 0 where
  pub parent_checkpoint_id : Option String
  pub checkpoint_b64 : Json
  pub metadata_b64 : Json
  pub new_versions : Json

pub record PutRequest : Type 0 where
  pub key : Key
  pub checkpoint_id : String
  pub saved : Saved

pub record WritesRequest : Type 0 where
  pub key : WritesKey
  pub task_id : String
  pub task_path : String
  pub writes_b64 : Json

pub record GetRequest : Type 0 where
  pub key : Key
  pub checkpoint_id : Option String

-- `checkpoint_ns` may be missing here, and so may the thread.
pub record ListRequest : Type 0 where
  pub thread : Option String
  pub checkpoint_ns : Option String
  pub before_checkpoint_id : Option String
  pub limit : Option ℕ

pub record PendingWrite : Type 0 where
  pub task_id : String
  pub channel : String
  pub value_b64 : Json

-- `{"found": False}` is `none`.
pub record Found : Type 0 where
  pub checkpoint_id : String
  pub saved : Saved
  pub pending_writes : List PendingWrite

pub record Item : Type 0 where
  pub key : Key
  pub checkpoint_id : String
  pub saved : Saved
