-- ===== src/Examples/Checkpoint.antt =====
-- The checkpoint stores at concrete requests.
use pilot_langgraph.Prelude.{◌≡◌, refl, inl, List, [], ◌∷◌, map, some, none}
use pilot_langgraph.Json.{str, null}
use pilot_langgraph.Checkpoint.Requests.{Key, Saved, PutRequest, WritesRequest, GetRequest}
use pilot_langgraph.Checkpoint.Memory
use pilot_langgraph.Checkpoint.Memory.{empty_store}
use pilot_langgraph.Checkpoint.Sqlite.{Tables, put, get_tuple, empty_tables, writes_of, pending_row}
use pilot_langgraph.Checkpoint.Agree.Answers.{
  Request, put_checkpoint, put_pending, run_memory, run_sqlite, get_tuple-agree,
}
use pilot_langgraph.Checkpoint.Retry.{get_tuple-put}

abbrev key : Key
key = ("thread", "")

abbrev saved : Saved
saved = record {
  parent_checkpoint_id = none;
  checkpoint_b64 = str "blob";
  metadata_b64 = str "meta";
  new_versions = null;
}

abbrev first_put : PutRequest
first_put = record { key = key; checkpoint_id = "c1"; saved = saved }

abbrev first_writes : WritesRequest
first_writes = record { key = (key, "c1"); task_id = "t"; task_path = ""; writes_b64 = str "w" }

abbrev second_writes : WritesRequest
second_writes = record { key = (key, "c1"); task_id = "t"; task_path = ""; writes_b64 = str "v" }

abbrev requests : List Request
requests = put_checkpoint first_put ∷ put_pending first_writes ∷ put_checkpoint first_put ∷ []

abbrev newest_of_thread : GetRequest
newest_of_thread = record { key = key; checkpoint_id = none }

get_tuple-agree_example :
    Memory.get_tuple newest_of_thread (run_memory requests empty_store)
    ≡ get_tuple newest_of_thread (run_sqlite requests empty_tables)
get_tuple-agree_example = get_tuple-agree requests newest_of_thread

abbrev written : Tables
written = run_sqlite requests empty_tables

get_tuple-put_example :
    get_tuple (record { key = key; checkpoint_id = none }) (put first_put written)
    ≡ some (record {
      checkpoint_id = "c1";
      saved = saved;
      pending_writes = map pending_row (writes_of (key, "c1") written.writes);
    })
get_tuple-put_example = get_tuple-put first_put written none (inl refl)
