-- ===== src/Client/Saver.antt =====
-- `PilotCheckpointSaver` of checkpoint.py: what its operations send and what they make of the
-- replies, and `_aretry`. The serializer is a parameter, a record of the library's `dumps_typed`
-- and `loads_typed`, with the base64 step of `_encode_typed` and `_decode_typed`. A `configurable`
-- is its three fields. Exceptions of a call are the library's or the connection's, of any kind `E`.
pub mod RoundTrip
use pilot_langgraph.Prelude.{
  ℕ, zero, suc, ◌+◌, ◌*◌, ◌^◌, ◌-◌, ◌≡◌, refl, ap, sym, ◌∙◌, Bool, true, false, Option, none, some,
  Option-cases, Bool-cases, inl, inr, ◌⊎◌, List, [], ◌∷◌, ◌++◌, map, String, str_eq, ◌==◌,
  if◌then◌else◌, arith,
}
use pilot_langgraph.Prelude.Result.{Result, ok, raise, ◌>>=◌, key_error, index_error}
use pilot_langgraph.Json.{Json, null}
use pilot_langgraph.Checkpoint.Requests.{
  Key, Saved, PutRequest, WritesRequest, GetRequest, ListRequest, PendingWrite, Found, Item,
}

-- `JsonPlusSerializer` behind base64: a value comes back from its encoding.
pub record Serde (A : Type 0) : Type 0 where
  pub encode : A → Json
  pub decode : Json → Result A
  pub decode-encode : (a : A) → decode (encode a) ≡ ok a

pub record Configurable : Type 0 where
  pub thread_id : String
  pub checkpoint_ns : Option String
  pub checkpoint_id : Option String

-- `.get("checkpoint_ns", "")`
abbrev pub ns_or_empty : Option String → String
ns_or_empty none = ""
ns_or_empty (some ns) = ns

-- The outcome of a call, and `_aretry`: the attempts from `i` on, of which `left` follow the next
-- one, with the sleeps in units of half a second. Every exception is tried again.
pub data Call (A E : Type 0) : Type 0 where
  gave : A → Call A E
  threw : E → Call A E

unfoldable pub retry_from : {A E : Type 0} → (ℕ → Call A E) → ℕ → ℕ → Call A E × List ℕ
retry_from call i zero = (call i, [])
retry_from call i (suc left) =
    let (result, sleeps) = retry_from call (suc i) left in
    elim (call i) [ gave a ↦ (gave a, []) | threw e ↦ (result, 2 ^ i ∷ sleeps) ]

-- `attempts` is 3.
unfoldable pub aretry : {A E : Type 0} → (ℕ → Call A E) → Call A E × List ℕ
aretry call = retry_from call 0 2

pub record CheckpointTuple (C M V : Type 0) : Type 0 where
  pub config : Configurable
  pub checkpoint : C
  pub metadata : M
  pub parent_config : Option Configurable
  pub pending_writes : List (String × String × V)

-- The configuration of the parent, where there is one: an empty id is none.
abbrev pub parent_config_of : String → String → Option String → Option Configurable
parent_config_of thread ns none = none
parent_config_of thread ns (some parent) =
    if str_eq parent ""
    then none
    else some (record { thread_id = thread; checkpoint_ns = some ns; checkpoint_id = some parent })

module _ {C M V : Type 0} (cs : Serde C) (ms : Serde M) (ws : Serde (List (String × V))) where
  -- `aput`: the payload, for `checkpoint["id"]` and the new versions, and the configuration that it
  -- gives.
  unfoldable pub aput : Configurable → String → C → M → Json → PutRequest × Configurable
  aput config cid checkpoint metadata new_versions = (
    record {
      key = (config.thread_id, ns_or_empty config.checkpoint_ns);
      checkpoint_id = cid;
      saved = record {
        parent_checkpoint_id = config.checkpoint_id;
        checkpoint_b64 = cs.encode checkpoint;
        metadata_b64 = ms.encode metadata;
        new_versions = new_versions;
      };
    },
    record {
      thread_id = config.thread_id;
      checkpoint_ns = some (ns_or_empty config.checkpoint_ns);
      checkpoint_id = some cid;
    },
  )

  -- `aput_writes`: `config["checkpoint_id"]` is there or it is a `KeyError`.
  unfoldable pub aput_writes :
      Configurable → List (String × V) → String → String → Result WritesRequest
  aput_writes config writes task_id task_path = elim config.checkpoint_id [
    | none ↦ raise key_error
    | some cid ↦ ok (record {
      key = ((config.thread_id, ns_or_empty config.checkpoint_ns), cid);
      task_id = task_id;
      task_path = task_path;
      writes_b64 = ws.encode writes;
    })
  ]

  unfoldable pub get_request : Configurable → GetRequest
  get_request config = record {
    key = (config.thread_id, ns_or_empty config.checkpoint_ns);
    checkpoint_id = config.checkpoint_id;
  }

  -- `self._decode_writes(raw["value_b64"])[0][1]`
  pub first_value : List (String × V) → Result V
  first_value [] = raise index_error
  first_value ((channel, v) ∷ _) = ok v

  pub decode_pending : List PendingWrite → Result (List (String × String × V))
  decode_pending [] = ok []
  decode_pending (raw ∷ l) = do
    writes ← ws.decode raw.value_b64
    v ← first_value writes
    rest ← decode_pending l
    ok ((raw.task_id, raw.channel, v) ∷ rest)

  -- What `aget_tuple` makes of the reply.
  unfoldable pub aget_tuple : Configurable → Option Found → Result (Option (CheckpointTuple C M V))
  aget_tuple config none = ok none
  aget_tuple config (some found) = do
    checkpoint ← cs.decode found.saved.checkpoint_b64
    metadata ← ms.decode found.saved.metadata_b64
    pending ← decode_pending found.pending_writes
    ok (
        some (record {
          config = record {
            thread_id = config.thread_id;
            checkpoint_ns = some (ns_or_empty config.checkpoint_ns);
            checkpoint_id = some found.checkpoint_id;
          };
          checkpoint = checkpoint;
          metadata = metadata;
          parent_config =
              parent_config_of config.thread_id (ns_or_empty config.checkpoint_ns)
                found.saved.parent_checkpoint_id;
          pending_writes = pending;
        }))

  -- `alist`: the request, for a configuration and a `before` that may be missing.
  unfoldable pub list_request : Option Configurable → Option Configurable → Option ℕ → ListRequest
  list_request config before limit = record {
    thread = elim config [ none ↦ none | some c ↦ some c.thread_id ];
    checkpoint_ns = elim config [ none ↦ none | some c ↦ c.checkpoint_ns ];
    before_checkpoint_id = elim before [ none ↦ none | some b ↦ b.checkpoint_id ];
    limit = limit;
  }

  -- An item of the reply, with no pending writes.
  unfoldable pub listed : Item → Result (CheckpointTuple C M V)
  listed item = do
    checkpoint ← cs.decode item.saved.checkpoint_b64
    metadata ← ms.decode item.saved.metadata_b64
    ok (record {
      config = record {
        thread_id = item.key.0;
        checkpoint_ns = some item.key.1;
        checkpoint_id = some item.checkpoint_id;
      };
      checkpoint = checkpoint;
      metadata = metadata;
      parent_config = parent_config_of item.key.0 item.key.1 item.saved.parent_checkpoint_id;
      pending_writes = [];
    })

  unfoldable pub alist : List Item → Result (List (CheckpointTuple C M V))
  alist [] = ok []
  alist (item ∷ items) = do tuple ← listed item; rest ← alist items; ok (tuple ∷ rest)
