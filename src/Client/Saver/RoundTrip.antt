-- ===== src/Client/Saver/RoundTrip.antt =====
-- The saver against the SQLite store of the worker.
use pilot_langgraph.Prelude.{ℕ, ◌≡◌, refl, some, ◌⊎◌, inl, inr, List, [], ◌∷◌, map, String}
use pilot_langgraph.Prelude.Result.{ok}
use pilot_langgraph.Json.{Json}
use pilot_langgraph.Checkpoint.Requests.{PendingWrite}
use pilot_langgraph.Checkpoint.Sqlite.{Tables, put, get_tuple, writes_of}
use pilot_langgraph.Checkpoint.Retry.{get_tuple-put}
use pilot_langgraph.Client.Saver.{
  Serde, Configurable, ns_or_empty, parent_config_of, aput, get_request, first_value,
  decode_pending, aget_tuple, Call, gave, threw, retry_from, aretry,
}

-- A batch of writes with its first value, as it was given to `aput_writes`.
pub record Batch (V : Type 0) : Type 0 where
  pub task : String
  pub channel : String
  pub first : V
  pub others : List (String × V)

module _ {C M V : Type 0} (cs : Serde C) (ms : Serde M) (ws : Serde (List (String × V))) where
  -- The stored form of a batch.
  abbrev pub stored : Batch V → PendingWrite
  stored b = record {
    task_id = b.task;
    channel = "";
    value_b64 = ws.encode ((b.channel, b.first) ∷ b.others);
  }

  -- Of the pending writes of a checkpoint, each a batch that is not empty, the reader keeps the first
  -- value of each batch, under the channel "": the channels and the other writes are gone.
  pub decode_pending-stored :
      (batches : List (Batch V))
      → decode_pending cs ms ws (map stored batches) ≡ ok (map (λ b. (b.task, "", b.first)) batches)
  unfolding decode_pending first_value
  decode_pending-stored [] = refl
  decode_pending-stored (b ∷ l) =
      rw (ws.decode-encode ((b.channel, b.first) ∷ b.others), decode_pending-stored l) refl

  -- A checkpoint that `aput` has stored in the SQLite store comes back from `aget_tuple`, by the
  -- configuration that `aput` gave, with its metadata, that configuration, the configuration of its
  -- parent where there is one, and no pending writes. The store holds no writes for its id.
  pub aget_tuple-aput :
      (config : Configurable) (cid : String) (checkpoint : C) (metadata : M) (new_versions : Json)
      (t : Tables)
      → writes_of ((config.thread_id, ns_or_empty config.checkpoint_ns), cid) t.writes ≡ []
      → aget_tuple cs ms ws (aput cs ms ws config cid checkpoint metadata new_versions).1 (
          get_tuple
            (get_request cs ms ws (aput cs ms ws config cid checkpoint metadata new_versions).1)
            (put (aput cs ms ws config cid checkpoint metadata new_versions).0 t))
        ≡ ok (
            some (record {
              config = (aput cs ms ws config cid checkpoint metadata new_versions).1;
              checkpoint = checkpoint;
              metadata = metadata;
              parent_config =
                  parent_config_of config.thread_id
                    (ns_or_empty config.checkpoint_ns)
                    config.checkpoint_id;
              pending_writes = [];
            }))
  unfolding aput get_request aget_tuple decode_pending
  aget_tuple-aput config cid checkpoint metadata new_versions t none_yet =
      let request = (aput cs ms ws config cid checkpoint metadata new_versions).0 in
      rw
        (
          get_tuple-put request t (some cid) (inr refl),
          none_yet,
          cs.decode-encode checkpoint,
          ms.decode-encode metadata,
        )
        refl

Call-cases : {A E : Type 0} (c : Call A E) → ((a : A) × (c ≡ gave a)) ⊎ ((x : E) × (c ≡ threw x))
Call-cases (gave a) = inl (a, refl)
Call-cases (threw x) = inr (x, refl)

-- `_aretry` makes at most three attempts: it gives what the first of them to succeed gives, and what
-- the third gives where the first two raise, after the sleeps between them.
pub aretry-three :
    {A E : Type 0} (call : ℕ → Call A E)
    → aretry call ≡ (elim (call 0) [
      | gave a ↦ (gave a, [])
      | threw _ ↦ elim (call 1) [ gave a ↦ (gave a, 1 ∷ []) | threw _ ↦ (call 2, 1 ∷ 2 ∷ []) ]
    ])
unfolding aretry retry_from
aretry-three call = elim (Call-cases (call 0)) [
  | inl (a, e) ↦ rw (aretry, retry_from, e) refl
  | inr (x, e) ↦ elim (Call-cases (call 1)) [
    | inl (b, f) ↦ rw (aretry, retry_from, e, f) refl
    | inr (y, f) ↦ rw (aretry, retry_from, e, f) refl
  ]
]
