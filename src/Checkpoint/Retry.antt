-- ===== src/Checkpoint/Retry.antt =====
-- Retried requests, and reads of what was written.
use pilot_langgraph.Prelude.{
  ◌≡◌, refl, true, ◌&&◌, Bool-cases, inl, inr, ◌⊎◌, Option, none, some, List, [], ◌∷◌, ◌++◌, map,
  String, str_eq, eqb_self, string_HasEq, pair_HasEq,
}
use pilot_langgraph.Checkpoint.Requests.{PutRequest, WritesRequest}
use pilot_langgraph.Checkpoint.Memory.{newest}
use pilot_langgraph.Checkpoint.Sqlite.{
  Tables, Row, WriteRow, rows_of, without, writes_of, has_row, pending_row, select, put, get_tuple,
  put_writes,
}
use pilot_langgraph.Checkpoint.Agree.Lists.{
  without_cid, rows_of-append, rows_of-without, row_of-without_cid, row_of-snoc,
}
use pilot_langgraph.Checkpoint.Agree.Steps.{writes_of-append}

has_row-snoc :
    (task path : String) (l : List WriteRow) (w : WriteRow)
    → w.task_id ≡ task
    → w.task_path ≡ path
    → has_row task path (l ++ w ∷ []) ≡ true
has_row-snoc task path [] w e f =
    rw (e, f, eqb_self ⦃h = string_HasEq⦄ task, eqb_self ⦃h = string_HasEq⦄ path) refl
has_row-snoc task path (v ∷ l) w e f =
    elim (Bool-cases (str_eq v.task_id task && str_eq v.task_path path)) [
      | inl g ↦ rw g refl
      | inr g ↦ rw g (has_row-snoc task path l w e f)
    ]

put_writes-has_row :
    (r : WritesRequest) (t : Tables)
    → has_row r.task_id r.task_path (writes_of r.key (put_writes r t).writes) ≡ true
unfolding put_writes
put_writes-has_row r t =
    elim (Bool-cases (has_row r.task_id r.task_path (writes_of r.key t.writes))) [
      | inl old ↦ rw (old, old) refl
      | inr new ↦
          let w : WriteRow = record {
            key = r.key;
            task_id = r.task_id;
            task_path = r.task_path;
            value = r.writes_b64;
          } in
          rw (new, writes_of-append r.key t.writes (w ∷ []), eqb_self r.key)
            (has_row-snoc r.task_id r.task_path (writes_of r.key t.writes) w refl refl)
    ]

ignored :
    (r : WritesRequest) (t : Tables)
    → has_row r.task_id r.task_path (writes_of r.key t.writes) ≡ true
    → put_writes r t ≡ t
unfolding put_writes
ignored r t h = rw h refl

-- A `checkpoint_put_writes` request that names a task, path and checkpoint that are there already
-- changes nothing, whatever it brings: so a request that is sent again changes nothing.
pub put_writes-again :
    (r r' : WritesRequest) (t : Tables)
    → r'.key ≡ r.key
    → r'.task_id ≡ r.task_id
    → r'.task_path ≡ r.task_path
    → put_writes r' (put_writes r t) ≡ put_writes r t
put_writes-again r r' t k i p = ignored r' (put_writes r t) (rw (k, i, p) (put_writes-has_row r t))

newest-snoc : (l : List Row) (r : Row) → newest (l ++ r ∷ []) ≡ some r
newest-snoc [] r = refl
newest-snoc (q ∷ []) r = refl
newest-snoc (q ∷ p ∷ l) r = newest-snoc (p ∷ l) r

select-put :
    (r : PutRequest) (t : Tables) (asked : Option String)
    → (asked ≡ none) ⊎ (asked ≡ some r.checkpoint_id)
    → select asked (rows_of r.key (put r t).checkpoints)
      ≡ some (record { seq = t.next_seq; key = r.key; cid = r.checkpoint_id; saved = r.saved })
unfolding put
select-put r t asked h =
    let new : Row = record {
      seq = t.next_seq;
      key = r.key;
      cid = r.checkpoint_id;
      saved = r.saved;
    } in
    let rest = without_cid r.checkpoint_id (rows_of r.key t.checkpoints) in
    rw
      (
        rows_of-append r.key (without r.key r.checkpoint_id t.checkpoints) (new ∷ []),
        rows_of-without r.key r.checkpoint_id t.checkpoints,
        eqb_self r.key,
      )
      (elim h [
        | inl e ↦ rw (e, newest-snoc rest new) refl
        | inr e ↦
            rw
              (
                e,
                row_of-snoc r.checkpoint_id rest new,
                row_of-without_cid r.checkpoint_id (rows_of r.key t.checkpoints),
                eqb_self ⦃h = string_HasEq⦄ r.checkpoint_id,
              )
              refl
      ])

-- What a `checkpoint_put` has stored is what the next `checkpoint_get_tuple` gives for that thread
-- and namespace, both by its id and as the newest checkpoint, also where the id was stored before,
-- with the writes that were put for it, in their order.
pub get_tuple-put :
    (r : PutRequest) (t : Tables) (asked : Option String)
    → (asked ≡ none) ⊎ (asked ≡ some r.checkpoint_id)
    → get_tuple (record { key = r.key; checkpoint_id = asked }) (put r t)
      ≡ some (record {
        checkpoint_id = r.checkpoint_id;
        saved = r.saved;
        pending_writes = map pending_row (writes_of (r.key, r.checkpoint_id) t.writes);
      })
unfolding get_tuple
get_tuple-put r t asked h = rw (get_tuple, select-put r t asked h) (unfold put in refl)
