-- ===== src/Checkpoint/Agree/Answers.antt =====
-- Pending writes, and what the stores answer.
use pilot_langgraph.Prelude.{
  ◌≡◌, refl, sym, ap, subst, ◌∙◌, false, Bool-cases, Option-cases, inl, inr, Option, none, some,
  List, [], ◌∷◌, map, map-append, String, str_eq, value_of, value_of-assign, eqb, eqb_self,
  string_HasEq, pair_HasEq, eq_iff, arith, append-nil,
}
use pilot_langgraph.Checkpoint.Requests.{
  Key, WritesKey, Saved, PutRequest, WritesRequest, GetRequest, Found,
}
use pilot_langgraph.Checkpoint.Memory
use pilot_langgraph.Checkpoint.Memory.{
  Store, Write, remove, list_of, newest, has_write, add_write, empty_store, get_at, get_or_newest,
  pending_write,
}
use pilot_langgraph.Checkpoint.Sqlite
use pilot_langgraph.Checkpoint.Sqlite.{
  Tables, Row, WriteRow, rows_of, row_of, without, writes_of, has_row, empty_tables, pending_row,
  select,
}
use pilot_langgraph.Checkpoint.Agree.{
  Distinct, saved_of, cids, SameThread, Same, write_of, empty-Same,
}
use pilot_langgraph.Checkpoint.Agree.Steps.{put-Same, has_write-map, writes_of-append}

-- The writes of one checkpoint behind a `put_writes` for it.
module _ (r : WritesRequest) where
  abbrev new_row : WriteRow
  new_row = record {
    key = r.key;
    task_id = r.task_id;
    task_path = r.task_path;
    value = r.writes_b64;
  }

  writes-here :
      (s : Store) (t : Tables)
      → list_of (value_of r.key s.writes) ≡ map write_of (writes_of r.key t.writes)
      → list_of (value_of r.key (Memory.put_writes r s).writes)
        ≡ map write_of (writes_of r.key (Sqlite.put_writes r t).writes)
  unfolding Memory.put_writes Sqlite.put_writes
  writes-here s t h =
      let rows = writes_of r.key t.writes in
      rw
        (
          value_of-assign r.key r.key (add_write r (list_of (value_of r.key s.writes))) s.writes,
          eqb_self r.key,
          h,
          has_write-map r.task_id r.task_path rows,
        )
        (elim (Bool-cases (has_row r.task_id r.task_path rows)) [
          | inl old ↦ rw old refl
          | inr new ↦
              rw (new, writes_of-append r.key t.writes (new_row ∷ []), eqb_self r.key)
                (sym (map-append write_of rows (new_row ∷ [])))
        ])

  writes-there :
      (s : Store) (t : Tables) (k : WritesKey)
      → eqb r.key k ≡ false
      → list_of (value_of k s.writes) ≡ map write_of (writes_of k t.writes)
      → list_of (value_of k (Memory.put_writes r s).writes)
        ≡ map write_of (writes_of k (Sqlite.put_writes r t).writes)
  unfolding Memory.put_writes Sqlite.put_writes
  writes-there s t k ne h =
      rw (value_of-assign r.key k (add_write r (list_of (value_of r.key s.writes))) s.writes, ne, h)
        (elim (Bool-cases (has_row r.task_id r.task_path (writes_of r.key t.writes))) [
          | inl old ↦ rw old refl
          | inr new ↦
              rw
                (
                  new,
                  writes_of-append k t.writes (new_row ∷ []),
                  ne,
                  append-nil (writes_of k t.writes),
                )
                refl
        ])

  put_writes_checkpoints : (t : Tables) → (Sqlite.put_writes r t).checkpoints ≡ t.checkpoints
  unfolding Sqlite.put_writes
  put_writes_checkpoints t =
      elim (Bool-cases (has_row r.task_id r.task_path (writes_of r.key t.writes))) [
        | inl old ↦ rw old refl
        | inr new ↦ rw new refl
      ]

  put_writes-Same :
      (s : Store) (t : Tables) → Same s t → Same (Memory.put_writes r s) (Sqlite.put_writes r t)
  put_writes-Same s t h = record {
    threads = λ k. rw (put_writes_checkpoints t) (unfold Memory.put_writes in h.threads k);
    writes = λ k. elim (Bool-cases (eqb r.key k)) [
      | inl e ↦
          subst
            (λ j.
              list_of (value_of j (Memory.put_writes r s).writes)
              ≡ map write_of (writes_of j (Sqlite.put_writes r t).writes))
            ((pair_HasEq.eqb_iff r.key k).0 e) (writes-here s t (h.writes r.key))
      | inr ne ↦ writes-there s t k ne (h.writes k)
    ];
  }

-- What a row answers.
abbrev answer : Key → List WriteRow → Option Row → Option Found
answer k writes none = none
answer k writes (some row) = some (record {
  checkpoint_id = row.cid;
  saved = row.saved;
  pending_writes = map pending_row (writes_of (k, row.cid) writes);
})

pending_same : (l : List WriteRow) → map pending_write (map write_of l) ≡ map pending_row l
pending_same [] = refl
pending_same (w ∷ l) = ap (◌∷◌ (pending_row w)) (pending_same l)

row_of-cid :
    (cid : String) (rows : List Row) (row : Row) → row_of cid rows ≡ some row → row.cid ≡ cid
row_of-cid cid [] row h = absurd (ground (arith, h))
row_of-cid cid (r ∷ rows) row h = elim (Bool-cases (str_eq r.cid cid)) [
  | inl e ↦
      let same : r ≡ row = ground (arith, e, h) in
      ap (λ (q : Row). q.cid) (sym same) ∙ (eq_iff r.cid cid).0 e
  | inr e ↦ row_of-cid cid rows row (rw e at h)
]

get_at-answer :
    (k : Key) (cid : String) (records : List (String × Saved)) (rows : List Row) (s : Store)
    (t : Tables)
    → Same s t
    → value_of cid records ≡ saved_of (row_of cid rows)
    → get_at k records cid s ≡ answer k t.writes (row_of cid rows)
get_at-answer k cid records rows s t h e = elim (Option-cases (row_of cid rows)) [
  | inl n ↦ rw (get_at, e, n) refl
  | inr (row, n) ↦
      let same : row.cid ≡ cid = row_of-cid cid rows row n in
      rw (get_at, e, n, same, h.writes (k, cid), pending_same (writes_of (k, cid) t.writes)) refl
]

newest-cids :
    (rows : List Row)
    → newest (cids rows) ≡ (elim (newest rows) [ none ↦ none | some r ↦ some r.cid ])
newest-cids [] = refl
newest-cids (r ∷ []) = refl
newest-cids (r ∷ q ∷ rows) = newest-cids (q ∷ rows)

clash : {A : Type 0} {a : A} → none ≡ some a → ⊥
clash h = ground (arith, h)

newest-found :
    (rows : List Row) (r : Row) → Distinct rows → newest rows ≡ some r → row_of r.cid rows ≡ some r
newest-found [] r d h = absurd (ground (arith, h))
newest-found (q ∷ []) r d h =
    let same : q ≡ r = ground (arith, h) in
    subst (λ x. row_of x.cid (q ∷ []) ≡ some x) same (rw (eqb_self ⦃h = string_HasEq⦄ q.cid) refl)
newest-found (q ∷ p ∷ rows) r d h =
    let rest = newest-found (p ∷ rows) r d.1 h in
    elim (Bool-cases (str_eq q.cid r.cid)) [
      | inl e ↦
          absurd (clash (sym d.0 ∙ ap (λ x. row_of x (p ∷ rows)) ((eq_iff q.cid r.cid).0 e) ∙ rest))
      | inr e ↦ rw e rest
    ]

-- An id is asked for, or none.
select-answer :
    (k : Key) (asked : Option String) (records : List (String × Saved)) (rows : List Row)
    (s : Store) (t : Tables)
    → Same s t
    → SameThread (list_of (value_of k s.order)) records rows
    → get_or_newest k records asked s ≡ answer k t.writes (select asked rows)
select-answer k (some cid) records rows s t h e =
    get_at-answer k cid records rows s t h (e.found cid)
select-answer k none records rows s t h e = elim (Option-cases (newest rows)) [
  | inl n ↦ rw (get_or_newest, e.ids, newest-cids rows, n) refl
  | inr (row, n) ↦
      rw (get_or_newest, e.ids, newest-cids rows, n)
        (get_at-answer k row.cid records rows s t h (e.found row.cid)
          ∙ ap (answer k t.writes) (newest-found rows row e.distinct n))
]

no_rows :
    (rows : List Row)
    → ((cid : String) → none ≡ saved_of (row_of cid rows))
    → (asked : Option String) → select asked rows ≡ none
no_rows [] h none = refl
no_rows [] h (some cid) = refl
no_rows (r ∷ rows) h asked =
    elim (clash {a = r.saved} (h r.cid ∙ rw (eqb_self ⦃h = string_HasEq⦄ r.cid) refl)) [ ]

records-answer :
    (k : Key) (asked : Option String) (records : List (String × Saved)) (rows : List Row)
    (s : Store) (t : Tables)
    → Same s t
    → SameThread (list_of (value_of k s.order)) records rows
    → (elim records as (λ _. Option Found) [ [] ↦ none | x ∷ l ↦ get_or_newest k (x ∷ l) asked s ])
      ≡ answer k t.writes (select asked rows)
records-answer k asked [] rows s t h e = rw (no_rows rows e.found asked) refl
records-answer k asked (x ∷ l) rows s t h e = select-answer k asked (x ∷ l) rows s t h e

get_tuple-Same :
    (q : GetRequest) (s : Store) (t : Tables)
    → Same s t
    → Memory.get_tuple q s ≡ Sqlite.get_tuple q t
unfolding Memory.get_tuple Sqlite.get_tuple
get_tuple-Same q s t h =
    records-answer q.key q.checkpoint_id _ (rows_of q.key t.checkpoints) s t h (h.threads q.key)
    ∙ elim (Option-cases (select q.checkpoint_id (rows_of q.key t.checkpoints))) [
      | inl n ↦ rw (Sqlite.get_tuple, n) refl
      | inr (row, n) ↦ rw (Sqlite.get_tuple, n) refl
    ]

pub data Request : Type 0 where
  put_checkpoint : PutRequest → Request
  put_pending : WritesRequest → Request

abbrev pub run_memory : List Request → Store → Store
run_memory [] s = s
run_memory (put_checkpoint r ∷ l) s = run_memory l (Memory.put r s)
run_memory (put_pending r ∷ l) s = run_memory l (Memory.put_writes r s)

abbrev pub run_sqlite : List Request → Tables → Tables
run_sqlite [] t = t
run_sqlite (put_checkpoint r ∷ l) t = run_sqlite l (Sqlite.put r t)
run_sqlite (put_pending r ∷ l) t = run_sqlite l (Sqlite.put_writes r t)

pub run-Same :
    (l : List Request) (s : Store) (t : Tables) → Same s t → Same (run_memory l s) (run_sqlite l t)
run-Same [] s t h = h
run-Same (put_checkpoint r ∷ l) s t h = run-Same l _ _ (put-Same r s t h)
run-Same (put_pending r ∷ l) s t h = run-Same l _ _ (put_writes-Same r s t h)

-- After the same `checkpoint_put` and `checkpoint_put_writes` requests, in any order, the store in
-- memory and the SQLite store give the same answer to every `checkpoint_get_tuple` request, with a
-- checkpoint id or for the newest checkpoint: found or not, the same id, blobs, parent and pending
-- writes in the same order.
pub get_tuple-agree :
    (l : List Request) (q : GetRequest)
    → Memory.get_tuple q (run_memory l empty_store) ≡ Sqlite.get_tuple q (run_sqlite l empty_tables)
get_tuple-agree l q = get_tuple-Same q _ _ (run-Same l empty_store empty_tables empty-Same)
