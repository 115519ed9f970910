-- ===== src/Checkpoint/Sqlite.antt =====
-- `_SqliteCheckpointStore`, the durable store. A table is its rows in the order of `seq`, the
-- `AUTOINCREMENT` key, and the queries are what SQLite documents of them: `INSERT OR REPLACE` takes
-- the row of the same unique key away and adds a new one, `INSERT OR IGNORE` leaves the table alone
-- if there is one, `ORDER BY seq DESC` is the reverse order. A value survives `json.dumps` and
-- `json.loads`.
use pilot_langgraph.Prelude.{
  ℕ, suc, Bool, true, false, ◌&&◌, Option, none, some, List, [], ◌∷◌, ◌++◌, map, take, String,
  str_eq, ltb, if◌then◌else◌, eqb, string_HasEq, pair_HasEq,
}
use pilot_langgraph.Json.{Json}
use pilot_langgraph.Checkpoint.Requests.{
  Key, WritesKey, Saved, PutRequest, WritesRequest, GetRequest, ListRequest, PendingWrite, Found,
  Item,
}
use pilot_langgraph.Checkpoint.Memory.{newest, reverse}

pub record Row : Type 0 where
  pub seq : ℕ
  pub key : Key
  pub cid : String
  pub saved : Saved

pub record WriteRow : Type 0 where
  pub key : WritesKey
  pub task_id : String
  pub task_path : String
  pub value : Json

pub record Tables : Type 0 where
  pub checkpoints : List Row
  pub next_seq : ℕ
  pub writes : List WriteRow

abbrev pub empty_tables : Tables
empty_tables = record { checkpoints = []; next_seq = 1; writes = [] }

-- `WHERE thread=? AND ns=?`
abbrev pub rows_of : Key → List Row → List Row
rows_of k [] = []
rows_of k (r ∷ rows) = if eqb r.key k then r ∷ rows_of k rows else rows_of k rows

-- `AND cid=?`
abbrev pub row_of : String → List Row → Option Row
row_of cid [] = none
row_of cid (r ∷ rows) = if str_eq r.cid cid then some r else row_of cid rows

abbrev pub writes_of : WritesKey → List WriteRow → List WriteRow
writes_of k [] = []
writes_of k (w ∷ rows) = if eqb w.key k then w ∷ writes_of k rows else writes_of k rows

-- The rows that a new row of this unique key leaves.
abbrev pub without : Key → String → List Row → List Row
without k cid [] = []
without k cid (r ∷ rows) =
    if eqb r.key k && str_eq r.cid cid then without k cid rows else r ∷ without k cid rows

unfoldable pub put : PutRequest → Tables → Tables
put r t = record {
  checkpoints =
      without r.key r.checkpoint_id t.checkpoints
      ++ record { seq = t.next_seq; key = r.key; cid = r.checkpoint_id; saved = r.saved } ∷ [];
  next_seq = suc t.next_seq;
  writes = t.writes;
}

abbrev pub pending_row : WriteRow → PendingWrite
pending_row w = record { task_id = w.task_id; channel = ""; value_b64 = w.value }

-- The row that is asked for, or the newest one.
abbrev pub select : Option String → List Row → Option Row
select none rows = newest rows
select (some cid) rows = row_of cid rows

unfoldable pub get_tuple : GetRequest → Tables → Option Found
get_tuple r t = elim (select r.checkpoint_id (rows_of r.key t.checkpoints)) [
  | none ↦ none
  | some row ↦ some (record {
    checkpoint_id = row.cid;
    saved = row.saved;
    pending_writes = map pending_row (writes_of (r.key, row.cid) t.writes);
  })
]

abbrev pub has_row : String → String → List WriteRow → Bool
has_row task path [] = false
has_row task path (w ∷ l) =
    if str_eq w.task_id task && str_eq w.task_path path then true else has_row task path l

unfoldable pub put_writes : WritesRequest → Tables → Tables
put_writes r t = if has_row r.task_id r.task_path (writes_of r.key t.writes) then t else record t {
  writes =
      t.writes
      ++ record { key = r.key; task_id = r.task_id; task_path = r.task_path; value = r.writes_b64 }
        ∷ [];
}

-- The conditions of `list`: the namespace is one only where the request names it.
abbrev pub in_thread : Option String → Option String → List Row → List Row
in_thread none ns rows = rows
in_thread (some thread) ns [] = []
in_thread (some thread) none (r ∷ rows) =
    let rest = in_thread (some thread) none rows in if str_eq r.key.0 thread then r ∷ rest else rest
in_thread (some thread) (some ns) (r ∷ rows) =
    let rest = in_thread (some thread) (some ns) rows in
    if eqb r.key (thread, ns) then r ∷ rest else rest

-- `AND seq<?`
abbrev pub older : ℕ → List Row → List Row
older seq [] = []
older seq (r ∷ rows) = if ltb r.seq seq then r ∷ older seq rows else older seq rows

-- `before_cid`, looked up at `(thread, ns)`; `thread=NULL` is never true.
abbrev pub before_row : ListRequest → List Row → Option Row
before_row r rows = elim r.before_checkpoint_id [
  | none ↦ none
  | some before ↦ elim r.thread [
    | none ↦ none
    | some thread ↦
        let found =
          row_of before
            (rows_of (thread, elim r.checkpoint_ns [ none ↦ "" | some ns ↦ ns ]) rows) in
        if str_eq before "" then none else found
  ]
]

abbrev pub to_item : Row → Item
to_item row = record { key = row.key; checkpoint_id = row.cid; saved = row.saved }

unfoldable pub list : ListRequest → Tables → List Item
list r t =
    let rows = in_thread r.thread r.checkpoint_ns t.checkpoints in
    let cut : List Row = elim (before_row r t.checkpoints) [
      | none ↦ rows
      | some row ↦ older row.seq rows
    ] in
    let items = map to_item (reverse cut) in
    elim r.limit [ none ↦ items | some limit ↦ take limit items ]
