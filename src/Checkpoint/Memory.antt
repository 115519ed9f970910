-- ===== src/Checkpoint/Memory.antt =====
-- `_CheckpointStore`, the store in memory.
use pilot_langgraph.Prelude.{
  ℕ, Bool, true, false, ◌&&◌, Option, none, some, List, [], ◌∷◌, ◌++◌, map, length, String, str_eq,
  leb, if◌then◌else◌, Dict, value_of, assign, string_HasEq, pair_HasEq,
}
use pilot_langgraph.Json.{Json}
use pilot_langgraph.Checkpoint.Requests.{
  Key, WritesKey, Saved, PutRequest, WritesRequest, GetRequest, ListRequest, PendingWrite, Found,
  Item,
}

pub record Write : Type 0 where
  pub task_id : String
  pub task_path : String
  pub writes_b64 : Json

-- `_order` lists the ids of a thread, the newest last.
pub record Store : Type 0 where
  pub by_thread : Dict Key (Dict String Saved)
  pub writes : Dict WritesKey (List Write)
  pub order : Dict Key (List String)

abbrev pub empty_store : Store
empty_store = record { by_thread = []; writes = []; order = [] }

-- `d.get(k, [])`
abbrev pub list_of : {A : Type 0} → Option (List A) → List A
list_of none = []
list_of (some l) = l

-- `list.remove`, of an id that may be missing.
abbrev pub remove : String → List String → List String
remove c [] = []
remove c (d ∷ l) = if str_eq d c then l else d ∷ remove c l

unfoldable pub put : PutRequest → Store → Store
put r s = record {
  by_thread =
      assign r.key (assign r.checkpoint_id r.saved (list_of (value_of r.key s.by_thread)))
        s.by_thread;
  writes = s.writes;
  order =
      assign r.key
        (remove r.checkpoint_id (list_of (value_of r.key s.order)) ++ r.checkpoint_id ∷ []) s.order;
}

-- `l[-1] if l else None`
abbrev pub newest : {A : Type 0} → List A → Option A
newest [] = none
newest (x ∷ []) = some x
newest (x ∷ y ∷ l) = newest (y ∷ l)

abbrev pub pending_write : Write → PendingWrite
pending_write w = record { task_id = w.task_id; channel = ""; value_b64 = w.writes_b64 }

abbrev pub get_at : Key → Dict String Saved → String → Store → Option Found
get_at k records cid s = elim (value_of cid records) [
  | none ↦ none
  | some saved ↦ some (record {
    checkpoint_id = cid;
    saved = saved;
    pending_writes = map pending_write (list_of (value_of (k, cid) s.writes));
  })
]

abbrev pub get_or_newest : Key → Dict String Saved → Option String → Store → Option Found
get_or_newest k records (some cid) s = get_at k records cid s
get_or_newest k records none s = elim (newest (list_of (value_of k s.order))) [
  | none ↦ none
  | some cid ↦ get_at k records cid s
]

-- A thread without records is not found.
unfoldable pub get_tuple : GetRequest → Store → Option Found
get_tuple r s = elim (list_of (value_of r.key s.by_thread)) [
  | [] ↦ none
  | record_of ∷ records ↦ get_or_newest r.key (record_of ∷ records) r.checkpoint_id s
]

-- Task and path of a write that is there already.
abbrev pub has_write : String → String → List Write → Bool
has_write task path [] = false
has_write task path (w ∷ l) =
    if str_eq w.task_id task && str_eq w.task_path path then true else has_write task path l

abbrev pub add_write : WritesRequest → List Write → List Write
add_write r existing =
    if has_write r.task_id r.task_path existing
    then existing
    else existing
      ++ record { task_id = r.task_id; task_path = r.task_path; writes_b64 = r.writes_b64 } ∷ []

-- `self._writes[key]` makes the list if it is missing.
unfoldable pub put_writes : WritesRequest → Store → Store
put_writes r s = record s {
  writes = assign r.key (add_write r (list_of (value_of r.key s.writes))) s.writes;
}

abbrev pub reverse : {A : Type 0} → List A → List A
reverse [] = []
reverse (x ∷ l) = reverse l ++ x ∷ []

-- The ids behind `before`, and all of them if it is not among them.
abbrev pub behind : String → List String → Option (List String)
behind before [] = none
behind before (c ∷ l) = if str_eq c before then some l else behind before l

abbrev pub cut : Option String → List String → List String
cut none ids = ids
cut (some before) ids =
    if str_eq before "" then ids else elim (behind before ids) [ none ↦ ids | some l ↦ l ]

-- `limit is not None and len(items) >= limit`
abbrev pub is_full : Option ℕ → List Item → Bool
is_full none items = false
is_full (some limit) items = leb limit (length items)

-- The loop over the ids of a thread: the limit is tested behind each item.
abbrev pub list_ids : Option ℕ → Key → Dict String Saved → List String → List Item → List Item
list_ids limit k records [] items = items
list_ids limit k records (cid ∷ ids) items = elim (value_of cid records) [
  | none ↦ list_ids limit k records ids items
  | some saved ↦
      let items' = items ++ record { key = k; checkpoint_id = cid; saved = saved } ∷ [] in
      if is_full limit items' then items' else list_ids limit k records ids items'
]

abbrev pub list_keys : Option ℕ → Option String → Store → List Key → List Item → List Item
list_keys limit before s [] items = items
list_keys limit before s (k ∷ ks) items = elim (value_of k s.order) [
  | none ↦ list_keys limit before s ks items
  | some ids ↦
      let items' =
        list_ids limit k (list_of (value_of k s.by_thread)) (cut before (reverse ids)) items in
      if is_full limit items' then items' else list_keys limit before s ks items'
]

-- `payload.get("checkpoint_ns") or ""`
abbrev pub ns_of : Option String → String
ns_of none = ""
ns_of (some ns) = ns

unfoldable pub list : ListRequest → Store → List Item
list r s =
    list_keys r.limit r.before_checkpoint_id s
      (elim r.thread [
        | none ↦ map (λ e. e.0) s.by_thread
        | some thread ↦ (thread, ns_of r.checkpoint_ns) ∷ []
      ])
      []
