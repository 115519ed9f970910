-- ===== src/Checkpoint/Agree.antt =====
-- The two stores give the same answers: what they hold for a thread and namespace corresponds.
pub mod Lists
pub mod Steps
pub mod Answers
use pilot_langgraph.Prelude.{
  ℕ, zero, suc, ◌≡◌, refl, sym, ap, subst, ◌∙◌, Bool, true, false, ◌&&◌, Option, none, some, List,
  [], ◌∷◌, ◌++◌, map, String, str_eq, if◌then◌else◌, value_of, assign, eqb, string_HasEq,
  pair_HasEq, arith,
}
use pilot_langgraph.Checkpoint.Requests.{
  Key, WritesKey, Saved, PutRequest, WritesRequest, GetRequest, Found,
}
use pilot_langgraph.Checkpoint.Memory.{Store, Write, list_of, empty_store}
use pilot_langgraph.Checkpoint.Sqlite.{
  Tables, Row, WriteRow, rows_of, row_of, writes_of, empty_tables,
}

-- No id twice.
abbrev pub Distinct : List Row → Type 0
Distinct [] = Unit
Distinct (r ∷ rows) = (row_of r.cid rows ≡ none) × Distinct rows

abbrev pub saved_of : Option Row → Option Saved
saved_of none = none
saved_of (some r) = some r.saved

abbrev pub cids : List Row → List String
cids [] = []
cids (r ∷ rows) = r.cid ∷ cids rows

abbrev pub write_of : WriteRow → Write
write_of w = record { task_id = w.task_id; task_path = w.task_path; writes_b64 = w.value }

-- A thread of the store in memory, against its rows.
pub record SameThread (order : List String) (records : List (String × Saved)) (rows : List Row)
    : Type 0 where
  pub ids : order ≡ cids rows
  pub found : (cid : String) → value_of cid records ≡ saved_of (row_of cid rows)
  pub distinct : Distinct rows

pub record Same (s : Store) (t : Tables) : Type 0 where
  pub threads :
      (k : Key)
      → SameThread
          (list_of (value_of k s.order))
          (list_of (value_of k s.by_thread))
          (rows_of k t.checkpoints)
  pub writes : (k : WritesKey) → list_of (value_of k s.writes) ≡ map write_of (writes_of k t.writes)

pub empty-Same : Same empty_store empty_tables
empty-Same = record {
  threads = λ k. record { ids = refl; found = λ cid. refl; distinct = tt };
  writes = λ k. refl;
}
