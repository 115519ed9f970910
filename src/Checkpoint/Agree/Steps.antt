-- ===== src/Checkpoint/Agree/Steps.antt =====
-- The requests keep the stores in step.
use pilot_langgraph.Prelude.{
  ◌≡◌, refl, sym, ap, subst, ◌∙◌, true, false, ◌&&◌, Bool-cases, Option-cases, inl, inr, Option,
  none, some, List, [], ◌∷◌, ◌++◌, map, String, str_eq, if◌then◌else◌, value_of, assign,
  value_of-assign, eqb, eqb_self, string_HasEq, pair_HasEq, eq_iff, append-nil,
}
use pilot_langgraph.Checkpoint.Requests.{Key, WritesKey, Saved, PutRequest}
use pilot_langgraph.Checkpoint.Memory
use pilot_langgraph.Checkpoint.Memory.{Store, Write, remove, list_of, newest, has_write, add_write}
use pilot_langgraph.Checkpoint.Sqlite
use pilot_langgraph.Checkpoint.Sqlite.{
  Tables, Row, WriteRow, rows_of, row_of, without, writes_of, has_row,
}
use pilot_langgraph.Checkpoint.Agree.{saved_of, SameThread, Same, write_of}
use pilot_langgraph.Checkpoint.Agree.Lists.{
  without_cid, rows_of-append, rows_of-without, rows_of-without_other, row_of-without_cid,
  row_of-without_other, or_last, row_of-snoc, without-Distinct, snoc-Distinct, cids-without,
  cids-append,
}

saved_of-or_last :
    (cid d : String) (saved : Saved) (new : Row) (q : Option Row)
    → new.cid ≡ cid
    → new.saved ≡ saved
    → (str_eq cid d ≡ true → q ≡ none)
    → saved_of (or_last d new q) ≡ (if str_eq cid d then some saved else saved_of q)
saved_of-or_last cid d saved new q e f h = elim (Bool-cases (str_eq cid d)) [
  | inl g ↦ rw (h g, e, g, f) refl
  | inr g ↦ elim (Option-cases q) [ inl n ↦ rw (n, e, g) refl | inr (r, n) ↦ rw (n, g) refl ]
]

-- A put, at its own thread.
put-SameThread :
    (cid : String) (saved : Saved) (new : Row) (order : List String)
    (records : List (String × Saved)) (rows : List Row)
    → new.cid ≡ cid
    → new.saved ≡ saved
    → SameThread order records rows
    → SameThread
        (remove cid order ++ cid ∷ [])
        (assign cid saved records)
        (without_cid cid rows ++ new ∷ [])
put-SameThread cid saved new order records rows e f s = record {
  ids =
      ap (λ l. remove cid l ++ cid ∷ []) s.ids
      ∙ sym (
          cids-append (without_cid cid rows) (new ∷ [])
          ∙ rw (cids-without cid rows s.distinct, e) refl);
  found = λ d.
      value_of-assign cid d saved records
      ∙ sym (
          ap saved_of (row_of-snoc d (without_cid cid rows) new)
          ∙ saved_of-or_last cid d saved new (row_of d (without_cid cid rows)) e f (λ g.
            subst (λ x. row_of x (without_cid cid rows) ≡ none) ((eq_iff cid d).0 g)
              (row_of-without_cid cid rows))
          ∙ elim (Bool-cases (str_eq cid d)) [
            | inl g ↦ rw g refl
            | inr g ↦ rw g (ap saved_of (row_of-without_other cid d rows g) ∙ sym (s.found d))
          ]);
  distinct =
      snoc-Distinct (without_cid cid rows) new
        (ap (λ x. row_of x (without_cid cid rows)) e ∙ row_of-without_cid cid rows)
        (without-Distinct cid rows s.distinct);
}

-- One thread of two whole stores.
abbrev ThreadAt : Key → Store → Tables → Type 0
ThreadAt k s t =
    SameThread (list_of (value_of k s.order)) (list_of (value_of k s.by_thread))
      (rows_of k t.checkpoints)

put-here :
    (r : PutRequest) (s : Store) (t : Tables)
    → ThreadAt r.key s t
    → ThreadAt r.key (Memory.put r s) (Sqlite.put r t)
unfolding Memory.put Sqlite.put
put-here r s t h =
    let new : Row = record {
      seq = t.next_seq;
      key = r.key;
      cid = r.checkpoint_id;
      saved = r.saved;
    } in
    let same : eqb r.key r.key ≡ true = eqb_self r.key in
    rw
      (
        value_of-assign r.key r.key
            (remove r.checkpoint_id (list_of (value_of r.key s.order)) ++ r.checkpoint_id ∷ [])
            s.order,
        value_of-assign r.key r.key
            (assign r.checkpoint_id r.saved (list_of (value_of r.key s.by_thread))) s.by_thread,
        rows_of-append r.key (without r.key r.checkpoint_id t.checkpoints) (new ∷ []),
        rows_of-without r.key r.checkpoint_id t.checkpoints,
        same,
      )
      (put-SameThread r.checkpoint_id r.saved new _ _ _ refl refl h)

put-there :
    (r : PutRequest) (s : Store) (t : Tables) (k : Key)
    → eqb r.key k ≡ false
    → ThreadAt k s t
    → ThreadAt k (Memory.put r s) (Sqlite.put r t)
unfolding Memory.put Sqlite.put
put-there r s t k ne h =
    let new : Row = record {
      seq = t.next_seq;
      key = r.key;
      cid = r.checkpoint_id;
      saved = r.saved;
    } in
    rw
      (
        value_of-assign r.key k
            (remove r.checkpoint_id (list_of (value_of r.key s.order)) ++ r.checkpoint_id ∷ [])
            s.order,
        value_of-assign r.key k
            (assign r.checkpoint_id r.saved (list_of (value_of r.key s.by_thread))) s.by_thread,
        rows_of-append k (without r.key r.checkpoint_id t.checkpoints) (new ∷ []),
        rows_of-without_other r.key k r.checkpoint_id t.checkpoints ne,
        ne,
        append-nil (rows_of k t.checkpoints),
      )
      h

pub put-Same :
    (r : PutRequest) (s : Store) (t : Tables) → Same s t → Same (Memory.put r s) (Sqlite.put r t)
put-Same r s t h = record {
  threads = λ k. elim (Bool-cases (eqb r.key k)) [
    | inl e ↦
        subst (λ j. ThreadAt j (Memory.put r s) (Sqlite.put r t)) ((pair_HasEq.eqb_iff r.key k).0 e)
          (put-here r s t (h.threads r.key))
    | inr ne ↦ put-there r s t k ne (h.threads k)
  ];
  writes = unfold Memory.put Sqlite.put in h.writes;
}

pub has_write-map :
    (task path : String) (l : List WriteRow)
    → has_write task path (map write_of l) ≡ has_row task path l
has_write-map task path [] = refl
has_write-map task path (w ∷ l) =
    ap (λ b. if str_eq w.task_id task && str_eq w.task_path path then true else b)
      (has_write-map task path l)

pub writes_of-append :
    (k : WritesKey) (l m : List WriteRow) → writes_of k (l ++ m) ≡ writes_of k l ++ writes_of k m
writes_of-append k [] m = refl
writes_of-append k (r ∷ l) m = elim (Bool-cases (eqb r.key k)) [
  | inl e ↦ rw e (ap (◌∷◌ r) (writes_of-append k l m))
  | inr e ↦ rw e (writes_of-append k l m)
]
