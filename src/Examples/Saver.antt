-- ===== src/Examples/Saver.antt =====
-- The checkpoint saver at concrete checkpoints.
use pilot_langgraph.Prelude.{ℕ, zero, suc, ◌≡◌, refl, List, [], ◌∷◌, map, some, none, String}
use pilot_langgraph.Prelude.Result.{Result, ok, raise, struct_error}
use pilot_langgraph.Json.{Json, null, num, str, arr, Items, nil, cons}
use pilot_langgraph.Checkpoint.Sqlite.{put, get_tuple, empty_tables}
use pilot_langgraph.Client.Saver.{
  Serde, Configurable, Call, gave, threw, parent_config_of, aput, get_request, decode_pending,
  aget_tuple,
}
use pilot_langgraph.Client.Saver.RoundTrip.{Batch, stored, decode_pending-stored, aget_tuple-aput}

-- Numbers, as they stand, and lists of named numbers.
abbrev number_of : Json → Result ℕ
number_of (num n) = ok n
number_of _ = raise struct_error

abbrev numbers : Serde ℕ
numbers = record { encode = num; decode = number_of; decode-encode = λ n. refl }

abbrev items : List (String × ℕ) → Items
items [] = nil
items ((k, n) ∷ l) = cons (str k) (cons (num n) (items l))

abbrev named_of : Items → List (String × ℕ)
named_of (cons (str k) (cons (num n) l)) = (k, n) ∷ named_of l
named_of _ = []

abbrev list_of : Json → Result (List (String × ℕ))
list_of (arr l) = ok (named_of l)
list_of _ = raise struct_error

named_of-items : (l : List (String × ℕ)) → named_of (items l) ≡ l
named_of-items [] = refl
named_of-items ((k, n) ∷ l) = λ i. (k, n) ∷ named_of-items l i

abbrev lists : Serde (List (String × ℕ))
lists = record {
  encode = λ l. arr (items l);
  decode = list_of;
  decode-encode = λ l i. ok (named_of-items l i);
}

abbrev config : Configurable
config = record { thread_id = "t"; checkpoint_ns = none; checkpoint_id = some "c0" }

abbrev put_result : Configurable
put_result = record { thread_id = "t"; checkpoint_ns = some ""; checkpoint_id = some "c1" }

aget_tuple-aput_example :
    aget_tuple numbers numbers lists (aput numbers numbers lists config "c1" 4 5 null).1 (
      get_tuple
        (get_request numbers numbers lists (aput numbers numbers lists config "c1" 4 5 null).1)
        (put (aput numbers numbers lists config "c1" 4 5 null).0 empty_tables))
    ≡ ok (
        some (record {
          config = (aput numbers numbers lists config "c1" 4 5 null).1;
          checkpoint = 4;
          metadata = 5;
          parent_config = parent_config_of "t" "" (some "c0");
          pending_writes = [];
        }))
aget_tuple-aput_example =
    aget_tuple-aput numbers numbers lists config "c1" 4 5 null empty_tables refl

abbrev batches : List (Batch ℕ)
batches = record { task = "a"; channel = "x"; first = 1; others = ("y", 2) ∷ [] } ∷ []

decode_pending-stored_example :
    decode_pending numbers numbers lists (map (stored numbers numbers lists) batches)
    ≡ ok (map (λ (b : Batch ℕ). (b.task, "", b.first)) batches)
decode_pending-stored_example = decode_pending-stored numbers numbers lists batches

abbrev second_time : ℕ → Call ℕ String
second_time zero = threw "lost"
second_time (suc i) = gave 7
