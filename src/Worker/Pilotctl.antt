-- ===== src/Worker/Pilotctl.antt =====
-- `PilotClient` of transport.py, for what `pilotctl --json` prints. `json.loads` and the test for
-- blank output are parameters. An answer that parses is taken to be a `dict`, its code a text, and
-- its "messages" a list or null.
use pilot_langgraph.Prelude.{
  ◌≡◌, refl, Bool, true, false, ◌||◌, Bool-cases, Option-cases, inl, inr, Option, none, some,
  String, str_eq, if◌then◌else◌,
}
use pilot_langgraph.Json.{
  Json, null, bool, num, str, arr, obj, Items, nil, cons, field, end, get, get?, truthy,
}

-- A `PilotError`, by its code, or the value that `_run` returns.
pub data Ran : Type 0 where
  pilot_error : String → Ran
  gave : Json → Ran

unfoldable pub is_error : Json → Bool
is_error payload = elim (get "status" payload) [ str s ↦ str_eq s "error" | _ ↦ false ]

-- `payload.get("code", "unknown")`
unfoldable pub code_of : Json → String
code_of payload = elim (get? "code" payload) [ some (str code) ↦ code | _ ↦ "unknown" ]

abbrev pub or_empty : Option Json → Json
or_empty none = obj end
or_empty (some d) = d

unfoldable pub messages_in : Json → Items
messages_in d = elim (get "messages" d) [ arr l ↦ l | _ ↦ nil ]

-- What `info` makes of its answer does not matter here: `is_running` reads only the code of an error.
unfoldable pub is_running : Ran → Option Bool
is_running (gave d) = some true
is_running (pilot_error code) = if str_eq code "not_running" then some false else none

abbrev pub is_named : String → Option Json → Bool
is_named peer (some (str s)) = str_eq s peer
is_named peer _ = false

module _ (loads : String → Option Json) (is_blank : String → Bool) (id_text : Json → String) where
  unfoldable pub run_pilotctl : String → Ran
  run_pilotctl stdout = if is_blank stdout then pilot_error "no_output" else elim (loads stdout) [
    | none ↦ pilot_error "invalid_json"
    | some payload ↦
        if is_error payload
        then pilot_error (code_of payload)
        else gave (or_empty (get? "data" payload))
  ]

  -- `recv`: a value that is no `dict` is no message.
  unfoldable pub recv_messages : Ran → Items
  recv_messages (pilot_error code) = nil
  recv_messages (gave (obj fs)) = messages_in (obj fs)
  recv_messages (gave _) = nil

  -- `collect_recv`, which gives no messages where `recv` raises. `payload.get("data") or {}` must
  -- be a `dict`.
  unfoldable pub collect_recv : String → Items
  collect_recv stdout = if is_blank stdout then nil else elim (loads stdout) [
    | none ↦ nil
    | some payload ↦
        if is_error payload
        then nil
        else messages_in (if truthy (get "data" payload) then get "data" payload else obj end)
  ]

  -- `trusts`: by the host name, the address or the id of an entry.
  unfoldable pub entry_matches : String → Json → Bool
  entry_matches peer entry =
      is_named peer (get? "hostname" entry)
      || is_named peer (get? "address" entry)
      || str_eq (elim (get? "node_id" entry) [ none ↦ "" | some n ↦ id_text n ]) peer

  unfoldable pub trusts : String → Items → Bool
  unfolding entry_matches
  trusts peer nil = false
  trusts peer (cons entry entries) = entry_matches peer entry || trusts peer entries

  -- No value but a `dict`, or none at all.
  abbrev pub IsDict : Option Json → Type 0
  IsDict none = Unit
  IsDict (some null) = Unit
  IsDict (some (obj fs)) = Unit
  IsDict (some _) = ⊥

  dict_messages :
      (payload : Json)
      → IsDict (get? "data" payload)
      → messages_in (if truthy (get "data" payload) then get "data" payload else obj end)
        ≡ recv_messages (gave (or_empty (get? "data" payload)))
  unfolding recv_messages get truthy messages_in
  dict_messages payload h = go (get? "data" payload) refl h
    where
      go :
          (v : Option Json)
          → get? "data" payload ≡ v
          → IsDict v
          → messages_in (if truthy (get "data" payload) then get "data" payload else obj end)
            ≡ recv_messages (gave (or_empty (get? "data" payload)))
      go none q d = rw (get, q) refl
      go (some null) q d = rw (get, q) refl
      go (some (obj end)) q d = rw (get, q) refl
      go (some (obj (field k v l))) q d = rw (get, q) refl
      go (some (bool b)) q d = elim d [ ]
      go (some (num n)) q d = elim d [ ]
      go (some (str t)) q d = elim d [ ]
      go (some (arr l)) q d = elim d [ ]

  -- The messages that are collected from a receiver in the background are those that `recv` gives
  -- for the same output, and none where `recv` raises, if the data of an answer is a `dict`, null
  -- or missing.
  pub collect_recv-recv_messages :
      (stdout : String)
      → ((payload : Json) → loads stdout ≡ some payload → IsDict (get? "data" payload))
      → collect_recv stdout ≡ recv_messages (run_pilotctl stdout)
  unfolding collect_recv run_pilotctl recv_messages
  collect_recv-recv_messages stdout h = elim (Bool-cases (is_blank stdout)) [
    | inl b ↦ rw b refl
    | inr b ↦ elim (Option-cases (loads stdout)) [
      | inl n ↦ rw (b, n) refl
      | inr (payload, q) ↦ elim (Bool-cases (is_error payload)) [
        | inl e ↦ rw (b, q, e) refl
        | inr e ↦ rw (b, q, e) (dict_messages payload (h payload q))
      ]
    ]
  ]
