-- ===== src/Client/Pool.antt =====
-- `_ConnectionRegistry` of runnables.py: a connection for each `id(loop)`. Connections and these
-- ids are numbers; a loop may have the id of one that is gone, and then finds its connection. What `is_alive` says of a connection, and whether the daemon takes a new
-- one, are arguments. Each operation holds the lock of its loop while it reads and writes the
-- table.
pub mod Retry
use pilot_langgraph.Prelude.{
  ℕ, suc, ◌≡◌, Bool, true, false, Option, none, some, List, [], ◌∷◌, ◌++◌, ◌==◌, if◌then◌else◌,
  Dict, value_of, assign, nat_HasEq,
}
use pilot_langgraph.Prelude.Result.{Result, ok, raise, connection_error}
use pilot_langgraph.Client.Connection.{removed}

-- `next_conn` is the number of the next connection. `closed` and `forced` are the connections on
-- which `close` and `force_close_sync` have been called.
pub record Pool : Type 0 where
  pub by_loop : Dict ℕ ℕ
  pub next_conn : ℕ
  pub closed : List ℕ
  pub forced : List ℕ

unfoldable pub new_pool : Pool
new_pool = record { by_loop = []; next_conn = 0; closed = []; forced = [] }

-- `PilotConnection.connect`, and its entry in the table.
unfoldable pub connect : Bool → ℕ → Pool → Result ℕ × Pool
connect daemon_up loop p = elim daemon_up [
  | false ↦ (raise connection_error, p)
  | true ↦ (
    ok p.next_conn,
    record p { by_loop = assign loop p.next_conn p.by_loop; next_conn = suc p.next_conn },
  )
]

abbrev pub closing : ℕ → Pool → Pool
closing c p = record p { closed = p.closed ++ c ∷ [] }

module _ (is_alive : ℕ → Bool) where
  -- `get`
  unfoldable pub acquire : Bool → ℕ → Pool → Result ℕ × Pool
  unfolding connect
  acquire daemon_up loop p = elim (value_of loop p.by_loop) [
    | none ↦ connect daemon_up loop p
    | some c ↦ elim (is_alive c) [ true ↦ (ok c, p) | false ↦ connect daemon_up loop (closing c p) ]
  ]

  -- `drop_current`
  unfoldable pub drop_current : ℕ → Pool → Pool
  drop_current loop p = elim (value_of loop p.by_loop) [
    | none ↦ p
    | some c ↦ elim (is_alive c) [
      | true ↦ p
      | false ↦ closing c (record p { by_loop = removed loop p.by_loop })
    ]
  ]

-- `aclose_all`, called on a loop or on none.
unfoldable pub close_each : Option ℕ → Dict ℕ ℕ → Pool → Pool
close_each current [] p = p
close_each current ((loop, c) ∷ conns) p = close_each current conns (elim current [
  | none ↦ record p { forced = p.forced ++ c ∷ [] }
  | some here ↦ if here == loop then closing c p else record p { forced = p.forced ++ c ∷ [] }
])

unfoldable pub aclose_all : Option ℕ → Pool → Pool
unfolding close_each
aclose_all current p = close_each current p.by_loop (record p { by_loop = [] })
