-- ===== src/Ipc/Parse/Total.antt =====
-- The parsers never raise, and return `None` exactly on payloads that are too short.
use pilot_langgraph.Prelude.{
  ℕ, Bool-cases, inl, inr, ltb, if◌then◌else◌, ◌+◌, ◌≤◌, ◌<◌, ◌≡◌, Option, none, some, drop, length,
  length-drop, ltb, arith,
}
use pilot_langgraph.Prelude.Result.{Result, ok}
use pilot_langgraph.Ipc.Bytes.{Bytes, unpack_u16_from, unpack_u32_from}
use pilot_langgraph.Ipc.Bytes.Fields.{read_u16-total, read_u32-total}
use pilot_langgraph.Ipc.Parse.{
  parse_datagram, parse_accept, parse_recv, parse_dial_ok, parse_bind_ok, parse_close_ok,
}

-- A parser that returns `None` on payloads shorter than `size` and a value on all others.
pub record Needs {A : Type 0} (size : ℕ) (parse : Bytes → Result (Option A)) : Type 0 where
  pub short : (payload : Bytes) → length payload < size → parse payload ≡ ok none
  pub long : (payload : Bytes) → size ≤ length payload → (a : A) × (parse payload ≡ ok (some a))

u16_at : (buf : Bytes) (o : ℕ) → o + 2 ≤ length buf → (n : ℕ) × (unpack_u16_from buf o ≡ ok n)
unfolding unpack_u16_from
u16_at buf o h = read_u16-total (drop o buf) (omega (arith, length-drop o buf))

u32_at : (buf : Bytes) (o : ℕ) → o + 4 ≤ length buf → (n : ℕ) × (unpack_u32_from buf o ≡ ok n)
unfolding unpack_u32_from
u32_at buf o h = read_u32-total (drop o buf) (omega (arith, length-drop o buf))

Needs-recv : Needs 4 parse_recv
unfolding parse_recv
Needs-recv = record {
  short = λ payload h. ground arith;
  long = λ payload h.
      let (n, e) = u32_at payload 0 (omega arith) in ((n, drop 4 payload), ground (arith, e));
}

Needs-dial : Needs 4 parse_dial_ok
unfolding parse_dial_ok
Needs-dial = record {
  short = λ payload h. ground arith;
  long = λ payload h. let (n, e) = u32_at payload 0 (omega arith) in (n, ground (arith, e));
}

Needs-close : Needs 4 parse_close_ok
unfolding parse_close_ok
Needs-close = record {
  short = λ payload h. ground arith;
  long = λ payload h. let (n, e) = u32_at payload 0 (omega arith) in (n, ground (arith, e));
}

Needs-bind : Needs 2 parse_bind_ok
unfolding parse_bind_ok
Needs-bind = record {
  short = λ payload h. ground arith;
  long = λ payload h. let (n, e) = u16_at payload 0 (omega arith) in (n, ground (arith, e));
}

Needs-datagram : Needs 10 parse_datagram
unfolding parse_datagram
Needs-datagram = record {
  short = λ payload h. ground arith;
  long = λ payload h.
      let (net, e1) = u16_at payload 0 (omega arith) in
      let (node, e2) = u32_at payload 2 (omega arith) in
      let (src, e3) = u16_at payload 6 (omega arith) in
      let (dst, e4) = u16_at payload 8 (omega arith) in
      (
        record {
          src_addr = record { network = net; node = node };
          src_port = src;
          dst_port = dst;
          body = drop 10 payload;
        },
        ground (arith, e1, e2, e3, e4),
      );
}

Needs-accept : Needs 14 parse_accept
unfolding parse_accept
Needs-accept = record {
  short = λ payload h. ground arith;
  long = λ payload h.
      let (port, e0) = u16_at payload 0 (omega arith) in
      let (conn, e1) = u32_at payload 2 (omega arith) in
      let (net, e2) = u16_at payload 6 (omega arith) in
      let (node, e3) = u32_at payload 8 (omega arith) in
      let (remote, e4) = u16_at payload 12 (omega arith) in
      (
        record {
          local_port = port;
          conn_id = conn;
          remote_addr = record { network = net; node = node };
          remote_port = remote;
        },
        ground (arith, e0, e1, e2, e3, e4),
      );
}

-- `None` on a payload shorter than `size`, a value on any other.
abbrev pub Answers : {A : Type 0} → ℕ → Bytes → Result (Option A) → Type 0
Answers {A} size payload r =
    if ltb (length payload) size then r ≡ ok none else ((a : A) × (r ≡ ok (some a)))

Needs-Answers :
    {A : Type 0} (size : ℕ) (parse : Bytes → Result (Option A))
    → Needs size parse
    → (payload : Bytes) → Answers size payload (parse payload)
Needs-Answers size parse n payload = elim (Bool-cases (ltb (length payload) size)) [
  | inl e ↦ rw e (n.short payload (ground arith))
  | inr e ↦ rw e (n.long payload (ground arith))
]

-- Each of the six parsers returns `None` on every payload shorter than its fixed part (10, 14, 4, 4,
-- 2 and 4 bytes), returns a value on every other payload, and so never raises.
pub parsers_total :
    (payload : Bytes)
    → Answers 10 payload (parse_datagram payload)
      × Answers 14 payload (parse_accept payload)
      × Answers 4 payload (parse_recv payload)
      × Answers 4 payload (parse_dial_ok payload)
      × Answers 2 payload (parse_bind_ok payload)
      × Answers 4 payload (parse_close_ok payload)
parsers_total payload = (
  Needs-Answers 10 parse_datagram Needs-datagram payload,
  Needs-Answers 14 parse_accept Needs-accept payload,
  Needs-Answers 4 parse_recv Needs-recv payload,
  Needs-Answers 4 parse_dial_ok Needs-dial payload,
  Needs-Answers 2 parse_bind_ok Needs-bind payload,
  Needs-Answers 4 parse_close_ok Needs-close payload,
)
