-- ===== src/Client/Connection/Loop/Framing.antt =====
-- Frames that are sent are the frames that are read, and the loop ends.
use pilot_langgraph.Prelude.{
  ℕ, zero, suc, ◌+◌, ◌≤◌, ◌<◌, ◌==◌, ◌||◌, ◌≡◌, ◌≢◌, refl, ap, ◌∙◌, inl, inr, Bool-cases, List, [],
  ◌∷◌, ◌++◌, append_assoc, All, length, take, drop, length-append, length-drop, ltb, arith,
  take-length-append, drop-length-append,
}
use pilot_langgraph.Prelude.Result.{Result, ok, Result-cases, ◌>>=◌}
use pilot_langgraph.Ipc.Bytes.{Bytes, Utf8, read_u32}
use pilot_langgraph.Ipc.Bytes.Fields.{u32, pack_u32-eq, read_u32-u32}
use pilot_langgraph.Ipc.Encode.{max_message_size}
use pilot_langgraph.Client.Connection.{Conn, handle_message}
use pilot_langgraph.Client.Connection.Loop.{
  send_raw, Incoming, message, incomplete, bad_length, split_message, take_message, read_frame,
  out_of_fuel, read_loop,
}

-- A frame within the bounds of the reader.
abbrev pub frame_of : Bytes → Bytes
frame_of payload = u32 (length payload) ++ payload

read_frame-frame :
    (cmd : ℕ) (payload rest : Bytes)
    → length payload < max_message_size
    → read_frame (frame_of (cmd ∷ payload) ++ rest) ≡ message cmd payload rest
unfolding read_frame take_message split_message
read_frame-frame cmd payload rest h =
    let n = suc (length payload) in
    let tail = (cmd ∷ payload) ++ rest in
    ground (
      arith,
      read_u32-u32 n tail,
      take-length-append (cmd ∷ payload) rest,
      drop-length-append (cmd ∷ payload) rest,
      length-append payload rest,
    )

split_message-rest :
    (l r : Bytes) (cmd : ℕ) (payload rest : Bytes)
    → split_message l r ≡ message cmd payload rest
    → rest ≡ r
unfolding split_message
split_message-rest [] r cmd payload rest e = absurd (ground (arith, e))
split_message-rest (c ∷ l) r cmd payload rest e = ground (arith, e)

read_frame-shrinks :
    (buf : Bytes) (cmd : ℕ) (payload rest : Bytes)
    → read_frame buf ≡ message cmd payload rest
    → length rest < length buf
unfolding read_frame take_message
read_frame-shrinks buf cmd payload rest e = elim (Bool-cases (ltb (length buf) 4)) [
  | inl short ↦ absurd (ground (arith, e, short))
  | inr long ↦ elim (Result-cases (read_u32 buf)) [
    | inr (x, r) ↦ absurd (ground (arith, e, long, r))
    | inl (n, r) ↦ elim (Bool-cases ((n == 0) || ltb max_message_size n)) [
      | inl bad ↦ absurd (ground (arith, e, long, r, bad))
      | inr fine ↦ elim (Bool-cases (ltb (length (drop 4 buf)) n)) [
        | inl cut ↦ absurd (ground (arith, e, long, r, fine, cut))
        | inr whole ↦
            let s : split_message (take n (drop 4 buf)) (drop n (drop 4 buf))
                ≡ message cmd payload rest =
              rw (read_frame, long, r, fine, take_message, whole) at e in
            let enough : 4 ≤ length buf = ground (arith, long) in
            omega (
              arith,
              enough,
              ap length (split_message-rest _ _ cmd payload rest s),
              length-drop n (drop 4 buf),
              length-drop 4 buf,
            )
      ]
    ]
  ]
]

-- The bytes of messages, one frame behind the other.
abbrev pub wire : List (ℕ × Bytes) → Bytes
wire [] = []
wire ((cmd, payload) ∷ messages) = frame_of (cmd ∷ payload) ++ wire messages

abbrev pub IsSent : ℕ × Bytes → Type 0
IsSent (cmd, payload) = length payload < max_message_size

-- A message that is small enough is sent as its frame.
pub send_raw-frame :
    (cmd : ℕ) (payload : Bytes)
    → length payload < max_message_size
    → send_raw (cmd ∷ payload) ≡ ok (frame_of (cmd ∷ payload))
unfolding send_raw
send_raw-frame cmd payload h = rw (send_raw, pack_u32-eq (suc (length payload)) (omega arith)) refl

module _ (u : Utf8) where
  -- The messages, handled one behind the other.
  abbrev pub handle_all : List (ℕ × Bytes) → Conn → Result Conn
  handle_all [] s = ok s
  handle_all ((cmd, payload) ∷ messages) s = handle_message u cmd payload s >>= handle_all messages

  turn :
      (fuel cmd : ℕ) (payload buf buf_rest : Bytes) (s v : Conn)
      → read_frame buf ≡ message cmd payload buf_rest
      → handle_message u cmd payload s ≡ ok v
      → read_loop u (suc fuel) buf s ≡ read_loop u fuel buf_rest v
  unfolding read_loop
  turn fuel cmd payload buf buf_rest s v f m = rw (read_loop, f, m) refl

  -- The reading of messages that were sent, each smaller than the limit, and of any bytes behind
  -- them: the loop handles exactly these messages in their order, and goes on with the bytes behind
  -- them.
  pub read_loop-wire :
      (messages : List (ℕ × Bytes)) (rest : Bytes) (s t : Conn) (fuel more : ℕ)
      → fuel ≡ length messages + more
      → All IsSent messages
      → handle_all messages s ≡ ok t
      → read_loop u fuel (wire messages ++ rest) s ≡ read_loop u more rest t
  read_loop-wire [] rest s t fuel more e a h =
      let same : fuel ≡ more = omega (arith, e) in
      let state : s ≡ t = ground (arith, h) in λ i. read_loop u (same i) rest (state i)
  read_loop-wire ((cmd, payload) ∷ messages) rest s t zero more e a h = absurd (omega (arith, e))
  read_loop-wire ((cmd, payload) ∷ messages) rest s t (suc fuel) more e a h =
      elim (Result-cases (handle_message u cmd payload s)) [
        | inr (x, m) ↦ absurd (ground (arith, h, m))
        | inl (v, m) ↦
            ap (λ l. read_loop u (suc fuel) l s)
              (append_assoc (frame_of (cmd ∷ payload)) (wire messages) rest)
            ∙ turn fuel cmd payload _ (wire messages ++ rest) s v
                (read_frame-frame cmd payload (wire messages ++ rest) a.0) m
            ∙ read_loop-wire messages rest v t fuel more (omega (arith, e)) a.1 (rw m at h)
      ]

  next_turn :
      (fuel : ℕ) (buf : Bytes) (s : Conn)
      → ((rest : Bytes) (t : Conn)
          → length rest < length buf
          → (read_loop u fuel rest t).1 ≢ out_of_fuel)
      → (read_loop u (suc fuel) buf s).1 ≢ out_of_fuel
  unfolding read_loop
  next_turn fuel buf s ih = go (read_frame buf) refl
    where
      go : (i : Incoming) → read_frame buf ≡ i → (read_loop u (suc fuel) buf s).1 ≢ out_of_fuel
      go incomplete e = rw (read_loop, e) λ h. absurd (ground (arith, h))
      go (bad_length n) e = rw (read_loop, e) λ h. absurd (ground (arith, h))
      go (message cmd payload rest) e = elim (Result-cases (handle_message u cmd payload s)) [
        | inr (x, m) ↦ rw (read_loop, e, m) λ h. absurd (ground (arith, h))
        | inl (t, m) ↦ rw (read_loop, e, m) (ih rest t (read_frame-shrinks buf cmd payload rest e))
      ]

  -- Any fuel above the number of the bytes is enough, whatever the bytes are.
  pub read_loop-ends :
      (fuel : ℕ) (buf : Bytes) (s : Conn)
      → length buf < fuel
      → (read_loop u fuel buf s).1 ≢ out_of_fuel
  read_loop-ends zero buf s h = absurd (omega (arith, h))
  read_loop-ends (suc fuel) buf s h =
      next_turn fuel buf s λ rest t lt. read_loop-ends fuel rest t (omega (arith, h, lt))
