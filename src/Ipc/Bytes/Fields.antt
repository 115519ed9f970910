-- ===== src/Ipc/Bytes/Fields.antt =====
-- Fixed-width fields: what `pack` writes, `unpack_from` reads back, whatever follows.
use pilot_langgraph.Prelude.{
  ℕ, ◌+◌, ◌/◌, ◌%◌, ◌<◌, ◌≤◌, ◌≡◌, refl, ap, [], ◌∷◌, ◌++◌, length, length-drop, drop, drop-append,
  arith, sym, ◌∙◌,
}
use pilot_langgraph.Prelude.Result.{ok}
use pilot_langgraph.Ipc.Bytes.{
  Bytes, pack_u16, pack_u32, read_u16, read_u32, unpack_u16_from, unpack_u32_from,
}

abbrev pub u16 : ℕ → Bytes
u16 n = n / 256 ∷ n % 256 ∷ []

abbrev pub u32 : ℕ → Bytes
u32 n = n / 16777216 ∷ n / 65536 % 256 ∷ n / 256 % 256 ∷ n % 256 ∷ []

pub pack_u16-eq : (n : ℕ) → n < 65536 → pack_u16 n ≡ ok (u16 n)
unfolding pack_u16
pack_u16-eq n h = ground arith

pub pack_u32-eq : (n : ℕ) → n < 4294967296 → pack_u32 n ≡ ok (u32 n)
unfolding pack_u32
pack_u32-eq n h = ground arith

pub read_u16-u16 : (n : ℕ) (rest : Bytes) → read_u16 (u16 n ++ rest) ≡ ok n
unfolding read_u16
read_u16-u16 n rest = ap ok (omega arith)

pub read_u32-u32 : (n : ℕ) (rest : Bytes) → read_u32 (u32 n ++ rest) ≡ ok n
unfolding read_u32
read_u32-u32 n rest = ap ok (omega arith)

read_u16-append : (buf rest : Bytes) {n : ℕ} → read_u16 buf ≡ ok n → read_u16 (buf ++ rest) ≡ ok n
unfolding read_u16
read_u16-append (a ∷ b ∷ l) rest h = h
read_u16-append (a ∷ []) rest h = ground arith
read_u16-append [] rest h = ground arith

read_u32-append : (buf rest : Bytes) {n : ℕ} → read_u32 buf ≡ ok n → read_u32 (buf ++ rest) ≡ ok n
unfolding read_u32
read_u32-append (a ∷ b ∷ c ∷ d ∷ l) rest h = h
read_u32-append (a ∷ b ∷ c ∷ []) rest h = ground arith
read_u32-append (a ∷ b ∷ []) rest h = ground arith
read_u32-append (a ∷ []) rest h = ground arith
read_u32-append [] rest h = ground arith

-- A field that lies in a buffer is read as before when bytes arrive behind it.
pub unpack_u16_from-append :
    (buf rest : Bytes) (o : ℕ) {n : ℕ}
    → o ≤ length buf
    → unpack_u16_from buf o ≡ ok n
    → unpack_u16_from (buf ++ rest) o ≡ ok n
unfolding unpack_u16_from
unpack_u16_from-append buf rest o b h = rw (drop-append o buf rest b) (read_u16-append _ rest h)

pub unpack_u32_from-append :
    (buf rest : Bytes) (o : ℕ) {n : ℕ}
    → o ≤ length buf
    → unpack_u32_from buf o ≡ ok n
    → unpack_u32_from (buf ++ rest) o ≡ ok n
unfolding unpack_u32_from
unpack_u32_from-append buf rest o b h = rw (drop-append o buf rest b) (read_u32-append _ rest h)

pub read_u16-total : (buf : Bytes) → 2 ≤ length buf → (n : ℕ) × (read_u16 buf ≡ ok n)
unfolding read_u16
read_u16-total (a ∷ b ∷ l) h = (_, refl)
read_u16-total (a ∷ []) h = absurd (omega arith)
read_u16-total [] h = absurd (omega arith)

pub read_u32-total : (buf : Bytes) → 4 ≤ length buf → (n : ℕ) × (read_u32 buf ≡ ok n)
unfolding read_u32
read_u32-total (a ∷ b ∷ c ∷ d ∷ l) h = (_, refl)
read_u32-total (a ∷ b ∷ c ∷ []) h = absurd (omega arith)
read_u32-total (a ∷ b ∷ []) h = absurd (omega arith)
read_u32-total (a ∷ []) h = absurd (omega arith)
read_u32-total [] h = absurd (omega arith)

-- A field that lies whole in the buffer.
pub unpack_u16_from-stable :
    (buf rest : Bytes) (o : ℕ)
    → o + 2 ≤ length buf
    → unpack_u16_from (buf ++ rest) o ≡ unpack_u16_from buf o
unfolding unpack_u16_from
unpack_u16_from-stable buf rest o h =
    let (n, e) = read_u16-total (drop o buf) (omega (arith, length-drop o buf)) in
    unpack_u16_from-append buf rest o (omega arith) e ∙ sym e

pub unpack_u32_from-stable :
    (buf rest : Bytes) (o : ℕ)
    → o + 4 ≤ length buf
    → unpack_u32_from (buf ++ rest) o ≡ unpack_u32_from buf o
unfolding unpack_u32_from
unpack_u32_from-stable buf rest o h =
    let (n, e) = read_u32-total (drop o buf) (omega (arith, length-drop o buf)) in
    unpack_u32_from-append buf rest o (omega arith) e ∙ sym e
