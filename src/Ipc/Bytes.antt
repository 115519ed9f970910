-- ===== src/Ipc/Bytes.antt =====
-- The parts of Python's `bytes` and `struct` that _ipc.py uses. A byte string is a list of numbers
-- below 256, a text the list of its code points.
pub mod Fields
use pilot_langgraph.Prelude.{
  ℕ, ◌+◌, ◌*◌, ◌/◌, ◌%◌, ◌<◌, ◌≤◌, ◌≡◌, refl, List, [], ◌∷◌, ◌++◌, All, length, drop, drop-append,
  ltb, if◌then◌else◌, arith,
}
use pilot_langgraph.Prelude.Result.{Result, ok, raise, struct_error, Exc}

abbrev pub Bytes : Type 0
Bytes = List ℕ

abbrev pub Text : Type 0
Text = List ℕ

abbrev pub IsBytes : Bytes → Type 0
IsBytes = All (λ b. b < 256)

-- `struct.pack(">H", n)` and `struct.pack(">I", n)`
unfoldable pub pack_u16 : ℕ → Result Bytes
pack_u16 n = if ltb n 65536 then ok (n / 256 ∷ n % 256 ∷ []) else raise struct_error

unfoldable pub pack_u32 : ℕ → Result Bytes
pack_u32 n =
    if ltb n 4294967296
    then ok (n / 16777216 ∷ n / 65536 % 256 ∷ n / 256 % 256 ∷ n % 256 ∷ [])
    else raise struct_error

pub read_u16 : Bytes → Result ℕ
read_u16 (a ∷ b ∷ _) = ok (a * 256 + b)
read_u16 _ = raise struct_error

pub read_u32 : Bytes → Result ℕ
read_u32 (a ∷ b ∷ c ∷ d ∷ _) = ok (a * 16777216 + b * 65536 + c * 256 + d)
read_u32 _ = raise struct_error

-- `struct.unpack_from(">H", buf, offset)[0]`, and the same for `">I"`
unfoldable pub unpack_u16_from : Bytes → ℕ → Result ℕ
unfolding read_u16
unpack_u16_from buf offset = read_u16 (drop offset buf)

unfoldable pub unpack_u32_from : Bytes → ℕ → Result ℕ
unfolding read_u32
unpack_u32_from buf offset = read_u32 (drop offset buf)

-- UTF-8 of the standard library, as far as the code relies on it: `str.encode()` and
-- `bytes.decode(errors="replace")`, which undoes it. Texts hold no lone surrogates.
pub record Utf8 : Type 0 where
  pub encode : Text → Bytes
  pub decode : Bytes → Text
  pub decode-encode : (t : Text) → decode (encode t) ≡ t
