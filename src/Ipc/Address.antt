-- ===== src/Ipc/Address.antt =====
-- `Addr` of _ipc.py: the packed form, the text form, and the pattern `ADDR_RE`. `\d` is modelled on
-- the ASCII digits, and `int` without the interpreter's limit on the number of digits.
pub mod Digits
pub mod RoundTrip
use pilot_langgraph.Prelude.{
  ℕ, zero, suc, ◌+◌, ◌-◌, ◌*◌, ◌/◌, ◌%◌, Bool, true, false, ◌&&◌, Option, none, some, List, [], ◌∷◌,
  ◌++◌, map, length, ltb, leb, ◌==◌, if◌then◌else◌,
}
use pilot_langgraph.Prelude.Result.{Result, ok, raise, ◌>>=◌, invalid_address, network_mismatch}
use pilot_langgraph.Ipc.Bytes.{Bytes, Text, pack_u16, pack_u32, unpack_u16_from, unpack_u32_from}

pub record Addr : Type 0 where
  pub network : ℕ
  pub node : ℕ

unfoldable pub pack : Addr → Result Bytes
pack a = do network ← pack_u16 a.network; node ← pack_u32 a.node; ok (network ++ node)

unfoldable pub unpack : Bytes → ℕ → Result Addr
unpack buf offset = do
  network ← unpack_u16_from buf offset
  node ← unpack_u32_from buf (offset + 2)
  ok (record { network = network; node = node })

-- The digits of a number in a base, the most significant first; the fuel is above the number.
pub to_base : ℕ → ℕ → ℕ → List ℕ
to_base b zero n = []
to_base b (suc fuel) n =
    let front = to_base b fuel (n / b) in if ltb n b then n ∷ [] else front ++ (n % b) ∷ []

pub of_base : ℕ → ℕ → List ℕ → ℕ
of_base b acc [] = acc
of_base b acc (d ∷ ds) = of_base b (acc * b + d) ds

pub digit_char : ℕ → ℕ
digit_char d = if ltb d 10 then d + b'0' else d + 55

-- `replicate n "0"`, the padding of `{:04X}`
pub zeros : ℕ → Text
zeros zero = []
zeros (suc n) = b'0' ∷ zeros n

pub decimal : ℕ → Text
decimal n = map digit_char (to_base 10 (suc n) n)

-- `{n:04X}`
pub hex04 : ℕ → Text
hex04 n = let digits = map digit_char (to_base 16 (suc n) n) in zeros (4 - length digits) ++ digits

unfoldable pub to_string : Addr → Text
unfolding decimal hex04 to_base digit_char zeros
to_string a =
    decimal a.network
    ++ b':'
      ∷ (hex04 a.network
          ++ b'.' ∷ (hex04 (a.node / 65536 % 65536) ++ b'.' ∷ hex04 (a.node % 65536)))

pub is_digit : ℕ → Bool
is_digit c = leb b'0' c && leb c b'9'

pub hex_value : ℕ → Option ℕ
hex_value c =
    if leb b'0' c && leb c b'9'
    then some (c - b'0')
    else if leb b'A' c && leb c b'F'
    then some (c - 55)
    else if leb b'a' c && leb c b'f'
    then some (c - 87)
    else none

-- `\d+`, greedy: the values of the digits, and the text behind them.
pub span_digits : Text → List ℕ × Text
span_digits [] = ([], [])
span_digits (c ∷ s) =
    let (ds, rest) = span_digits s in if is_digit c then ((c - b'0') ∷ ds, rest) else ([], c ∷ s)

-- `[0-9A-Fa-f]{4}`: the number that it stands for, and the text behind it.
pub hex4 : Text → Option (ℕ × Text)
hex4 (a ∷ b ∷ c ∷ d ∷ rest) = elim (hex_value a) [
  | none ↦ none
  | some a ↦ elim (hex_value b) [
    | none ↦ none
    | some b ↦ elim (hex_value c) [
      | none ↦ none
      | some c ↦ elim (hex_value d) [
        | none ↦ none
        | some d ↦ some (of_base 16 0 (a ∷ b ∷ c ∷ d ∷ []), rest)
      ]
    ]
  ]
]
hex4 _ = none

pub literal : ℕ → Text → Option Text
literal c [] = none
literal c (x ∷ s) = if x == c then some s else none

-- `$` stands at the end, and before a newline at the end.
pub at_end : Text → Bool
at_end [] = true
at_end (c ∷ []) = c == 10
at_end _ = false

-- A separator and a group of four hexadecimal digits, and then the rest of the pattern.
pub separated : {A : Type 0} → ℕ → Text → (ℕ → Text → Option A) → Option A
separated c s k = elim (literal c s) [
  | none ↦ none
  | some t ↦ elim (hex4 t) [ none ↦ none | some (n, rest) ↦ k n rest ]
]

abbrev pub Groups : Type 0
Groups = ℕ × ℕ × ℕ × ℕ

pub end_of_match : ℕ → ℕ → ℕ → ℕ → Text → Option Groups
end_of_match dec net high low rest = if at_end rest then some (dec, net, high, low) else none

pub low_group : ℕ → ℕ → ℕ → Text → Option Groups
low_group dec net high s = separated b'.' s (end_of_match dec net high)

pub high_group : ℕ → ℕ → Text → Option Groups
high_group dec net s = separated b'.' s (low_group dec net)

-- `ADDR_RE.match`: the numbers of the four groups.
pub match_addr : Text → Option Groups
match_addr s =
    let (ds, rest) = span_digits s in
    if length ds == 0 then none else separated b':' rest (high_group (of_base 10 0 ds))

-- The checks behind the match. `(high << 16) | low` is a sum, since the pattern keeps `low` below
-- 65536.
pub of_groups : Option Groups → Result Addr
of_groups none = raise invalid_address
of_groups (some (net_dec, net_hex, node_high, node_low)) =
    if net_dec == net_hex
    then ok (record { network = net_dec; node = node_high * 65536 + node_low })
    else raise network_mismatch

unfoldable pub parse : Text → Result Addr
unfolding match_addr of_groups separated end_of_match low_group high_group span_digits literal hex4
    at_end is_digit hex_value of_base
parse s = of_groups (match_addr s)
