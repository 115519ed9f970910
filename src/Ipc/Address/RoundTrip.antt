-- ===== src/Ipc/Address/RoundTrip.antt =====
-- Addresses through their text form and their packed form.
use pilot_langgraph.Prelude.{
  ℕ, suc, ◌/◌, ◌%◌, ◌<◌, ◌≡◌, refl, ap, ◌∙◌, sym, false, Option, some, length, drop-add,
  drop-length-append, [], ◌∷◌, ◌++◌, append-nil, arith, ◌==◌, inl, inr, Option-cases,
}
use pilot_langgraph.Prelude.Result.{ok, ◌>>=◌}
use pilot_langgraph.Ipc.Bytes.{Bytes, Text, unpack_u16_from, unpack_u32_from}
use pilot_langgraph.Ipc.Bytes.Fields.{pack_u16-eq, pack_u32-eq}
use pilot_langgraph.Ipc.Address.{
  Addr, pack, unpack, to_base, of_base, decimal, hex04, hex_value, is_digit, hex4, span_digits,
  separated, high_group, low_group, end_of_match, literal, match_addr, of_groups, parse, to_string,
  at_end,
}
use pilot_langgraph.Ipc.Address.Digits.{
  of_base-to_base, hex_value-digit_char, hex04-digits, span_digits-decimal, to_base-nonempty,
  hex_value-lt,
}

-- The fields are within the widths that the wire gives them.
pub record InRange (a : Addr) : Type 0 where
  pub network : a.network < 65536
  pub node : a.node < 4294967296

hex4-hex04 : (n : ℕ) (rest : Text) → n < 65536 → hex4 (hex04 n ++ rest) ≡ some (n, rest)
unfolding hex4 of_base
hex4-hex04 n rest h = rw (hex04-digits n h) (
    ground (
      arith,
      hex_value-digit_char (n / 4096),
      hex_value-digit_char (n / 256 % 16),
      hex_value-digit_char (n / 16 % 16),
      hex_value-digit_char (n % 16),
    ))

separated-hex04 :
    {A : Type 0} (c n : ℕ) (rest : Text) (k : ℕ → Text → Option A)
    → n < 65536
    → separated c (c ∷ (hex04 n ++ rest)) k ≡ k n rest
unfolding separated literal
separated-hex04 c n rest k h = ground (arith, hex4-hex04 n rest)

-- The last group: the pattern ends where the text does.
separated-hex04_end :
    {A : Type 0} (c n : ℕ) (k : ℕ → Text → Option A)
    → n < 65536
    → separated c (c ∷ hex04 n) k ≡ k n []
separated-hex04_end c n k h = rw append-nil at (separated-hex04 c n [] k h)

module _ (a : Addr) (h : InRange a) where
  abbrev high : ℕ
  high = a.node / 65536 % 65536

  abbrev low : ℕ
  low = a.node % 65536

  abbrev printed : Text
  printed = decimal a.network ++ b':' ∷ (hex04 a.network ++ b'.' ∷ (hex04 high ++ b'.' ∷ hex04 low))

  to_string-eq : to_string a ≡ printed
  unfolding to_string
  to_string-eq = refl

  network_digits : of_base 10 0 (to_base 10 (suc a.network) a.network) ≡ a.network
  network_digits = of_base-to_base 10 (omega arith) (suc a.network) a.network (omega arith)

  network_nonempty : (length (to_base 10 (suc a.network) a.network) == 0) ≡ false
  network_nonempty = ground (arith, to_base-nonempty 10 a.network a.network)

  match_addr-printed : match_addr printed ≡ some (a.network, a.network, high, low)
  unfolding match_addr high_group low_group end_of_match at_end
  match_addr-printed = rw (
    span_digits-decimal a.network b':' (hex04 a.network ++ b'.' ∷ (hex04 high ++ b'.' ∷ hex04 low))
        (unfold is_digit in refl),
    network_nonempty,
    separated-hex04 b':' a.network (b'.' ∷ (hex04 high ++ b'.' ∷ hex04 low)) _ h.network,
    separated-hex04 b'.' high (b'.' ∷ hex04 low) _ (omega arith),
    separated-hex04_end b'.' low _ (omega arith),
    network_digits,
  )

  -- Printing an address whose fields fit their widths and parsing the text gives the address back.
  pub parse-to_string : parse (to_string a) ≡ ok a
  unfolding parse
  parse-to_string =
      ap (λ t. of_groups (match_addr t)) to_string-eq
      ∙ ap of_groups match_addr-printed
      ∙ ground arith

  -- Packing an address whose fields fit their widths, and unpacking behind any prefix and with any
  -- bytes after it, gives the address back.
  pub unpack-pack :
      (before rest : Bytes)
      → (pack a >>= λ packed. unpack (before ++ (packed ++ rest)) (length before)) ≡ ok a
  unfolding pack unpack unpack_u16_from unpack_u32_from
  unpack-pack before rest =
      rw (pack_u16-eq a.network h.network, pack_u32-eq a.node h.node, drop-add, drop-length-append)
        (ground arith)

hex4-lt : (s : Text) {n : ℕ} {rest : Text} → hex4 s ≡ some (n, rest) → n < 65536
unfolding hex4 of_base
hex4-lt (a ∷ b ∷ c ∷ d ∷ s) h = elim (Option-cases (hex_value a)) [
  | inl e ↦ absurd (ground (arith, e))
  | inr (va, ea) ↦ elim (Option-cases (hex_value b)) [
    | inl e ↦ absurd (ground (arith, ea, e))
    | inr (vb, eb) ↦ elim (Option-cases (hex_value c)) [
      | inl e ↦ absurd (ground (arith, ea, eb, e))
      | inr (vc, ec) ↦ elim (Option-cases (hex_value d)) [
        | inl e ↦ absurd (ground (arith, ea, eb, ec, e))
        | inr (vd, ed) ↦ ground (
          arith,
          ea,
          eb,
          ec,
          ed,
          hex_value-lt a ea,
          hex_value-lt b eb,
          hex_value-lt c ec,
          hex_value-lt d ed,
        )
      ]
    ]
  ]
]
hex4-lt _ h = ground arith

separated-lt :
    {A : Type 0} (c : ℕ) (s : Text) (k : ℕ → Text → Option A) {b : A}
    → separated c s k ≡ some b
    → (n : ℕ) × (rest : Text) × (n < 65536) × (k n rest ≡ some b)
unfolding separated
separated-lt c s k e = elim (Option-cases (literal c s)) [
  | inl l ↦ absurd (ground (arith, l))
  | inr (t, l) ↦ elim (Option-cases (hex4 t)) [
    | inl x ↦ absurd (ground (arith, l, x))
    | inr ((n, rest), x) ↦ (n, rest, hex4-lt t x, ground (arith, l, x))
  ]
]

-- What the pattern matched, group by group.
match_addr-lt :
    (s : Text) {d n h l : ℕ}
    → match_addr s ≡ some (d, n, h, l)
    → (n < 65536) × (h < 65536) × (l < 65536)
unfolding match_addr high_group low_group
match_addr-lt s {d} {n} {h} {l} e =
    let dec = of_base 10 0 (span_digits s).0 in
    let (n', r1, p1, e1) =
      separated-lt b':' (span_digits s).1 (high_group dec) {b = (d, n, h, l)} (ground (arith, e)) in
    let (h', r2, p2, e2) = separated-lt b'.' r1 (low_group dec n') e1 in
    let (l', r3, p3, e3) = separated-lt b'.' r2 (end_of_match dec n' h') e2 in
    unfold end_of_match in (ground (arith, e3), ground (arith, e3), ground (arith, e3))

-- An address that `parse` accepts fits the widths of the wire, so it can be packed.
pub parse-InRange : (s : Text) {a : Addr} → parse s ≡ ok a → InRange a
unfolding parse
parse-InRange s {a} e = elim (Option-cases (match_addr s)) [
  | inl m ↦ absurd (ground (arith, ap of_groups m, e))
  | inr ((d, n, h, l), m) ↦
      let (dn, hn, ln) = match_addr-lt s m in
      let e' : of_groups (some (d, n, h, l)) ≡ ok a = ap of_groups (sym m) ∙ e in ground (arith, e')
]
