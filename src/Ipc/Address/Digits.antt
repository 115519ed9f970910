-- ===== src/Ipc/Address/Digits.antt =====
-- Positional numerals: `of_base` reads what `to_base` writes, and the digits of `{:04X}`.
use native.Mathlib.Nat.{div-add-mod, mod-lt}
use pilot_langgraph.Prelude.{
  ℕ, zero, suc, ◌+◌, ◌*◌, ◌/◌, ◌%◌, ◌<◌, ◌≤◌, ◌≡◌, refl, false, some, List, [], ◌∷◌, ◌++◌, All,
  All-append, map, length, length-append, pred, ltb, arith, Bool-cases, inl, inr,
}
use pilot_langgraph.Ipc.Bytes.{Text}
use pilot_langgraph.Ipc.Address.{
  to_base, of_base, digit_char, decimal, hex04, zeros, hex_value, is_digit, span_digits,
}

pub to_base-small : (b f n : ℕ) → n < b → n < f → to_base b f n ≡ n ∷ []
unfolding to_base
to_base-small b (suc f) n h k = ground arith
to_base-small b zero n h k = elim k [ ]

pub to_base-big :
    (b f n : ℕ) → b ≤ n → n < f → to_base b f n ≡ to_base b (pred f) (n / b) ++ (n % b) ∷ []
unfolding to_base
to_base-big b (suc f) n h k = ground arith
to_base-big b zero n h k = elim k [ ]

of_base-append :
    (b acc : ℕ) (ds : List ℕ) (d : ℕ) → of_base b acc (ds ++ d ∷ []) ≡ of_base b acc ds * b + d
unfolding of_base
of_base-append b acc [] d = refl
of_base-append b acc (e ∷ ds) d = of_base-append b (acc * b + e) ds d

module _ (b : ℕ) (base : 1 < b) where
  div-lt_pred : (n f : ℕ) → b ≤ n → n < suc f → n / b < f
  div-lt_pred n f h k = grind arith

  pub of_base-to_base : (f n : ℕ) → n < f → of_base b 0 (to_base b f n) ≡ n
  unfolding to_base of_base
  of_base-to_base zero n h = elim h [ ]
  of_base-to_base (suc f) n h = elim (Bool-cases (ltb n b)) [
    | inl small ↦ rw (small) (omega arith)
    | inr big ↦
        rw (big, of_base-append, of_base-to_base f (n / b) (div-lt_pred n f (ground arith) h))
          (omega (arith, div-add-mod n b))
  ]

  pub to_base-lt : (f n : ℕ) → n < f → All (λ d. d < b) (to_base b f n)
  unfolding to_base
  to_base-lt zero n h = elim h [ ]
  to_base-lt (suc f) n h = elim (Bool-cases (ltb n b)) [
    | inl small ↦ rw (small) (ground arith, tt)
    | inr big ↦ rw (big) (
        All-append _ _ _ (to_base-lt f (n / b) (div-lt_pred n f (ground arith) h))
          (mod-lt n (omega arith), tt))
  ]

pub hex_value-digit_char : (d : ℕ) → d < 16 → hex_value (digit_char d) ≡ some d
unfolding hex_value digit_char
hex_value-digit_char d h = ground arith

-- The digits of a number below 16, 256, 4096 and 65536, with fuel above the number.
module _ (f n : ℕ) (k : n < f) where
  hex_one : n < 16 → to_base 16 f n ≡ n ∷ []
  hex_one h = to_base-small 16 f n h k

  hex_two : 16 ≤ n → n < 256 → to_base 16 f n ≡ n / 16 ∷ n % 16 ∷ []
  hex_two l h =
      rw (to_base-big 16 f n l k, to_base-small 16 (pred f) (n / 16) (omega arith) (omega arith))

  hex_three : 256 ≤ n → n < 4096 → to_base 16 f n ≡ n / 256 ∷ n / 16 % 16 ∷ n % 16 ∷ []
  hex_three l h =
      rw
        (
          to_base-big 16 f n (omega arith) k,
          to_base-big 16 (pred f) (n / 16) (omega arith) (omega arith),
          to_base-small 16 (pred (pred f)) (n / 16 / 16) (omega arith) (omega arith),
        )
        (ground arith)

  hex_four :
      4096 ≤ n → n < 65536 → to_base 16 f n ≡ n / 4096 ∷ n / 256 % 16 ∷ n / 16 % 16 ∷ n % 16 ∷ []
  hex_four l h =
      rw
        (
          to_base-big 16 f n (omega arith) k,
          to_base-big 16 (pred f) (n / 16) (omega arith) (omega arith),
          to_base-big 16 (pred (pred f)) (n / 16 / 16) (omega arith) (omega arith),
          to_base-small 16 (pred (pred (pred f))) (n / 16 / 16 / 16) (omega arith) (omega arith),
        )
        (ground arith)

pub hex04-digits :
    (n : ℕ)
    → n < 65536
    → hex04 n
      ≡ digit_char (n / 4096)
        ∷ digit_char (n / 256 % 16)
        ∷ digit_char (n / 16 % 16)
        ∷ digit_char (n % 16)
        ∷ []
unfolding hex04 zeros digit_char
hex04-digits n h = elim (Bool-cases (ltb n 16)) [
  | inl one ↦ rw (hex_one (suc n) n (omega arith) (ground arith)) (ground arith)
  | inr more ↦ elim (Bool-cases (ltb n 256)) [
    | inl two ↦ rw (hex_two (suc n) n (omega arith) (ground arith) (ground arith)) (ground arith)
    | inr more ↦ elim (Bool-cases (ltb n 4096)) [
      | inl three ↦
          rw (hex_three (suc n) n (omega arith) (ground arith) (ground arith)) (ground arith)
      | inr four ↦ rw (hex_four (suc n) n (omega arith) (ground arith) h) refl
    ]
  ]
]

span_digits-append :
    (ds : List ℕ) (c : ℕ) (rest : Text)
    → All (λ d. d < 10) ds
    → is_digit c ≡ false
    → span_digits (map digit_char ds ++ c ∷ rest) ≡ (ds, c ∷ rest)
unfolding span_digits
span_digits-append [] c rest h e = rw e refl
span_digits-append (d ∷ ds) c rest h e =
    rw (span_digits-append ds c rest h.1 e) (unfold is_digit digit_char in ground (arith, h.0))

-- The digits of `decimal n`, as the pattern reads them back.
pub span_digits-decimal :
    (n : ℕ) (c : ℕ) (rest : Text)
    → is_digit c ≡ false
    → span_digits (decimal n ++ c ∷ rest) ≡ (to_base 10 (suc n) n, c ∷ rest)
unfolding decimal
span_digits-decimal n c rest e =
    span_digits-append (to_base 10 (suc n) n) c rest
      (to_base-lt 10 (omega arith) (suc n) n (omega arith)) e

pub to_base-nonempty : (b f n : ℕ) → 0 < length (to_base b (suc f) n)
unfolding to_base
to_base-nonempty b f n = ground (arith, length-append (to_base b f (n / b)) ((n % b) ∷ []))

pub hex_value-lt : (c : ℕ) {d : ℕ} → hex_value c ≡ some d → d < 16
unfolding hex_value
hex_value-lt c h = ground arith
