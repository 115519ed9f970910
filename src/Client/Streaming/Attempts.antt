-- ===== src/Client/Streaming/Attempts.antt =====
-- Nothing twice: what the caller of `astream` sees comes from one attempt.
use pilot_langgraph.Prelude.{
  ℕ, zero, suc, ◌+◌, ◌≤◌, ◌<◌, ◌≡◌, refl, ap, subst, ◌==◌, ==_iff, ◌∙◌, true, false, Bool-cases,
  ◌⊎◌, inl, inr, none, List, [], ◌∷◌, ◌++◌, map, if◌then◌else◌, arith, String,
}
use pilot_langgraph.Json.{Json, null, get, get?, is_null, truthy}
use pilot_langgraph.Server.Types.{Message, chunk, last, frame_json, Yields}
use pilot_langgraph.Server.Invoke.{drive_stream}
use pilot_langgraph.Client.Runnable.{End, ended, is_nil}
use pilot_langgraph.Client.Streaming.{
  finished, attempt_stream, is_transient, Try, attempts, astream,
}

-- An attempt that is tried again: it lost its connection or timed out, and has yielded nothing.
abbrev pub IsSilent : Try → Type 0
IsSilent t = (t.0 ≡ []) × (is_transient t.1 ≡ true)

-- The attempt `k` is the one that the caller sees: those before it were silent, and it is not,
-- unless it is the last one.
pub record Settles (once : ℕ → Try) (i left : ℕ) (seen : Try) : Type 0 where
  pub k : ℕ
  pub at_least : i ≤ k
  pub at_most : k ≤ i + left
  pub seen_of : seen ≡ once k
  pub silent_before : (j : ℕ) → i ≤ j → j < k → IsSilent (once j)
  pub settled : (k ≡ i + left) ⊎ ((is_transient (once k).1 ≡ false) ⊎ (is_nil (once k).0 ≡ false))

is_nil-eq : (l : List Json) → is_nil l ≡ true → l ≡ []
is_nil-eq [] h = refl
is_nil-eq (x ∷ l) h = cc

here :
    (once : ℕ → Try) (i left : ℕ) (seen : Try)
    → seen ≡ once i
    → (is_transient (once i).1 ≡ false) ⊎ (is_nil (once i).0 ≡ false)
    → Settles once i left seen
here once i left seen e h = record {
  k = i;
  at_least = omega arith;
  at_most = omega arith;
  seen_of = e;
  silent_before = λ j lo hi. absurd (omega arith);
  settled = inr h;
}

later :
    (once : ℕ → Try) (i left : ℕ) (seen : Try)
    → IsSilent (once i)
    → Settles once (suc i) left seen
    → Settles once i (suc left) seen
later once i left seen q s = record {
  k = s.k;
  at_least = omega (arith, s.at_least);
  at_most = omega (arith, s.at_most);
  seen_of = s.seen_of;
  silent_before = λ j lo hi. elim (Bool-cases (i == j)) [
    | inl e ↦ subst (λ x. IsSilent (once x)) ((==_iff i j).0 e) q
    | inr e ↦ s.silent_before j (ground arith) hi
  ];
  settled = elim s.settled [ inl e ↦ inl (omega (arith, e)) | inr h ↦ inr h ];
}

attempts-Settles : (once : ℕ → Try) (i left : ℕ) → Settles once i left (attempts once i left)
unfolding attempts
attempts-Settles once i zero = record {
  k = i;
  at_least = omega arith;
  at_most = omega arith;
  seen_of = refl;
  silent_before = λ j lo hi. absurd (omega arith);
  settled = inl (omega arith);
}
attempts-Settles once i (suc left) = elim (Bool-cases (is_transient (once i).1)) [
  | inr f ↦ rw f (here once i (suc left) (once i) refl (inl f))
  | inl t ↦ elim (Bool-cases (is_nil (once i).0)) [
    | inr n ↦ rw (t, n) (here once i (suc left) (once i) refl (inr n))
    | inl n ↦
        rw (t, n)
          (later once i left (attempts once (suc i) left) (is_nil-eq (once i).0 n, t)
            (attempts-Settles once (suc i) left))
  ]
]

-- The values that are not null.
pub non_null : List Json → List Json
non_null [] = []
non_null (v ∷ l) = let rest = non_null l in if is_null v then rest else v ∷ rest

-- What a caller of `astream` sees is what one of at most three attempts yielded, with its end.
-- Every attempt before that one was a lost connection or a timeout that had yielded nothing, so
-- nothing is seen twice; and the attempt that is seen is the third, or ended otherwise, or had
-- yielded something.
pub astream-Settles :
    (replies : ℕ → List Json × End)
    → Settles (λ i. attempt_stream (replies i).0 (replies i).1) 0 2 (astream replies)
unfolding astream
astream-Settles replies = attempts-Settles (λ i. attempt_stream (replies i).0 (replies i).1) 0 2

attempt_stream-chunks :
    (render : Message → String) (vs : List Json)
    → attempt_stream (map (frame_json render) (map chunk vs ++ last null ∷ [])) ended
      ≡ (non_null vs, finished)
unfolding attempt_stream frame_json get get? truthy is_null non_null
attempt_stream-chunks render [] = refl
attempt_stream-chunks render (v ∷ vs) =
    let rest = attempt_stream-chunks render vs in
    elim (Bool-cases (is_null v)) [ inl e ↦ rw (e, rest) refl | inr e ↦ rw (e, rest) refl ]

attempts_silent :
    (once : ℕ → Try) (i n left : ℕ)
    → ((j : ℕ) → i ≤ j → j < i + n → IsSilent (once j))
    → is_transient (once (i + n)).1 ≡ false
    → n ≤ left
    → attempts once i left ≡ once (i + n)
unfolding attempts
attempts_silent once i zero zero q f h = ap once (omega arith)
attempts_silent once i zero (suc left) q f h =
    let same : i + 0 ≡ i = omega arith in rw same (rw (rw same at f) refl)
attempts_silent once i (suc n) zero q f h = absurd (omega arith)
attempts_silent once i (suc n) (suc left) q f h =
    let now = q i (omega arith) (omega arith) in
    let step : i + suc n ≡ suc i + n = omega arith in
    rw (step, now.0, now.1)
      (attempts_silent once (suc i) n left (λ j lo hi. q j (omega arith) (omega arith))
        (rw step at f) (omega arith))

finished_settled : is_transient finished ≡ false
unfolding is_transient
finished_settled = refl

-- A generator on the worker that ends by itself: behind up to two attempts that lost the connection
-- or timed out before any value, the caller sees the generator's values in their order, less those
-- that are null, and the end.
pub astream-drive_stream :
    (render : Message → String) (replies : ℕ → List Json × End) (y : Yields) (n : ℕ)
    → n ≤ 2
    → ((j : ℕ) → j < n → IsSilent (attempt_stream (replies j).0 (replies j).1))
    → y.failed ≡ none
    → replies n ≡ (map (frame_json render) (drive_stream y).frames, ended)
    → astream replies ≡ (non_null y.values, finished)
unfolding astream drive_stream
astream-drive_stream render replies y n h q f e =
    let once : ℕ → Try = λ i. attempt_stream (replies i).0 (replies i).1 in
    let frames : (drive_stream y).frames ≡ map chunk y.values ++ last null ∷ [] =
      rw (drive_stream, f) refl in
    let reply : once n ≡ (non_null y.values, finished) =
      ap (λ r. attempt_stream r.0 r.1) e
      ∙ ap (λ l. attempt_stream (map (frame_json render) l) ended) frames
      ∙ attempt_stream-chunks render y.values in
    let index : 0 + n ≡ n = omega arith in
    let settled : is_transient (once (0 + n)).1 ≡ false =
      ap (λ k. is_transient (once k).1) index
      ∙ ap (λ t. is_transient t.1) reply
      ∙ finished_settled in
    attempts_silent once 0 n 2 (λ j lo hi. q j (omega arith)) settled h ∙ ap once index ∙ reply
