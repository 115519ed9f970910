-- ===== src/Client/Runnable/Lines.antt =====
-- The lines of a reply.
use pilot_langgraph.Prelude.{
  ℕ, zero, suc, ◌≤◌, ◌≡◌, refl, ◌∙◌, true, false, Option, some, List, [], ◌∷◌, ◌++◌, All, length,
  length-append, map, ◌==◌, if◌then◌else◌, arith,
}
use pilot_langgraph.Json.{Json}
use pilot_langgraph.Ipc.Bytes.{Bytes}
use pilot_langgraph.Client.Runnable.{split_line, is_done, with_frame, is_nil, drain}

-- A line that carries a frame.
pub record IsLine (loads : Bytes → Option Json) (line : Bytes × Json) : Type 0 where
  pub parses : loads line.0 ≡ some line.1
  pub no_newline : All (λ b. (b == 10) ≡ false) line.0
  pub not_empty : is_nil line.0 ≡ false

-- What `_send_chunk` writes for the frames.
abbrev pub on_wire : List (Bytes × Json) → Bytes
on_wire [] = []
on_wire (l ∷ ls) = l.0 ++ 10 ∷ on_wire ls

-- The last frame is done, and no other.
abbrev pub IsWhole : List (Bytes × Json) → Type 0
IsWhole [] = ⊥
IsWhole (l ∷ []) = is_done l.1 ≡ true
IsWhole (l ∷ k ∷ ls) = (is_done l.1 ≡ false) × IsWhole (k ∷ ls)

split_line-append :
    (line rest : Bytes)
    → All (λ b. (b == 10) ≡ false) line
    → split_line (line ++ 10 ∷ rest) ≡ some (line, rest)
unfolding split_line
split_line-append [] rest a = refl
split_line-append (b ∷ line) rest a = rw (a.0, split_line-append line rest a.1) refl

module _ (loads : Bytes → Option Json) where
  drain-line :
      (fuel : ℕ) (l : Bytes × Json) (rest : Bytes)
      → IsLine loads l
      → drain loads (suc fuel) (l.0 ++ 10 ∷ rest) ≡ (
          if is_done l.1
          then record { frames = l.1 ∷ []; finished = true; buf = rest }
          else with_frame l.1 (drain loads fuel rest))
  unfolding drain
  drain-line fuel l rest h =
      rw (drain, split_line-append l.0 rest h.no_newline, h.not_empty, h.parses) refl

  -- The bytes of a whole reply, one frame to a line, give its frames, the last of them done, and
  -- nothing is left over; any fuel of at least their number is enough. The lines parse to the
  -- frames and hold no newline, and only the last frame is done.
  pub drain-lines :
      (fuel : ℕ) (ls : List (Bytes × Json))
      → length (on_wire ls) ≤ fuel
      → All (IsLine loads) ls
      → IsWhole ls
      → drain loads fuel (on_wire ls)
        ≡ record { frames = map (λ l. l.1) ls; finished = true; buf = [] }
  drain-lines fuel [] h a w = elim w [ ]
  drain-lines zero (l ∷ ls) h a w = absurd (omega (arith, h, length-append l.0 (10 ∷ on_wire ls)))
  drain-lines (suc fuel) (l ∷ []) h a w = drain-line fuel l [] a.0 ∙ rw w refl
  drain-lines (suc fuel) (l ∷ k ∷ ls) h a w =
      drain-line fuel l (on_wire (k ∷ ls)) a.0
      ∙ rw
          (
            w.0,
            drain-lines fuel (k ∷ ls) (omega (arith, h, length-append l.0 (10 ∷ on_wire (k ∷ ls))))
                a.1 w.1,
          )
          refl
