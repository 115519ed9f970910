-- ===== src/Server/Invoke/Frames.antt =====
-- The frames of a call: values that are not done, and one frame at the end that is.
use pilot_langgraph.Prelude.{
  ◌≡◌, refl, true, false, none, some, Option-cases, inl, inr, List, [], ◌∷◌, ◌++◌, map, All,
}
use pilot_langgraph.Json.{Json, null}
use pilot_langgraph.Server.Types.{
  Context, Yields, Registration, Frame, chunk, last, is_done, plain, generator, Body,
}
use pilot_langgraph.Server.Invoke.{
  Run, value, stream, failed, unawaited, Drive, Middleware, drive_stream, drive_run, drive_chain,
  drive_body, drive,
}

-- A whole reply: frames that are not done, and then one that is.
abbrev pub IsReply : List Frame → Type 0
IsReply [] = ⊥
IsReply (f ∷ []) = is_done f ≡ true
IsReply (f ∷ g ∷ l) = (is_done f ≡ false) × IsReply (g ∷ l)

-- A reply that is not finished.
abbrev pub IsOpen : List Frame → Type 0
IsOpen = All (λ f. is_done f ≡ false)

pub IsReply-append :
    (l : List Frame) (f : Frame) → IsOpen l → is_done f ≡ true → IsReply (l ++ f ∷ [])
IsReply-append [] f o d = d
IsReply-append (g ∷ []) f o d = (o.0, d)
IsReply-append (g ∷ h ∷ l) f o d = (o.0, IsReply-append (h ∷ l) f o.1 d)

chunks-IsOpen : (l : List Json) → IsOpen (map chunk l)
unfolding is_done
chunks-IsOpen [] = tt
chunks-IsOpen (v ∷ l) = (refl, chunks-IsOpen l)

-- A drive that ends has sent a whole reply, one that raises has sent an open one.
abbrev pub IsProper : Drive → Type 0
IsProper d = elim d.raises [ none ↦ IsReply d.frames | some _ ↦ IsOpen d.frames ]

drive_stream-IsProper : (y : Yields) → IsProper (drive_stream y)
unfolding drive_stream
drive_stream-IsProper y = elim (Option-cases y.failed) [
  | inl e ↦ rw e (
      IsReply-append (map chunk y.values) (last null) (chunks-IsOpen y.values)
        (unfold is_done in refl))
  | inr (x, e) ↦ rw e (chunks-IsOpen y.values)
]

drive_run-IsProper : (r : Run) → IsProper (drive_run r)
unfolding drive_run is_done
drive_run-IsProper (value v) = refl
drive_run-IsProper (stream y) = drive_stream-IsProper y
drive_run-IsProper (failed e) = tt
drive_run-IsProper unawaited = tt

drive_body-IsProper :
    (reg : Registration) (p : Json) (c : Context) (b : Body) → IsProper (drive_body reg p c b)
unfolding drive_body drive_chain
drive_body-IsProper reg p c (generator g) = drive_stream-IsProper _
drive_body-IsProper reg p c (plain f) = drive_run-IsProper _

-- A drive that ends by itself sends frames that are not done and then exactly one that is; a drive
-- that raises has sent only frames that are not done. It holds of every handler, registration,
-- middleware and payload.
pub drive-IsProper :
    (reg : Registration) (mws : List Middleware) (p : Json) (c : Context)
    → IsProper (drive reg mws p c)
unfolding drive drive_chain
drive-IsProper reg [] p c = drive_body-IsProper reg p c reg.fn.body
drive-IsProper reg (mw ∷ mws) p c = drive_run-IsProper _
