-- ===== src/Server/Request/Chunks.antt =====
-- How the daemon cuts a request: between its characters, or within one.
use pilot_langgraph.Prelude.{
  ◌≡◌, ◌≢◌, refl, ap, sym, ◌∙◌, ◌⊎◌, inl, inr, Bool, true, false, ◌||◌, if◌then◌else◌, List, [],
  ◌∷◌, ◌++◌, All, concat, append_assoc, append-nil,
}
use pilot_langgraph.Json.{Json}
use pilot_langgraph.Ipc.Bytes.{Bytes}
use pilot_langgraph.Server.Request.{
  Loaded, loaded, malformed, undecodable, request, broken, read_request,
}

-- The text of one value, of which no proper part from the start is a value, as an object is: such a
-- part is no JSON, or ends within a character.
pub record IsWhole (loads : Bytes → Loaded) (text : Bytes) (req : Json) : Type 0 where
  pub value : loads text ≡ loaded req
  pub parts :
      (p q : Bytes) → p ++ q ≡ text → q ≢ [] → (loads p ≡ malformed) ⊎ (loads p ≡ undecodable)

abbrev pub IsChunk : Bytes → Type 0
IsChunk c = c ≢ []

more_left : (c : Bytes) (chunks : List Bytes) → IsChunk c → concat (c ∷ chunks) ≢ []
more_left [] chunks h = absurd (h refl)
more_left (b ∷ c) chunks h = λ e. cc

abbrev pub is_undecodable : Loaded → Bool
is_undecodable undecodable = true
is_undecodable _ = false

-- Whether one of the cuts between the chunks, behind what came before, is within a character.
pub cuts_character : (Bytes → Loaded) → Bytes → List Bytes → Bool
cuts_character loads buf [] = false
cuts_character loads buf (c ∷ []) = false
cuts_character loads buf (c ∷ d ∷ chunks) =
    is_undecodable (loads (buf ++ c)) || cuts_character loads (buf ++ c) (d ∷ chunks)

module _ (loads : Bytes → Loaded) (text : Bytes) (req : Json) (w : IsWhole loads text req) where
  read_request-rest :
      (c : Bytes) (chunks : List Bytes) (buf : Bytes) (more : List Bytes)
      → All IsChunk (c ∷ chunks)
      → buf ++ concat (c ∷ chunks) ≡ text
      → read_request loads (c ∷ (chunks ++ more)) buf
        ≡ (if cuts_character loads buf (c ∷ chunks) then broken else request req)
  unfolding read_request cuts_character
  read_request-rest [] chunks buf more a e = absurd (a.0 refl)
  read_request-rest (b ∷ c) [] buf more a e =
      let whole : buf ++ (b ∷ c) ≡ text = ap (λ l. buf ++ l) (sym (append-nil (b ∷ c))) ∙ e in
      rw (read_request, ap loads whole ∙ w.value) refl
  read_request-rest (b ∷ c) (d ∷ chunks) buf more a e =
      let split : (buf ++ (b ∷ c)) ++ concat (d ∷ chunks) ≡ text =
        append_assoc buf (b ∷ c) (concat (d ∷ chunks)) ∙ e in
      elim (w.parts (buf ++ (b ∷ c)) (concat (d ∷ chunks)) split (more_left d chunks a.1.0)) [
        | inl m ↦
            rw (read_request, cuts_character, m)
              (read_request-rest d chunks (buf ++ (b ∷ c)) more a.1 split)
        | inr x ↦ rw (read_request, cuts_character, x) refl
      ]

  -- A request that is one whole value, cut into chunks that are not empty, with anything behind
  -- them: where no cut is within a character it is read as this value, and otherwise the call is
  -- broken off, with no reply.
  pub read_request-chunks :
      (c : Bytes) (chunks more : List Bytes)
      → All IsChunk (c ∷ chunks)
      → concat (c ∷ chunks) ≡ text
      → read_request loads (c ∷ (chunks ++ more)) []
        ≡ (if cuts_character loads [] (c ∷ chunks) then broken else request req)
  read_request-chunks c chunks more a e = read_request-rest c chunks [] more a e
