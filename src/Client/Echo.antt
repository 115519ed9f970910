-- ===== src/Client/Echo.antt =====
-- The peer of a runnable, and `PilotEchoRunnable.ainvoke` of runnables.py behind its dial. The text of the payload
-- is what `json.dumps` made of it, and the daemon's answer for a host name is a parameter.
use pilot_langgraph.Prelude.{
  ℕ, zero, suc, ◌≤◌, ◌≡◌, refl, ap, ◌∙◌, Bool, true, false, ◌&&◌, ◌||◌, List, [], ◌∷◌, ◌==◌,
  if◌then◌else◌, length, take, arith,
}
use pilot_langgraph.Prelude.Result.{Result, ok, ◌>>=◌}
use pilot_langgraph.Ipc.Bytes.{Bytes, Text, Utf8}
use pilot_langgraph.Ipc.Address.{Addr, parse}
use pilot_langgraph.Ipc.Encode.{max_send_chunk}
use pilot_langgraph.Client.Stream.{chunks}

-- The attribute `peer`: an address, or a name that is resolved when it is used.
pub data Peer : Type 0 where
  address : Addr → Peer
  hostname : Text → Peer

abbrev pub has_colon : Text → Bool
has_colon [] = false
has_colon (c ∷ text) = (c == 58) || has_colon text

-- `Addr.parse(peer) if isinstance(peer, str) and ":" in peer else peer`
unfoldable pub peer_of : Text → Result Peer
peer_of text = if has_colon text then (do a ← parse text; ok (address a)) else ok (hostname text)

-- `_resolve_peer`
unfoldable pub resolve_peer : (Text → Result Text) → Peer → Result Addr
resolve_peer resolve_hostname (address a) = ok a
resolve_peer resolve_hostname (hostname name) = do found ← resolve_hostname name; parse found

pub record Echoed : Type 0 where
  pub peer : Addr
  pub echoed_payload : Text
  pub echoed_bytes : ℕ
  pub round_trip_ok : Bool

abbrev pub same_text : Text → Text → Bool
same_text [] [] = true
same_text (a ∷ s) (b ∷ t) = (a == b) && same_text s t
same_text _ _ = false

-- What the first read gives, the empty byte string at the end of the stream included.
abbrev pub first_read : List Bytes → Bytes
first_read [] = []
first_read (c ∷ cs) = c

take_all : (n : ℕ) (l : Bytes) → length l ≤ n → take n l ≡ l
take_all zero [] h = refl
take_all (suc n) [] h = refl
take_all zero (c ∷ l) h = absurd (omega (arith, h))
take_all (suc n) (c ∷ l) h = ap (◌∷◌ c) (take_all n l (omega (arith, h)))

module _ (u : Utf8) where
  unfoldable pub echo : Addr → Text → List Bytes → Echoed
  echo peer wire_str replies =
      let echoed = u.decode (first_read replies) in
      record {
        peer = peer;
        echoed_payload = echoed;
        echoed_bytes = length echoed;
        round_trip_ok = same_text echoed wire_str;
      }

  same_text_self : (t : Text) → same_text t t ≡ true
  same_text_self [] = refl
  same_text_self (c ∷ t) = ground (arith, same_text_self t)

  first_chunk : (b : Bytes) → length b ≤ max_send_chunk → first_read (chunks b) ≡ b
  unfolding chunks
  first_chunk [] h = refl
  first_chunk (c ∷ b) h = take_all max_send_chunk (c ∷ b) h

  -- A payload whose bytes fit into one message, sent back by a service that answers each message with its
  -- data, is reported as a round trip, with the payload's own text.
  pub echo-chunks :
      (peer : Addr) (wire_str : Text)
      → length (u.encode wire_str) ≤ max_send_chunk
      → ((echo peer wire_str (chunks (u.encode wire_str))).round_trip_ok ≡ true)
        × ((echo peer wire_str (chunks (u.encode wire_str))).echoed_payload ≡ wire_str)
  unfolding echo
  echo-chunks peer wire_str h =
      let text : u.decode (first_read (chunks (u.encode wire_str))) ≡ wire_str =
        ap u.decode (first_chunk (u.encode wire_str) h) ∙ u.decode-encode wire_str in
      (ap (λ t. same_text t wire_str) text ∙ same_text_self wire_str, text)
