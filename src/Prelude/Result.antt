-- ===== src/Prelude/Result.antt =====
-- Exceptions as values. One constructor for each exception that the modelled code raises or lets
-- through, with the data that its message shows.
use Prim.Native.Nat.{ℕ}
use mathlib.Core.Path.{◌≡◌, refl}
use mathlib.Core.Logic.{◌⊎◌, inl, inr}

pub data Exc : Type 0 where
  -- `struct.error`: a number does not fit its field, or a buffer is too short
  struct_error : Exc
  -- `ValueError` of `Addr.parse`
  invalid_address network_mismatch : Exc
  -- `ValueError` of `split_events`
  topic_too_long payload_too_large : ℕ → Exc
  -- `EOFError`, `TimeoutError`
  eof_error timeout_error : Exc
  -- `PilotConnectionError` and `PilotConnectionErrorWrapper`
  connection_error connection_error_wrapper : Exc
  -- `KeyError`, `IndexError`
  key_error index_error : Exc
  -- `OverflowError` of `int.to_bytes`
  overflow_error : Exc
  -- `RuntimeError`, `ValueError` of a user, `PermissionError`
  runtime_error value_error permission_error : Exc

pub data Result {ℓ} (A : Type ℓ) : Type ℓ where
  ok : A → Result A
  raise : Exc → Result A

infixl 5 ◌>>=◌
abbrev pub ◌>>=◌ {ℓ κ} : {A : Type ℓ} {B : Type κ} → Result A → (A → Result B) → Result B
ok a >>= f = f a
raise e >>= f = raise e

pub Result-cases {ℓ} :
    {A : Type ℓ} (r : Result A) → ((a : A) × (r ≡ ok a)) ⊎ ((e : Exc) × (r ≡ raise e))
Result-cases (ok a) = inl (a, refl)
Result-cases (raise e) = inr (e, refl)
