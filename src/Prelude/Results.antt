-- ===== src/Prelude/Results.antt =====
-- A computation that may throw an `Error` with a message.
use Prim.Native.String.{String}

pub data Result {ℓ} (A : Type ℓ) : Type ℓ where
  ok : A → Result A
  throw : String → Result A
