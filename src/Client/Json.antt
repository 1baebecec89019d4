-- ===== src/Client/Json.antt =====
-- encoding/json on one type, as the client calls it.
use voldepass.Prelude.{◌≡◌}
use voldepass.Domain.{Bytes, Result, ok}

pub record Json {ℓ} (A : Type ℓ) : Type ℓ where
  pub marshal : A → Result Bytes
  pub unmarshal : Bytes → Result A
  pub unmarshal-marshal : (a : A) (b : Bytes) → marshal a ≡ ok b → unmarshal b ≡ ok a
