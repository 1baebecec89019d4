-- ===== src/Client/Crypto/Random.antt =====
-- crypto/rand, as the client calls it: a source whose state every draw passes on.
use voldepass.Prelude.{ℕ, ◌≡◌, ◌<◌, length}
use voldepass.Domain.{Bytes, Result, ok, err}

-- `read_full n` is io.ReadFull(rand.Reader, b) for a slice b of length n, and `int n` is
-- rand.Int(rand.Reader, n), which panics unless 0 < n.
pub record Random : Type 1 where
  pub State : Type 0
  pub read_full : ℕ → State → Result Bytes × State
  pub int : ℕ → State → Result ℕ × State
  pub length-read_full : (n : ℕ) (s : State) (b : Bytes) → (read_full n s).0 ≡ ok b → length b ≡ n
  pub int-lt : (n i : ℕ) (s : State) → 0 < n → (int n s).0 ≡ ok i → i < n

module _ (random : Random) where
  -- A computation that may draw, and fail.
  abbrev pub Draw {ℓ} : Type ℓ → Type ℓ
  Draw A = random.State → Result A × random.State

  -- Go on with the value, or return the error.
  abbrev pub and_then {ℓ κ} : {A : Type ℓ} {B : Type κ} → Draw A → (A → Draw B) → Draw B
  and_then m f s = let (r, s') = m s in elim r [ err e ↦ (err e, s') | ok a ↦ f a s' ]
