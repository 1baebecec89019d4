-- ===== src/Client/Tui/Input.antt =====
-- What internal/client/tui takes from libraries. A Go string is a sequence of bytes: what is typed and
-- decoded is Bytes here. The input line is bubbles', and strconv is Go's: both are parameters.
use voldepass.Prelude.{◌≡◌, ◌≢◌, String, Option, none, some, []}
use voldepass.Domain.{Bytes, Int64, Result, ok}

-- To go on if the program has not panicked.
infixl 5 ◌>>=◌
abbrev pub ◌>>=◌ {ℓ κ} : {A : Type ℓ} {B : Type κ} → Option A → (A → Option B) → Option B
none >>= f = none
some a >>= f = f a

-- A key as bubbletea reports it: a key that has a type of its own, or the text of the others.
pub data Key : Type 0 where
  ctrl_c esc tab shift_tab up down enter : Key
  text : String → Key

-- textinput.Model. A line keeps a text without line breaks and control characters as it is.
pub record TextInput : Type 1 where
  pub Line : Type 0
  pub new : Line
  pub with_placeholder : String → Line → Line
  pub as_password : Line → Line
  pub focus : Line → Line
  pub blur : Line → Line
  pub update : Key → Line → Line
  pub value : Line → Bytes
  pub set_value : Bytes → Line → Line
  pub IsPlain : Bytes → Type 0
  pub value-set_value : (s : Bytes) (l : Line) → IsPlain s → value (set_value s l) ≡ s
  pub value-placeholder : (s : String) (l : Line) → value (with_placeholder s l) ≡ value l
  pub value-password : (l : Line) → value (as_password l) ≡ value l
  pub value-new : value new ≡ []

-- strconv
pub record Conversions : Type 0 where
  pub atoi : Bytes → Result Int64
  pub itoa : Int64 → Bytes
  pub atoi-itoa : (n : Int64) → atoi (itoa n) ≡ ok n
  pub itoa-ne : (n : Int64) → itoa n ≢ []
