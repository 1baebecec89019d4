-- ===== src/Flags.antt =====
-- How Go's package flag goes through the arguments of a FlagSet that continues on errors.
use voldepass.Prelude.{String, ◌≡◌, refl, Bool, Option, none, some, List, [], ◌∷◌, if◌then◌else◌}
use voldepass.Domain.{Result, ok, err, internal}

-- An argument: the end of the flags (a word or "--"), one that is not well formed, or a flag, with
-- what stands behind an "=".
pub data Token : Type 0 where
  ends bad : Token
  named : String → Option String → Token

-- A flag of a set over `A`: a Boolean flag needs no value; `set` may refuse its text.
pub record Flag {ℓ} (A : Type ℓ) : Type ℓ where
  pub is_bool : Bool
  pub set : String → A → Option A

module _ {ℓ} {A : Type ℓ} (read : String → Token) (flags : String → Option (Flag A)) where
  -- flag.Value.Set, and then the other arguments
  abbrev pub assign : Flag A → String → (A → Result (Unit {0}) × A) → A → Result (Unit {0}) × A
  assign f text go_on a = elim (f.set text a) [ none ↦ (err internal, a) | some a' ↦ go_on a' ]

  -- The value of a flag that has none behind an "=": "true", or the next argument.
  abbrev pub assign_next :
      Flag A
      → Option String
      → (A → Result (Unit {0}) × A)
      → (A → Result (Unit {0}) × A)
      → A
      → Result (Unit {0}) × A
  assign_next f next after skip a =
      if f.is_bool
      then assign f "true" after a
      else elim next [ none ↦ (err internal, a) | some text ↦ assign f text skip a ]

  -- One argument, the next one, and what is done from the next one on, and from behind it.
  abbrev pub take :
      Token
      → Option String
      → (A → Result (Unit {0}) × A)
      → (A → Result (Unit {0}) × A)
      → A
      → Result (Unit {0}) × A
  take ends next after skip a = (ok tt, a)
  take bad next after skip a = (err internal, a)
  take (named name value) next after skip a = elim (flags name) [
    | none ↦ (err internal, a)
    | some f ↦ elim value [
      | some text ↦ assign f text after a
      | none ↦ assign_next f next after skip a
    ]
  ]

  -- FlagSet.Parse: what was set before an error stays set.
  unfoldable pub parse : List String → A → Result (Unit {0}) × A
  parse [] a = (ok tt, a)
  parse (x ∷ []) a = take (read x) none (λ b. (ok tt, b)) (λ b. (ok tt, b)) a
  parse (x ∷ y ∷ rest) a = take (read x) (some y) (parse (y ∷ rest)) (parse rest) a

  -- A flag that the set does not have ends the reading, whatever follows it.
  pub parse_unknown :
      (x name : String) (value : Option String) (rest : List String) (a : A)
      → read x ≡ named name value
      → flags name ≡ none
      → parse (x ∷ rest) a ≡ (err internal, a)
  unfolding parse
  parse_unknown x name value [] a e u = rw (e, take, u) refl
  parse_unknown x name value (y ∷ rest) a e u = rw (e, take, u) refl
