-- ===== src/Base/Action.antt =====
-- Methods on `&mut self` that may fail. What was written before a failure stays written, so the
-- state comes back beside the error too. A panic (`unreachable!`, `expect`) ends the method as
-- well, and no handler catches it.
pub mod Agree
use Prim.Native.String.{String}
use mathlib.Core.Path.{◌≡◌, refl}
use mathlib.Core.Logic.{◌⊎◌, inl, inr}
use mathlib.Core.Option.{Option, none, some}

-- `Result` of the standard library.
pub data Result {ℓ} (E A : Type ℓ) : Type ℓ where
  ok : A → Result E A
  err : E → Result E A

pub Result-cases {ℓ} :
    {E A : Type ℓ} (r : Result E A) → ((a : A) × (r ≡ ok a)) ⊎ ((e : E) × (r ≡ err e))
Result-cases (ok a) = inl (a, refl)
Result-cases (err e) = inr (e, refl)

-- How a call ends.
pub data Outcome {ℓ} (E A : Type ℓ) : Type ℓ where
  value : A → Outcome E A
  error : E → Outcome E A
  panic : String → Outcome E A

pub Outcome-cases {ℓ} :
    {E A : Type ℓ} (r : Outcome E A)
    → ((a : A) × (r ≡ value a)) ⊎ ((e : E) × (r ≡ error e)) ⊎ ((text : String) × (r ≡ panic text))
Outcome-cases (value a) = inl (a, refl)
Outcome-cases (error e) = inr (inl (e, refl))
Outcome-cases (panic text) = inr (inr (text, refl))

abbrev pub Action : Type 0 → Type 0 → Type 0 → Type 0
Action S E A = S → Outcome E A × S

abbrev pub of_result {ℓ} : {E A : Type ℓ} → Result E A → Outcome E A
of_result (ok a) = value a
of_result (err e) = error e

module _ {S E : Type 0} where
  abbrev pub pure : {A : Type 0} → A → Action S E A
  pure a s = (value a, s)

  abbrev pub throw : {A : Type 0} → E → Action S E A
  throw e s = (error e, s)

  abbrev pub unreachable : {A : Type 0} → String → Action S E A
  unreachable text s = (panic text, s)

  abbrev pub gets : {A : Type 0} → (S → A) → Action S E A
  gets f s = (value (f s), s)

  abbrev pub call : {A : Type 0} → Outcome E A → Action S E A
  call r s = (r, s)

  abbrev pub lift : {A : Type 0} → Result E A → Action S E A
  lift r s = (of_result r, s)

  infixl 5 ◌>>=◌ ◌>>◌
  abbrev pub ◌>>=◌ : {A B : Type 0} → Action S E A → (A → Action S E B) → Action S E B
  ◌>>=◌ m f s =
      let (r, s') = m s in
      elim r [ value a ↦ f a s' | error e ↦ (error e, s') | panic text ↦ (panic text, s') ]

  abbrev pub ◌>>◌ : {A B : Type 0} → Action S E A → Action S E B → Action S E B
  m >> k = m >>= λ _. k

-- The conversion that `?` makes of the error.
abbrev pub conv : {S E F A : Type 0} → (E → F) → Action S E A → Action S F A
conv c m s =
    let (r, s') = m s in
    elim r [ value a ↦ (value a, s') | error e ↦ (error (c e), s') | panic text ↦ (panic text, s') ]

-- `match` on the result of a call.
abbrev pub attempt : {S E F A : Type 0} → Action S E A → Action S F (Result E A)
attempt m s =
    let (r, s') = m s in
    elim r [
      | value a ↦ (value (ok a), s')
      | error e ↦ (value (err e), s')
      | panic text ↦ (panic text, s')
    ]

-- `let _ = m;`
abbrev pub ignore : {S E F A : Type 0} → Action S E A → Action S F (Unit {0})
ignore m s =
    let (r, s') = m s in
    elim r [ value a ↦ (value tt, s') | error e ↦ (value tt, s') | panic text ↦ (panic text, s') ]

-- `ok_or`
abbrev pub or_throw : {S E A : Type 0} → Option A → E → Action S E A
or_throw none e = throw e
or_throw (some a) e = pure a

-- `expect`
abbrev pub expect : {S E A : Type 0} → Option A → String → Action S E A
expect none text = unreachable text
expect (some a) text = pure a
