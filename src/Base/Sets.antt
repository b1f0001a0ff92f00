-- ===== src/Base/Sets.antt =====
-- `BTreeSet` and `HashSet` of the standard library, as a list that holds an element at most once.
-- The order of the list is the order of iteration.
use mathlib.Core.Path.{◌≡◌, refl}
use mathlib.Core.Bool.{Bool, true, false, not, ◌&&◌, ◌||◌}
use mathlib.Core.List.{List, [], ◌∷◌, ◌++◌}
use native.Mathlib.Omega.{arith}
use storm_node.Base.Tests.{Key, ◌==◌, if◌then◌else◌}

module _ {ℓ} {A : Type ℓ} ⦃e : Key A⦄ where
  abbrev pub contains : A → List A → Bool
  contains a [] = false
  contains a (x ∷ xs) = a == x || contains a xs

  abbrev pub insert : A → List A → List A
  insert a xs = if contains a xs then xs else xs ++ a ∷ []

  abbrev pub remove : A → List A → List A
  remove a [] = []
  remove a (x ∷ xs) = if a == x then remove a xs else x ∷ remove a xs

  -- `iter().collect()`
  abbrev pub collect : List A → List A
  collect [] = []
  collect (x ∷ xs) = if contains x xs then collect xs else x ∷ collect xs

  pub contains-append :
      (a : A) (xs ys : List A) → contains a (xs ++ ys) ≡ (contains a xs || contains a ys)
  contains-append a [] ys = refl
  contains-append a (x ∷ xs) ys = ground (arith, contains-append a xs ys)

  pub contains-remove :
      (a b : A) (xs : List A) → contains a (remove b xs) ≡ (not (a == b) && contains a xs)
  contains-remove a b [] = ground arith
  contains-remove a b (x ∷ xs) =
      ground (arith, contains-remove a b xs, e.same_iff a b, e.same_iff b x, e.same_iff a x)

  pub contains-insert :
      (a b : A) (xs : List A) → contains a (insert b xs) ≡ (a == b || contains a xs)
  contains-insert a b xs = ground (arith, contains-append a xs (b ∷ []), e.same_iff a b)

module _ {ℓ} {A : Type ℓ} ⦃e : Key A⦄ where
  -- No element stands twice.
  abbrev pub Distinct : List A → Type 0
  Distinct [] = Unit
  Distinct (x ∷ xs) = (contains x xs ≡ false) × Distinct xs

  -- No element of the first list is in the second.
  abbrev pub Apart : List A → List A → Type 0
  Apart [] ys = Unit
  Apart (x ∷ xs) ys = (contains x ys ≡ false) × Apart xs ys

  -- Every element of the first list is in the second.
  abbrev pub Within : List A → List A → Type 0
  Within [] ys = Unit
  Within (x ∷ xs) ys = (contains x ys ≡ true) × Within xs ys

  pub Distinct-append_one :
      (a : A) (xs : List A) → contains a xs ≡ false → Distinct xs → Distinct (xs ++ a ∷ [])
  Distinct-append_one a [] h d = (refl, tt)
  Distinct-append_one a (x ∷ xs) h d = ground (
    arith,
    Distinct-append_one a xs,
    contains-append x xs (a ∷ []),
    e.same_iff a x,
    e.same_iff x a,
  )

  pub Apart-append_one :
      (a : A) (xs ys : List A) → contains a ys ≡ false → Apart xs ys → Apart (xs ++ a ∷ []) ys
  Apart-append_one a [] ys h d = (h, tt)
  Apart-append_one a (x ∷ xs) ys h d = (d.0, Apart-append_one a xs ys h d.1)

  pub Apart-insert :
      (a : A) (xs ys : List A) → contains a xs ≡ false → Apart xs ys → Apart xs (insert a ys)
  Apart-insert a [] ys h d = tt
  Apart-insert a (x ∷ xs) ys h d =
      ground (arith, Apart-insert a xs ys, contains-insert x a ys, e.same_iff a x, e.same_iff x a)

  pub Apart-remove : (a : A) (xs ys : List A) → Apart xs ys → Apart xs (remove a ys)
  Apart-remove a [] ys d = tt
  Apart-remove a (x ∷ xs) ys d = ground (arith, Apart-remove a xs ys, contains-remove x a ys)

  pub Apart-absent :
      (a : A) (xs ys : List A) → Apart xs ys → contains a ys ≡ true → contains a xs ≡ false
  Apart-absent a [] ys d h = refl
  Apart-absent a (x ∷ xs) ys d h = ground (arith, Apart-absent a xs ys, e.same_iff a x)

  pub Within-insert : (a : A) (xs ys : List A) → Within xs ys → Within xs (insert a ys)
  Within-insert a [] ys w = tt
  Within-insert a (x ∷ xs) ys w = ground (arith, Within-insert a xs ys, contains-insert x a ys)

  pub Within-absent :
      (a : A) (xs ys : List A) → Within xs ys → contains a ys ≡ false → contains a xs ≡ false
  Within-absent a [] ys w h = refl
  Within-absent a (x ∷ xs) ys w h = ground (arith, Within-absent a xs ys, e.same_iff a x)

  pub Within-remove :
      (a : A) (xs ys : List A) → contains a xs ≡ false → Within xs ys → Within xs (remove a ys)
  Within-remove a [] ys h w = tt
  Within-remove a (x ∷ xs) ys h w =
      ground (arith, Within-remove a xs ys, contains-remove x a ys, e.same_iff a x, e.same_iff x a)
