-- ===== src/Base/Maps.antt =====
-- `HashMap` of the standard library, as an association list. Iteration goes along the list.
pub mod Keys
use mathlib.Core.Path.{◌≡◌, refl}
use mathlib.Core.Bool.{true, false}
use mathlib.Core.Option.{Option, none, some}
use mathlib.Core.List.{List, [], ◌∷◌}
use native.Mathlib.Omega.{arith}
use storm_node.Base.Tests.{Key, ◌==◌, if◌then◌else◌}
use storm_node.Base.Sets.{contains, Distinct, Within}

abbrev pub HashMap {ℓ κ} : Type ℓ → Type κ → Type (ℓ ⊔ κ)
HashMap K V = List (K × V)

module _ {ℓ κ} {K : Type ℓ} {V : Type κ} ⦃e : Key K⦄ where
  abbrev pub get : K → HashMap K V → Option V
  get k [] = none
  get k ((j, v) ∷ m) = if k == j then some v else get k m

  abbrev pub remove : K → HashMap K V → HashMap K V
  remove k [] = []
  remove k ((j, v) ∷ m) = if k == j then remove k m else (j, v) ∷ remove k m

  abbrev pub insert : K → V → HashMap K V → HashMap K V
  insert k v m = (k, v) ∷ remove k m

  pub get-remove :
      (k j : K) (m : HashMap K V) → get j (remove k m) ≡ (if k == j then none else get j m)
  get-remove k j [] = ground arith
  get-remove k j ((i, v) ∷ m) =
      ground (arith, get-remove k j m, e.same_iff k j, e.same_iff k i, e.same_iff j i)

  pub get-insert :
      (k j : K) (v : V) (m : HashMap K V)
      → get j (insert k v m) ≡ (if k == j then some v else get j m)
  get-insert k j v m = ground (arith, get-remove k j m, e.same_iff k j, e.same_iff j k)

module _ {ℓ κ} {K : Type ℓ} {V : Type κ} ⦃e : Key V⦄ where
  -- `iter().find(|(_, v)| v == value).map(|(k, _)| k)`
  abbrev pub find_key : V → HashMap K V → Option K
  find_key v [] = none
  find_key v ((k, w) ∷ m) = if v == w then some k else find_key v m

module _ {ℓ κ} {K : Type ℓ} {V : Type κ} where
  abbrev pub values : HashMap K V → List V
  values [] = []
  values ((k, v) ∷ m) = v ∷ values m

module _ {ℓ κ} {K : Type ℓ} {V : Type κ} ⦃e : Key K⦄ ⦃f : Key V⦄ where
  pub contains-values-remove :
      (k : K) (v : V) (m : HashMap K V)
      → contains v (values m) ≡ false
      → contains v (values (remove k m)) ≡ false
  contains-values-remove k v [] h = refl
  contains-values-remove k v ((j, w) ∷ m) h = ground (arith, contains-values-remove k v m)

  pub Distinct-values-remove :
      (k : K) (m : HashMap K V) → Distinct (values m) → Distinct (values (remove k m))
  Distinct-values-remove k [] d = tt
  Distinct-values-remove k ((j, w) ∷ m) d =
      ground (arith, Distinct-values-remove k m, contains-values-remove k w m)

  pub Within-values-remove :
      (k : K) (m : HashMap K V) (ys : List V)
      → Within (values m) ys
      → Within (values (remove k m)) ys
  Within-values-remove k [] ys w = tt
  Within-values-remove k ((j, v) ∷ m) ys w = ground (arith, Within-values-remove k m ys)

  pub contains_of_find_key-none :
      (v : V) (m : HashMap K V) → find_key v m ≡ none → contains v (values m) ≡ false
  contains_of_find_key-none v [] h = refl
  contains_of_find_key-none v ((k, w) ∷ m) h = ground (arith, contains_of_find_key-none v m)

  pub contains-remove-find_key :
      (v : V) (k : K) (m : HashMap K V)
      → Distinct (values m)
      → find_key v m ≡ some k
      → contains v (values (remove k m)) ≡ false
  contains-remove-find_key v k [] d h = refl
  contains-remove-find_key v k ((j, w) ∷ m) d h = ground (
    arith,
    contains-remove-find_key v k m d.1,
    contains-values-remove k v m,
    f.same_iff v w,
    e.same_iff k j,
  )

module _ {ℓ κ} {K : Type ℓ} {V : Type κ} ⦃e : Key K⦄ ⦃f : Key V⦄ where
  pub contains-values-get :
      (k : K) (v : V) (m : HashMap K V) → get k m ≡ some v → contains v (values m) ≡ true
  contains-values-get k v [] h = cc
  contains-values-get k v ((j, w) ∷ m) h =
      ground (arith, h, contains-values-get k v m, f.same_iff v w)

  -- With no value twice, a value is found under its key, wherever the pair stands in the list.
  pub find_key-get :
      (k : K) (v : V) (m : HashMap K V)
      → Distinct (values m)
      → get k m ≡ some v
      → find_key v m ≡ some k
  find_key-get k v [] d h = cc
  find_key-get k v ((j, w) ∷ m) d h =
      ground
        (arith, h, d, contains-values-get k v m, find_key-get k v m, e.same_iff k j, f.same_iff v w)
