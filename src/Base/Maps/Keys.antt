-- ===== src/Base/Maps/Keys.antt =====
-- Maps in which no key stands twice: a value is found under its key wherever the pairs stand.
use mathlib.Core.Path.{◌≡◌, ◌∙◌, sym}
use mathlib.Core.Logic.{inl, inr}
use mathlib.Core.Bool.{true, ◌&&◌, not}
use mathlib.Core.Option.{some}
use mathlib.Core.List.{List, [], ◌∷◌}
use native.Mathlib.Omega.{arith}
use storm_node.Base.Tests.{Key, ◌==◌, Option-cases}
use storm_node.Base.Sets.{contains, Distinct}
use storm_node.Base.Maps.{HashMap, get, remove, insert, values, find_key, find_key-get}

abbrev pub keys {ℓ κ} : {K : Type ℓ} {V : Type κ} → HashMap K V → List K
keys [] = []
keys ((k, v) ∷ m) = k ∷ keys m

module _ {ℓ κ} {K : Type ℓ} {V : Type κ} ⦃e : Key K⦄ where
  contains-keys-get :
      (k : K) (v : V) (m : HashMap K V) → get k m ≡ some v → contains k (keys m) ≡ true
  contains-keys-get k v [] h = ground arith
  contains-keys-get k v ((j, w) ∷ m) h = ground (arith, h, contains-keys-get k v m)

  contains-keys-remove :
      (k j : K) (m : HashMap K V)
      → contains k (keys (remove j m)) ≡ (not (k == j) && contains k (keys m))
  contains-keys-remove k j [] = ground arith
  contains-keys-remove k j ((i, w) ∷ m) =
      ground (arith, contains-keys-remove k j m, e.same_iff k j, e.same_iff j i, e.same_iff k i)

  pub Distinct-keys-remove :
      (k : K) (m : HashMap K V) → Distinct (keys m) → Distinct (keys (remove k m))
  Distinct-keys-remove k [] d = tt
  Distinct-keys-remove k ((j, w) ∷ m) d =
      ground (arith, Distinct-keys-remove k m, contains-keys-remove j k m)

  pub Distinct-keys-insert :
      (k : K) (v : V) (m : HashMap K V) → Distinct (keys m) → Distinct (keys (insert k v m))
  Distinct-keys-insert k v m d =
      (ground (arith, contains-keys-remove k k m, e.same_iff k k), Distinct-keys-remove k m d)

module _ {ℓ κ} {K : Type ℓ} {V : Type κ} ⦃e : Key K⦄ ⦃f : Key V⦄ where
  get_of_find_key :
      (k : K) (v : V) (m : HashMap K V)
      → Distinct (keys m)
      → find_key v m ≡ some k
      → get k m ≡ some v
  get_of_find_key k v [] d h = ground (arith, h)
  get_of_find_key k v ((j, w) ∷ m) d h =
      ground (
        arith,
        h,
        d,
        get_of_find_key k v m,
        contains-keys-get k v m,
        e.same_iff k j,
        f.same_iff v w,
      )

  -- Where no key and no value stands twice, a search by the value finds the same key in every map
  -- with the same entries.
  pub find_key-same :
      (v : V) (m n : HashMap K V)
      → Distinct (keys m)
      → Distinct (keys n)
      → Distinct (values m)
      → Distinct (values n)
      → ((k : K) → get k m ≡ get k n)
      → find_key v m ≡ find_key v n
  find_key-same v m n dm dn sm sn same = elim (Option-cases (find_key v m)) [
    | inr (k, e) ↦ e ∙ sym (find_key-get k v n sn (sym (same k) ∙ get_of_find_key k v m dm e))
    | inl none_m ↦ elim (Option-cases (find_key v n)) [
      | inl none_n ↦ none_m ∙ sym none_n
      | inr (k, e) ↦ find_key-get k v m sm (same k ∙ get_of_find_key k v n dn e) ∙ sym e
    ]
  ]
