-- ===== src/Base/Action/Agree.antt =====
-- Methods that cannot tell two states apart: from states that are related they end alike, in states
-- that are related.
use mathlib.Core.Path.{◌≡◌, refl, sym, subst}
use mathlib.Core.Logic.{inl, inr}
use native.Mathlib.Omega.{arith}
use mathlib.Core.Bool.{Bool, true, false}
use storm_node.Base.Tests.{if◌then◌else◌}
use storm_node.Base.Action.{Outcome, Outcome-cases, Action, pure, throw, call, ◌>>=◌, conv, ignore}

module _ {S : Type 0} (R : S → S → Type 0) where
  abbrev pub Alike : {E A : Type 0} → Outcome E A × S → Outcome E A × S → Type 0
  Alike r r' = (r.0 ≡ r'.0) × R r.1 r'.1

  abbrev pub Agree : {E A : Type 0} → Action S E A → Type 0
  Agree m = (s s' : S) → R s s' → Alike (m s) (m s')

  pub Agree-pure : {E A : Type 0} (a : A) → Agree {E = E} (pure a)
  Agree-pure a s s' h = (refl, h)

  pub Agree-throw : {E A : Type 0} (e : E) → Agree {A = A} (throw e)
  Agree-throw e s s' h = (refl, h)

  pub Agree-call : {E A : Type 0} (r : Outcome E A) → Agree (call r)
  Agree-call r s s' h = (refl, h)

  pub Agree-bind :
      {E A B : Type 0} (m : Action S E A) (k : A → Action S E B)
      → Agree m
      → ((a : A) → Agree (k a))
      → Agree (m >>= k)
  Agree-bind m k hm hk s s' h =
      let (same, after) = hm s s' h in
      elim (Outcome-cases (m s).0) [
        | inl (a, e) ↦ ground (arith, e, same, hk a (m s).1 (m s').1 after)
        | inr (inl (x, e)) ↦ ground (arith, e, same, after)
        | inr (inr (x, e)) ↦ ground (arith, e, same, after)
      ]

  pub Agree-conv : {E F A : Type 0} (c : E → F) (m : Action S E A) → Agree m → Agree (conv c m)
  Agree-conv c m hm s s' h =
      let (same, after) = hm s s' h in
      elim (Outcome-cases (m s).0) [
        | inl (a, e) ↦ ground (arith, e, same, after)
        | inr (inl (x, e)) ↦ ground (arith, e, same, after)
        | inr (inr (x, e)) ↦ ground (arith, e, same, after)
      ]

  pub Agree-ignore : {E F A : Type 0} (m : Action S E A) → Agree m → Agree {E = F} (ignore m)
  Agree-ignore m hm s s' h =
      let (same, after) = hm s s' h in
      elim (Outcome-cases (m s).0) [
        | inl (a, e) ↦ ground (arith, e, same, after)
        | inr (inl (x, e)) ↦ ground (arith, e, same, after)
        | inr (inr (x, e)) ↦ ground (arith, e, same, after)
      ]

  pub Agree-if :
      {E A : Type 0} (b : Bool) (m n : Action S E A)
      → Agree m
      → Agree n
      → Agree (if b then m else n)
  Agree-if true m n hm hn = hm
  Agree-if false m n hm hn = hn

  -- A method that reads what related states have in common.
  pub Agree-read :
      {E A X : Type 0} (get : S → X) (k : X → Action S E A)
      → ((s s' : S) → R s s' → get s ≡ get s')
      → ((x : X) → Agree (k x))
      → Agree (λ s. k (get s) s)
  Agree-read get k same hk s s' h =
      subst (λ x. Alike (k x s) (k (get s') s')) (sym (same s s' h)) (hk (get s') s s' h)
