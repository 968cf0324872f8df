-- ===== src/Prelude/Dict.antt =====
-- Python's `dict` as an association list in insertion order, keyed by a type with an equality test.
use mathlib.Core.Path.{◌≡◌, sym, ap, ◌∙◌, subst}
use mathlib.Core.Bool.{false}
use mathlib.Core.Logic.{◌≢◌, inl, inr}
use mathlib.Core.Option.{Option, none, some}
use mathlib.Core.List.{List, [], ◌∷◌}
use native.Mathlib.Omega.{arith}
use keirin_ai_web.Prelude.Tests.{Equality, ◌==◌, Bool-cases, if◌then◌else◌}

abbrev pub Dict {ℓ κ} : Type ℓ → Type κ → Type (ℓ ⊔ κ)
Dict K V = List (K × V)

pub differ {ℓ} : {K : Type ℓ} ⦃e : Equality K⦄ (j k : K) → (j == k) ≡ false → j ≢ k
differ ⦃e⦄ j k h q = absurd (ground (arith, (e.same_iff j k).1 q))

module _ {ℓ κ} {K : Type ℓ} {V : Type κ} ⦃e : Equality K⦄ where
  -- `d.get(k)`
  abbrev pub lookup : K → Dict K V → Option V
  lookup k [] = none
  lookup k ((j, v) ∷ d) = if k == j then some v else lookup k d

  -- `d[k] = v`
  abbrev pub insert : K → V → Dict K V → Dict K V
  insert k v [] = (k, v) ∷ []
  insert k v ((j, w) ∷ d) = if k == j then (j, v) ∷ d else (j, w) ∷ insert k v d

  -- `d.pop(k, None)`
  abbrev pub remove : K → Dict K V → Dict K V
  remove k [] = []
  remove k ((j, w) ∷ d) = let rest = remove k d in if k == j then d else (j, w) ∷ rest

  pub lookup-insert_self : (k : K) (v : V) (d : Dict K V) → lookup k (insert k v d) ≡ some v
  lookup-insert_self k v [] = ground (arith, e.same_iff k k)
  lookup-insert_self k v ((j, w) ∷ d) =
      ground (arith, e.same_iff k j, e.same_iff k k, lookup-insert_self k v d)

  pub lookup-insert_ne :
      (k j : K) (v : V) (d : Dict K V) → j ≢ k → lookup j (insert k v d) ≡ lookup j d
  lookup-insert_ne k j v [] h = ground (arith, e.same_iff j k)
  lookup-insert_ne k j v ((i, w) ∷ d) h =
      ground (arith, e.same_iff j i, e.same_iff k i, e.same_iff j k, lookup-insert_ne k j v d h)

  -- What a table has after an assignment, for every name.
  pub lookup-insert_cases {μ} :
      (P : Option V → Type μ) (k j : K) (v : V) (d : Dict K V)
      → (j ≡ k → P (some v))
      → (j ≢ k → P (lookup j d))
      → P (lookup j (insert k v d))
  lookup-insert_cases P k j v d same other = elim (Bool-cases (j == k)) [
    | inl p ↦
        let q = (e.same_iff j k).0 p in
        subst P (sym (ap (λ i. lookup i (insert k v d)) q ∙ lookup-insert_self k v d)) (same q)
    | inr p ↦ let q = differ j k p in subst P (sym (lookup-insert_ne k j v d q)) (other q)
  ]
