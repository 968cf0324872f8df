-- ===== src/Hosted/Clean.antt =====
-- The search for forbidden keys finds one exactly where the value has one.
use keirin_ai_web.Prelude.{
  ℕ, ◌+◌, ◌≡◌, ◌↔◌, refl, Bool, true, false, Option, none, some, List, [], ◌∷◌, if◌then◌else◌,
  arith,
}
use keirin_ai_web.Json.{
  Json, Items, Fields, null, boolean, int, float, text, arr, obj, nil, cons, end, field,
}
use keirin_ai_web.Hosted.Lease.{is_clear}
use keirin_ai_web.Hosted.Forbidden.{
  is_forbidden, PathPart, either, under, forbidden_path, forbidden_in_items, forbidden_in_fields,
  IsClean, AreClean, FieldsAreClean,
}

either-none : (a b : Option (List PathPart)) → either a b ≡ none → (a ≡ none) × (b ≡ none)
either-none none b h = (refl, h)
either-none (some x) b h = absurd (ground arith)

under-none : (p : PathPart) (o : Option (List PathPart)) → under p o ≡ none → o ≡ none
under-none p none h = refl
under-none p (some x) h = absurd (ground arith)

permitted :
    (t : Bool) (path : List PathPart) (o : Option (List PathPart))
    → (if t then some path else o) ≡ none
    → (t ≡ false) × (o ≡ none)
permitted true path o h = absurd (ground arith)
permitted false path o h = (refl, h)

mutual
  unfolding forbidden_path forbidden_in_items forbidden_in_fields IsClean AreClean FieldsAreClean

  none-IsClean : (v : Json) → forbidden_path v ≡ none → IsClean v
  none-IsClean null h = tt
  none-IsClean (boolean b) h = tt
  none-IsClean (int n) h = tt
  none-IsClean (float b) h = tt
  none-IsClean (text s) h = tt
  none-IsClean (arr l) h = none-AreClean 0 l h
  none-IsClean (obj fs) h = none-FieldsAreClean fs h

  none-AreClean : (i : ℕ) (l : Items) → forbidden_in_items i l ≡ none → AreClean l
  none-AreClean i nil h = tt
  none-AreClean i (cons v l) h =
      let (p, q) = either-none (under (PathPart.index i) (forbidden_path v)) _ h in
      (
        none-IsClean v (under-none (PathPart.index i) (forbidden_path v) p),
        none-AreClean (i + 1) l q,
      )

  none-FieldsAreClean : (fs : Fields) → forbidden_in_fields fs ≡ none → FieldsAreClean fs
  none-FieldsAreClean end h = tt
  none-FieldsAreClean (field key v fs) h =
      let (k, r) = permitted (is_forbidden key) (PathPart.member key ∷ []) _ h in
      let (p, q) = either-none (under (PathPart.member key) (forbidden_path v)) _ r in
      (
        k,
        none-IsClean v (under-none (PathPart.member key) (forbidden_path v) p),
        none-FieldsAreClean fs q,
      )

mutual
  unfolding forbidden_path forbidden_in_items forbidden_in_fields IsClean AreClean FieldsAreClean

  IsClean-none : (v : Json) → IsClean v → forbidden_path v ≡ none
  IsClean-none null h = refl
  IsClean-none (boolean b) h = refl
  IsClean-none (int n) h = refl
  IsClean-none (float b) h = refl
  IsClean-none (text s) h = refl
  IsClean-none (arr l) h = AreClean-none 0 l h
  IsClean-none (obj fs) h = FieldsAreClean-none fs h

  AreClean-none : (i : ℕ) (l : Items) → AreClean l → forbidden_in_items i l ≡ none
  AreClean-none i nil h = refl
  AreClean-none i (cons v l) (h, k) = rw (IsClean-none v h) (AreClean-none (i + 1) l k)

  FieldsAreClean-none : (fs : Fields) → FieldsAreClean fs → forbidden_in_fields fs ≡ none
  FieldsAreClean-none end h = refl
  FieldsAreClean-none (field key v fs) (f, h, k) =
      rw (f, IsClean-none v h) (FieldsAreClean-none fs k)

-- The search finds no path exactly where no key of the value, at any depth, is forbidden.
pub forbidden_path-exact : (v : Json) → (forbidden_path v ≡ none) ↔ IsClean v
forbidden_path-exact v = (none-IsClean v, IsClean-none v)

pub is_clear-none : {A : Type 0} (o : Option A) → is_clear o ≡ true → o ≡ none
is_clear-none none h = refl
is_clear-none (some a) h = absurd (ground (arith, h))
