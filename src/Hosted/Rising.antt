-- ===== src/Hosted/Rising.antt =====
-- Numbers that pass the tests of `list` of agent_core/hosted_activity.py rise, past the cursor.
use mathlib.Core.Path.{subst}
use keirin_ai_web.Prelude.{
  ℕ, suc, ◌≤◌, ◌<◌, ◌≡◌, refl, sym, Bool, true, false, not, ◌||◌, Option, none, some, List, [], ◌∷◌,
  leb, ◌==◌, nat_eq, string_eq, list_eq, list_beq_iff, nat_beq_iff, contains, if-cases, arith,
  if◌then◌else◌,
}
use keirin_ai_web.Outcome.{ok, activity_integrity}
use keirin_ai_web.Outcome.Pure.{bind-ok, both-pass, passed, raise_if}
use keirin_ai_web.Hosted.Listing.{
  insert_number, sorted_numbers, count, count_distinct, any_upto, check_ids,
}

abbrev AtMost : ℕ → List ℕ → Type 0
AtMost n [] = Unit
AtMost n (k ∷ l) = n ≤ k

abbrev Ascending : List ℕ → Type 0
Ascending [] = Unit
Ascending (n ∷ l) = AtMost n l × Ascending l

insert_number-AtMost : (n k : ℕ) (l : List ℕ) → n ≤ k → AtMost n l → AtMost n (insert_number k l)
unfolding insert_number
insert_number-AtMost n k [] h a = h
insert_number-AtMost n k (i ∷ l) h a =
    if-cases (AtMost n) (leb k i) (k ∷ i ∷ l) (i ∷ insert_number k l) (λ p. h) (λ p. a)

insert_number-Ascending : (k : ℕ) (l : List ℕ) → Ascending l → Ascending (insert_number k l)
unfolding insert_number
insert_number-Ascending k [] h = (tt, tt)
insert_number-Ascending k (i ∷ l) (a, h) =
    if-cases Ascending (leb k i) (k ∷ i ∷ l) (i ∷ insert_number k l) (λ p. (ground arith, (a, h)))
      (λ p. (insert_number-AtMost i k l (ground arith) a, insert_number-Ascending k l h))

sorted_numbers-Ascending : (l : List ℕ) → Ascending (sorted_numbers l)
unfolding sorted_numbers
sorted_numbers-Ascending [] = tt
sorted_numbers-Ascending (n ∷ l) =
    insert_number-Ascending n (sorted_numbers l) (sorted_numbers-Ascending l)

count_distinct-le : (l : List ℕ) → count_distinct l ≤ count l
unfolding count_distinct count
count_distinct-le [] = omega arith
count_distinct-le (n ∷ l) = ground (arith, count_distinct-le l)

-- Each number is less than the next.
abbrev Below : ℕ → List ℕ → Type 0
Below n [] = Unit
Below n (k ∷ l) = n < k

abbrev pub Rising : List ℕ → Type 0
Rising [] = Unit
Rising (n ∷ l) = Below n l × Rising l

counted_once :
    (t : Bool) (c d : ℕ) → d ≤ c → suc c ≡ (if t then d else suc d) → (t ≡ false) × (c ≡ d)
counted_once true c d h k = absurd (omega (arith, h, k))
counted_once false c d h k = (refl, omega (arith, k))

apart : (n k : ℕ) (t : Bool) → n ≤ k → (n == k || t) ≡ false → n < k
apart n k t h p = ground arith

distinct-Rising : (l : List ℕ) → Ascending l → count l ≡ count_distinct l → Rising l
unfolding count count_distinct
distinct-Rising [] a h = tt
distinct-Rising (n ∷ []) a h = (tt, tt)
distinct-Rising (n ∷ k ∷ l) (a, b) h =
    let (p, q) =
      counted_once (contains n (k ∷ l)) (count (k ∷ l)) _ (count_distinct-le (k ∷ l)) h in
    (apart n k (contains n l) a p, distinct-Rising (k ∷ l) b q)

-- Each of the numbers is past the cursor, where there is one.
abbrev Past : ℕ → List ℕ → Type 0
Past after [] = Unit
Past after (n ∷ l) = (after < n) × Past after l

abbrev pub PastCursor : Option ℕ → List ℕ → Type 0
PastCursor none l = Unit
PastCursor (some after) l = Past after l

none_upto : (after : ℕ) (l : List ℕ) → any_upto after l ≡ false → Past after l
unfolding any_upto
none_upto after [] h = tt
none_upto after (n ∷ l) h = (ground arith, none_upto after l (ground arith))

ordered :
    (ids : List ℕ) (u : Unit {0})
    → raise_if
        (not (ids == sorted_numbers ids) || not (count ids == count_distinct ids))
        (activity_integrity "activity_event_order_or_duplicate_error")
      ≡ ok u
    → Rising ids
ordered ids u h =
    let (p, q) = both-pass _ _ _ u h in
    distinct-Rising ids
      (subst Ascending (sym ((list_beq_iff ids (sorted_numbers ids)).0 p))
        (sorted_numbers-Ascending ids))
      ((nat_beq_iff (count ids) (count_distinct ids)).0 q)

pub check_ids-lem :
    (ids : List ℕ) (after : Option ℕ) (u : Unit {0})
    → check_ids ids after ≡ ok u
    → Rising ids × PastCursor after ids
unfolding check_ids
check_ids-lem ids none u h = (ordered ids u h, tt)
check_ids-lem ids (some after) u h =
    let (v, p, q) =
      bind-ok
        (raise_if (not (ids == sorted_numbers ids) || not (count ids == count_distinct ids))
          (activity_integrity "activity_event_order_or_duplicate_error"))
        (λ v. raise_if (any_upto after ids) (activity_integrity "activity_event_cursor_violation"))
        u h in
    (ordered ids v p, none_upto after ids (passed _ _ u q))
