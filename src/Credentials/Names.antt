-- ===== src/Credentials/Names.antt =====
-- `sorted(set(l))` on texts: what it lists, and in which order.
use Prim.Native.Char.{code}
use text.Mathlib.TextEquality.{Char-path}
use keirin_ai_web.Prelude.{
  ℕ, String, ◌≡◌, refl, ap, ◌∙◌, Bool, true, false, ◌&&◌, ◌||◌, List, [], ◌∷◌, ltb, ◌==◌, nat_eq,
  string_eq, contains, if-cases, arith,
}
use keirin_ai_web.Credentials.Capabilities.{text_lt, insert_sorted, sorted_set}

same_heads :
    (m n : ℕ) (p q : Bool)
    → (ltb m n || (m == n && p)) ≡ false
    → (ltb n m || (n == m && q)) ≡ false
    → (m ≡ n) × (p ≡ false) × (q ≡ false)
same_heads m n p q h k = ground arith

text_lt-total : (s t : String) → text_lt s t ≡ false → text_lt t s ≡ false → s ≡ t
unfolding text_lt
text_lt-total String.[] String.[] h k = refl
text_lt-total String.[] (String.◌∷◌ d t) h k = absurd (ground (arith, h))
text_lt-total (String.◌∷◌ c s) String.[] h k = absurd (ground (arith, k))
text_lt-total (String.◌∷◌ c s) (String.◌∷◌ d t) h k =
    let (p, q, r) = same_heads (code c) (code d) (text_lt s t) (text_lt t s) h k in
    ap (λ e. String.◌∷◌ e s) (Char-path c d p) ∙ ap (λ r. String.◌∷◌ d r) (text_lt-total s t q r)

contains-insert_sorted :
    (a b : String) (l : List String) → contains a (insert_sorted b l) ≡ (a == b || contains a l)
unfolding insert_sorted
contains-insert_sorted a b [] = refl
contains-insert_sorted a b (x ∷ l) = ground (arith, text_lt-total b x, contains-insert_sorted a b l)

pub contains-sorted_set : (a : String) (l : List String) → contains a (sorted_set l) ≡ contains a l
unfolding sorted_set
contains-sorted_set a [] = refl
contains-sorted_set a (b ∷ l) =
    ground (arith, contains-insert_sorted a b (sorted_set l), contains-sorted_set a l)

-- The text comes before the first of the list.
abbrev pub Precedes : String → List String → Type 0
Precedes a [] = Unit
Precedes a (x ∷ l) = text_lt a x ≡ true

-- Each text comes before the next.
abbrev pub Increasing : List String → Type 0
Increasing [] = Unit
Increasing (a ∷ l) = Precedes a l × Increasing l

insert_sorted-Precedes :
    (x a : String) (l : List String)
    → text_lt x a ≡ true
    → Precedes x l
    → Precedes x (insert_sorted a l)
unfolding insert_sorted
insert_sorted-Precedes x a [] h k = h
insert_sorted-Precedes x a (y ∷ l) h k =
    if-cases (Precedes x) (text_lt a y) (a ∷ y ∷ l) _ (λ p. h)
      (λ p. if-cases (Precedes x) (text_lt y a) (y ∷ insert_sorted a l) (y ∷ l) (λ q. k) (λ q. k))

insert_sorted-Increasing :
    (a : String) (l : List String) → Increasing l → Increasing (insert_sorted a l)
unfolding insert_sorted
insert_sorted-Increasing a [] h = (tt, tt)
insert_sorted-Increasing a (x ∷ l) (h, k) =
    if-cases Increasing (text_lt a x) (a ∷ x ∷ l) _ (λ p. (p, (h, k)))
      (λ p.
        if-cases Increasing (text_lt x a) (x ∷ insert_sorted a l) (x ∷ l)
          (λ q. (insert_sorted-Precedes x a l q h, insert_sorted-Increasing a l k)) (λ q. (h, k)))

pub sorted_set-Increasing : (l : List String) → Increasing (sorted_set l)
unfolding sorted_set
sorted_set-Increasing [] = tt
sorted_set-Increasing (a ∷ l) = insert_sorted-Increasing a (sorted_set l) (sorted_set-Increasing l)

trans_heads :
    (m n i : ℕ) (p q r : Bool)
    → (p ≡ true → q ≡ true → r ≡ true)
    → (ltb m n || (m == n && p)) ≡ true
    → (ltb n i || (n == i && q)) ≡ true
    → (ltb m i || (m == i && r)) ≡ true
trans_heads m n i p q r t h k = ground arith

pub text_lt_trans : (s t v : String) → text_lt s t ≡ true → text_lt t v ≡ true → text_lt s v ≡ true
unfolding text_lt
text_lt_trans String.[] String.[] v h k = absurd (ground (arith, h))
text_lt_trans String.[] (String.◌∷◌ d t) String.[] h k = absurd (ground (arith, k))
text_lt_trans String.[] (String.◌∷◌ d t) (String.◌∷◌ e v) h k = refl
text_lt_trans (String.◌∷◌ c s) String.[] v h k = absurd (ground (arith, h))
text_lt_trans (String.◌∷◌ c s) (String.◌∷◌ d t) String.[] h k = absurd (ground (arith, k))
text_lt_trans (String.◌∷◌ c s) (String.◌∷◌ d t) (String.◌∷◌ e v) h k =
    trans_heads (code c) (code d) (code e) (text_lt s t) (text_lt t v) (text_lt s v)
      (text_lt_trans s t v) h k
