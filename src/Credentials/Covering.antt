-- ===== src/Credentials/Covering.antt =====
-- Capabilities that are held stay held when `_capabilities` of agent_core/credential_provider.py makes them
-- again.
use mathlib.Core.Path.{subst}
use keirin_ai_web.Prelude.{
  String, ◌≡◌, sym, ap, ◌∙◌, true, List, [], ◌∷◌, ◌==◌, string_eq, contains, Bool-cases, inl, inr,
  arith, eq_iff,
}
use keirin_ai_web.Prelude.Text.{strip}
use keirin_ai_web.Prelude.Stripped.{strip-idempotent}
use keirin_ai_web.Outcome.{ok}
use keirin_ai_web.Outcome.Pure.{Result-cases}
use keirin_ai_web.Credentials.Values.{Value, text}
use keirin_ai_web.Credentials.Capabilities.{
  Collection, items, single_text, not_iterable, sorted_set, stripped, capabilities,
}
use keirin_ai_web.Credentials.Names.{contains-sorted_set}
use keirin_ai_web.Credentials.Snapshot.{texts}

stripped-cons :
    (s : String) (l : List Value) (names : List String)
    → stripped (text s ∷ l) ≡ ok names
    → (rest : List String) × (stripped l ≡ ok rest) × (strip s ∷ rest ≡ names)
unfolding stripped
stripped-cons s l names h = elim (Result-cases (stripped l)) [
  | inl (rest, p) ↦ (rest, p, ground (arith, p, h))
  | inr (e, p) ↦ absurd (ground (arith, p, h))
]

stripped-stripped :
    (l : List Value) (names : List String) (a : String)
    → stripped l ≡ ok names
    → contains a names ≡ true
    → strip a ≡ a
unfolding stripped
stripped-stripped [] names a h k = absurd (ground (arith, h, k))
stripped-stripped (text s ∷ l) names a h k =
    let (rest, p, q) = stripped-cons s l names h in
    elim (Bool-cases (a == strip s)) [
      | inl e ↦ let same = (eq_iff a (strip s)).0 e in ap strip same ∙ strip-idempotent s ∙ sym same
      | inr e ↦ stripped-stripped l rest a p (ground (arith, q, k, e))
    ]
stripped-stripped (v ∷ l) names a h k = absurd (ground (arith, h))

stripped-texts :
    (held names : List String) (a : String)
    → stripped (texts held) ≡ ok names
    → contains a held ≡ true
    → contains (strip a) names ≡ true
unfolding stripped
stripped-texts [] names a h k = absurd (ground (arith, k))
stripped-texts (b ∷ held) names a h k =
    let (rest, p, q) = stripped-cons b (texts held) names h in
    elim (Bool-cases (a == b)) [
      | inl e ↦
          subst (λ l. contains (strip a) l ≡ true) q
            (ground (arith, (eq_iff (strip a) (strip b)).1 (ap strip ((eq_iff a b).0 e))))
      | inr e ↦
          subst (λ l. contains (strip a) l ≡ true) q
            (ground (arith, stripped-texts held rest a p (ground (arith, k, e))))
    ]

capabilities-stripped :
    (l : List Value) (names : List String)
    → capabilities (items l) ≡ ok names
    → (found : List String) × (stripped l ≡ ok found) × (sorted_set found ≡ names)
unfolding capabilities
capabilities-stripped [] names h = absurd (ground (arith, h))
capabilities-stripped (v ∷ l) names h = elim (Result-cases (stripped (v ∷ l))) [
  | inl (found, p) ↦ (found, p, ground (arith, p, h))
  | inr (e, p) ↦ absurd (ground (arith, p, h))
]

sorted-contains :
    (a : String) (found names : List String)
    → sorted_set found ≡ names
    → contains a names ≡ contains a found
sorted-contains a found names h = ap (contains a) (sym h) ∙ contains-sorted_set a found

asked-stripped :
    (wanted : Collection) (names : List String) (a : String)
    → capabilities wanted ≡ ok names
    → contains a names ≡ true
    → strip a ≡ a
unfolding capabilities
asked-stripped (items l) names a h k =
    let (found, p, q) = capabilities-stripped l names h in
    stripped-stripped l found a p (sym (sorted-contains a found names q) ∙ k)
asked-stripped single_text names a h k = absurd (ground (arith, h))
asked-stripped not_iterable names a h k = absurd (ground (arith, h))

-- A capability that was asked for, and is among those held, is among those held made again.
pub asked-held :
    (wanted : Collection) (names held again : List String) (a : String)
    → capabilities wanted ≡ ok names
    → capabilities (items (texts held)) ≡ ok again
    → contains a names ≡ true
    → contains a held ≡ true
    → contains a again ≡ true
asked-held wanted names held again a h k m n =
    let (found, p, q) = capabilities-stripped (texts held) again k in
    subst (λ s. contains s again ≡ true) (asked-stripped wanted names a h m)
      (sorted-contains (strip a) found again q ∙ stripped-texts held found a p n)
