-- ===== src/Secrets/Durable/Contract.antt =====
-- What a compare-and-swap of the adapter of agent_core/durable_secret_store.py does to the payload that the
-- backend holds, which may be any JSON value.
use keirin_ai_web.Prelude.{
  ℕ, String, ◌≡◌, ◌≢◌, ◌⊎◌, refl, ap, sym, ◌∙◌, inl, inr, true, Option, none, some, nat_eq, arith,
  Bool-cases,
}
use keirin_ai_web.Outcome.{Result, ok, err}
use keirin_ai_web.Outcome.Pure.{Result-cases}
use keirin_ai_web.Credentials.{
  Value, seconds, pos, items, CredentialBinding, binding_eq, binding_beq_iff, credential_binding,
}
use keirin_ai_web.Credentials.Snapshot.{texts, IsCanonical}
use keirin_ai_web.Secrets.Record.{RefreshSecretRecord, post_init}
use keirin_ai_web.Secrets.Store.{IsReturned}
use keirin_ai_web.Json.{Json, int}
use keirin_ai_web.Secrets.Durable.Codec.{encode_record, decode_record}
use keirin_ai_web.Secrets.Durable.RoundTrip.{decode-encode}
use keirin_ai_web.Secrets.Durable.Backend.{
  BackendReply, returned, conflict, ambiguous, unavailable, interrupted, exited, other_exception,
  version_of, SwapStep, committed, left, DurableSecretBackend,
}
use keirin_ai_web.Secrets.Durable.Adapter.{
  same_record, same_record-eq, is_binding, is_record, checked_expected, readback, swap_reply,
  swap_at, durable_compare_and_swap,
}

abbrev option_of : Result RefreshSecretRecord → Option RefreshSecretRecord
option_of (ok r) = some r
option_of (err e) = none

-- The record that a stored payload stands for.
abbrev pub decoded : Option Json → CredentialBinding → Option RefreshSecretRecord
decoded none b = none
decoded (some raw) b = option_of (decode_record raw b)

-- A swap that returns hands back the replacement.
readback-replacement :
    (replacement : RefreshSecretRecord) (m : Result RefreshSecretRecord)
    → (readback replacement m ≡ ok replacement) ⊎ (¬ IsReturned (readback replacement m))
unfolding readback
readback-replacement replacement (err e) = inr (λ u. u)
readback-replacement replacement (ok stored) = elim (Bool-cases (same_record stored replacement)) [
  | inl p ↦ inl (rw p (ap ok (same_record-eq stored replacement p)))
  | inr p ↦ inr (rw p (λ u. u))
]

swap_reply-replacement :
    (reply : BackendReply (Option Json)) (b : CredentialBinding) (r : RefreshSecretRecord)
    → (swap_reply reply b r ≡ ok r) ⊎ (¬ IsReturned (swap_reply reply b r))
unfolding swap_reply
swap_reply-replacement (returned none) b r = inr (λ u. u)
swap_reply-replacement (returned (some raw)) b r = readback-replacement r _
swap_reply-replacement conflict b r = inr (λ u. u)
swap_reply-replacement ambiguous b r = inr (λ u. u)
swap_reply-replacement unavailable b r = inr (λ u. u)
swap_reply-replacement interrupted b r = inr (λ u. u)
swap_reply-replacement exited b r = inr (λ u. u)
swap_reply-replacement other_exception b r = inr (λ u. u)

swap_reply-raises :
    (reply : BackendReply (Option Json)) (b : CredentialBinding) (r : RefreshSecretRecord)
    → ((o : Option Json) → reply ≢ returned o)
    → ¬ IsReturned (swap_reply reply b r)
unfolding swap_reply
swap_reply-raises (returned o) b r h = absurd (h o refl)
swap_reply-raises conflict b r h = λ u. u
swap_reply-raises ambiguous b r h = λ u. u
swap_reply-raises unavailable b r h = λ u. u
swap_reply-raises interrupted b r h = λ u. u
swap_reply-raises exited b r h = λ u. u
swap_reply-raises other_exception b r h = λ u. u

post_init-same : (r made : RefreshSecretRecord) → post_init r ≡ ok made → made ≡ r
unfolding post_init
post_init-same r made h = ground arith

is_binding-IsCanonical : (b : CredentialBinding) → is_binding b ≡ true → IsCanonical b
unfolding is_binding
is_binding-IsCanonical b h =
    elim (Result-cases (
      credential_binding (Value.text b.provider_id) (Value.text b.account_id)
        (items (texts b.capabilities)))) [
          | inl (made, p) ↦ p ∙ ap ok ((binding_beq_iff made b).0 (ground (arith, p)))
          | inr (e, p) ↦ absurd (ground (arith, p))
        ]

is_record-valid :
    (r : RefreshSecretRecord) → is_record r ≡ true → (post_init r ≡ ok r) × IsCanonical r.binding
unfolding is_record
is_record-valid r h = elim (Result-cases (post_init r)) [
  | inl (made, p) ↦
      (p ∙ ap ok (post_init-same r made p), is_binding-IsCanonical r.binding (ground (arith, p)))
  | inr (e, p) ↦ absurd (ground (arith, p))
]

checked_expected-ok :
    (b : CredentialBinding) (expected n : ℕ) (r : RefreshSecretRecord)
    → checked_expected b (Value.int (pos expected)) r ≡ ok n
    → (n ≡ expected) × (is_record r ≡ true) × (r.binding ≡ b)
unfolding checked_expected seconds
checked_expected-ok b expected n r h =
    (ground arith, ground arith, ground (arith, binding_beq_iff r.binding b))

-- How a compare-and-swap of a record at version `expected` ends, and what becomes of the payload. In `applied`
-- the payload shows that version, and becomes one that decodes to the replacement; the call returns the
-- replacement, or raises, as it does where the outcome is unknown. In `rejected` the payload stays, and the call
-- raises.
pub data PayloadStep (b : CredentialBinding) (expected : ℕ) (replacement : RefreshSecretRecord)
    (result : Result RefreshSecretRecord) (before after : Option Json) : Type 0 where
  applied :
      (current : Json)
      → before ≡ some current
      → version_of current ≡ int (pos expected)
      → decoded after b ≡ some replacement
      → (result ≡ ok replacement) ⊎ (¬ IsReturned result)
      → PayloadStep b expected replacement result before after
  rejected :
      after ≡ before → ¬ IsReturned result → PayloadStep b expected replacement result before after

swapped-PayloadStep :
    (b : CredentialBinding) (expected : ℕ) (r : RefreshSecretRecord)
    (reply : BackendReply (Option Json)) (before after : Option Json)
    → is_record r ≡ true
    → r.binding ≡ b
    → SwapStep expected (encode_record r) reply before after
    → PayloadStep b expected r (swap_reply reply b r) before after
swapped-PayloadStep b expected r reply before after valid same (committed current e v a n) =
    let (made, canonical) = is_record-valid r valid in
    applied current e v
      (ap (λ o. decoded o b) a
        ∙ ap option_of
            (ap (decode_record (encode_record r)) (sym same) ∙ decode-encode r canonical ∙ made))
      (swap_reply-replacement reply b r)
swapped-PayloadStep b expected r reply before after valid same (left a n) =
    rejected a (swap_reply-raises reply b r n)

module _ (backend : DurableSecretBackend) (key_of : CredentialBinding → String) where
  swap_at-PayloadStep :
      (checked : Result ℕ) (b : CredentialBinding) (expected : ℕ) (r : RefreshSecretRecord)
      (s : backend.State)
      → ((n : ℕ) → checked ≡ ok n → (n ≡ expected) × (is_record r ≡ true) × (r.binding ≡ b))
      → PayloadStep b expected r
          (swap_at backend key_of checked b r s).0
          (backend.stored (key_of b) s)
          (backend.stored (key_of b) (swap_at backend key_of checked b r s).1)
  unfolding swap_at
  swap_at-PayloadStep (err e) b expected r s h = rejected refl (λ u. u)
  swap_at-PayloadStep (ok n) b expected r s h =
      let (same, valid, bound) = h n refl in
      rw (← same) (
        swapped-PayloadStep b n r _ _ _ valid bound
          (backend.swap_step (key_of b) n (encode_record r) s))

  -- Over a backend that swaps atomically, a compare-and-swap of the adapter takes a payload that shows the expected
  -- version to one that decodes to the replacement, and returns the replacement or raises; or it leaves the payload
  -- as it is, and raises. What was stored before may be corrupt.
  pub durable_compare_and_swap-PayloadStep :
      (b : CredentialBinding) (expected : ℕ) (r : RefreshSecretRecord) (s : backend.State)
      → PayloadStep b expected r
          (durable_compare_and_swap backend key_of b (Value.int (pos expected)) r s).0
          (backend.stored (key_of b) s)
          (backend.stored
            (key_of b)
            (durable_compare_and_swap backend key_of b (Value.int (pos expected)) r s).1)
  unfolding durable_compare_and_swap
  durable_compare_and_swap-PayloadStep b expected r s =
      swap_at-PayloadStep (checked_expected b (Value.int (pos expected)) r) b expected r s
        (λ n. checked_expected-ok b expected n r)
