-- ===== src/Secrets/Durable/RoundTrip.antt =====
-- A record that is encoded and decoded again.
use keirin_ai_web.Prelude.{◌≡◌, refl, String, Option, none, some, List, [], ◌∷◌, string_eq, arith}
use keirin_ai_web.Outcome.{ok}
use keirin_ai_web.Outcome.Pure.{◌>>◌}
use keirin_ai_web.Credentials.{Value, seconds, pos, binding_eq, binding_beq_iff}
use keirin_ai_web.Credentials.Snapshot.{texts, IsCanonical}
use keirin_ai_web.Secrets.Record.{
  RefreshSecretRecord, SecretState, ready, refreshing, blocked_auth, blocked_ambiguous, revoked,
  FailureCode, check_secret, check_active, check_last, post_init, parse_state, parse_failure,
  secret_field, active_field, last_field, safe_attempt_id, refresh_secret_record,
}
use keirin_ai_web.Json.{value_of, text_items, optional_text, get}
use keirin_ai_web.Secrets.Durable.Codec.{
  state_text, failure_text, optional_failure, encode_record, required_text, check_optional_text,
  text_list, required_texts, check_fields, decode_fields, decode_record,
}

parse_state-text : (s : SecretState) → parse_state (Value.text (state_text s)) ≡ ok s
unfolding parse_state state_text
parse_state-text ready = refl
parse_state-text refreshing = refl
parse_state-text blocked_auth = refl
parse_state-text blocked_ambiguous = refl
parse_state-text revoked = refl

parse_failure-text : (o : Option FailureCode) → parse_failure (value_of (optional_failure o)) ≡ ok o
unfolding parse_failure failure_text
parse_failure-text none = refl
parse_failure-text (some FailureCode.refresh_rejected) = refl
parse_failure-text (some FailureCode.refresh_outcome_ambiguous) = refl
parse_failure-text (some FailureCode.refresh_response_invalid_or_incomplete) = refl
parse_failure-text (some FailureCode.secret_store_commit_ambiguous) = refl
parse_failure-text (some FailureCode.credential_source_revoked) = refl

secret_field-text :
    (s : SecretState) (o : Option String)
    → secret_field s (value_of (optional_text o)) ≡ (check_secret s o >> ok o)
unfolding secret_field check_secret
secret_field-text s o = ground arith

active_field-text :
    (s : SecretState) (o : Option String)
    → active_field s (value_of (optional_text o)) ≡ (check_active s o >> ok o)
unfolding active_field check_active safe_attempt_id
active_field-text s o = ground arith

last_field-text :
    (o : Option String) → last_field (value_of (optional_text o)) ≡ (check_last o >> ok o)
unfolding last_field check_last safe_attempt_id
last_field-text o = ground arith

-- On values of the fields' types, the constructor makes the tests of `replace`.
refresh_secret_record-post_init :
    (r : RefreshSecretRecord)
    → refresh_secret_record r.binding
        (Value.int (pos r.version))
        (Value.text (state_text r.state))
        (value_of (optional_text r.refresh_secret))
        (Value.int (pos r.refresh_generation))
        (value_of (optional_text r.active_attempt_id))
        (value_of (optional_text r.last_attempt_id))
        (value_of (optional_failure r.failure))
      ≡ post_init r
unfolding refresh_secret_record post_init seconds
refresh_secret_record-post_init r = ground (
  arith,
  parse_state-text r.state,
  parse_failure-text r.failure,
  secret_field-text r.state r.refresh_secret,
  active_field-text r.state r.active_attempt_id,
  last_field-text r.last_attempt_id,
)

text_list-items : (l : List String) → text_list (text_items l) ≡ ok (texts l)
unfolding text_list
text_list-items [] = refl
text_list-items (s ∷ l) = ground (arith, text_list-items l)

check_optional_text-text :
    (o : Option String) (e : String) → check_optional_text (optional_text o) e ≡ ok tt
unfolding check_optional_text
check_optional_text-text none e = refl
check_optional_text-text (some s) e = refl

check_optional_text-failure :
    (o : Option FailureCode) (e : String) → check_optional_text (optional_failure o) e ≡ ok tt
unfolding check_optional_text
check_optional_text-failure none e = refl
check_optional_text-failure (some s) e = refl

-- Where the constructor of bindings gives the record's binding back, decoding the record's encoded form makes
-- the tests of the record's constructor on it.
pub decode-encode :
    (r : RefreshSecretRecord)
    → IsCanonical r.binding
    → decode_record (encode_record r) r.binding ≡ post_init r
unfolding decode_record decode_fields check_fields encode_record get required_text required_texts
    seconds
decode-encode r h = ground (
  arith,
  h,
  text_list-items r.binding.capabilities,
  binding_beq_iff r.binding r.binding,
  check_optional_text-text r.refresh_secret "secret_store_record_secret_invalid",
  check_optional_text-text r.active_attempt_id "secret_store_record_active_attempt_invalid",
  check_optional_text-text r.last_attempt_id "secret_store_record_last_attempt_invalid",
  check_optional_text-failure r.failure "secret_store_record_failure_invalid",
  refresh_secret_record-post_init r,
)
