-- ===== src/Secrets/Durable/Codec.antt =====
-- `_encode_record` and `_decode_record` of agent_core/durable_secret_store.py. A dictionary lists the
-- fields in the source's order.
use keirin_ai_web.Prelude.{String, not, Option, none, some, List, [], ◌∷◌, ◌==◌, string_eq}
use keirin_ai_web.Outcome.{Result, ok, err, value_error}
use keirin_ai_web.Outcome.Pure.{◌>>=◌, ◌>>◌, raise_if}
use keirin_ai_web.Credentials.{
  Value, seconds, pos, items, CredentialBinding, binding_eq, credential_binding,
}
use keirin_ai_web.Secrets.Record.{
  RefreshSecretRecord, SecretState, ready, refreshing, blocked_auth, blocked_ambiguous, revoked,
  FailureCode, refresh_rejected, refresh_outcome_ambiguous, refresh_response_invalid_or_incomplete,
  secret_store_commit_ambiguous, credential_source_revoked, refresh_secret_record,
}
use keirin_ai_web.Json.{
  Json, Items, Fields, null, int, text, arr, obj, nil, cons, end, field, get, value_of, text_items,
  optional_text,
}

-- `SECRET_RECORD_SCHEMA_VERSION`
abbrev pub schema_version : String
schema_version = "credential-refresh-secret-record-v1"

unfoldable pub state_text : SecretState → String
state_text ready = "ready"
state_text refreshing = "refreshing"
state_text blocked_auth = "blocked_auth"
state_text blocked_ambiguous = "blocked_ambiguous"
state_text revoked = "revoked"

unfoldable pub failure_text : FailureCode → String
failure_text refresh_rejected = "refresh_rejected"
failure_text refresh_outcome_ambiguous = "refresh_outcome_ambiguous"
failure_text refresh_response_invalid_or_incomplete = "refresh_response_invalid_or_incomplete"
failure_text secret_store_commit_ambiguous = "secret_store_commit_ambiguous"
failure_text credential_source_revoked = "credential_source_revoked"

abbrev pub optional_failure : Option FailureCode → Json
optional_failure none = null
optional_failure (some c) = text (failure_text c)

-- `_encode_record`
unfoldable pub encode_record : RefreshSecretRecord → Json
unfolding state_text failure_text
encode_record r = obj (
    field "schema_version" (text schema_version) (
      field "provider_id" (text r.binding.provider_id) (
        field "account_id" (text r.binding.account_id) (
          field "capabilities" (arr (text_items r.binding.capabilities)) (
            field "version" (int (pos r.version)) (
              field "state" (text (state_text r.state)) (
                field "refresh_secret" (optional_text r.refresh_secret) (
                  field "refresh_generation" (int (pos r.refresh_generation)) (
                    field "active_attempt_id" (optional_text r.active_attempt_id) (
                      field "last_attempt_id" (optional_text r.last_attempt_id)
                        (field "failure" (optional_failure r.failure) end)))))))))))

-- `isinstance(value, str)`, or the error.
unfoldable pub required_text : Json → String → Result String
required_text (text s) e = ok s
required_text _ e = err (value_error e)

-- `value is not None and not isinstance(value, str)`
unfoldable pub check_optional_text : Json → String → Result (Unit {0})
check_optional_text null e = ok tt
check_optional_text (text s) e = ok tt
check_optional_text _ e = err (value_error e)

-- A list of texts.
unfoldable pub text_list : Items → Result (List Value)
text_list nil = ok []
text_list (cons (text s) l) = do rest ← text_list l; ok (Value.text s ∷ rest)
text_list (cons _ l) = err (value_error "secret_store_record_capabilities_invalid")

unfoldable pub required_texts : Json → Result (List Value)
unfolding text_list
required_texts (arr l) = text_list l
required_texts _ = err (value_error "secret_store_record_capabilities_invalid")

-- The tests of `_decode_record` on a mapping, with the binding that it makes.
unfoldable pub check_fields : Fields → CredentialBinding → Result CredentialBinding
unfolding required_text check_optional_text required_texts
check_fields raw expected_binding = do
  schema ← required_text (get "schema_version" raw) "secret_store_record_schema_mismatch"
  raise_if (not (schema == schema_version)) (value_error "secret_store_record_schema_mismatch")
  provider_id ← required_text (get "provider_id" raw) "secret_store_record_identity_invalid"
  account_id ← required_text (get "account_id" raw) "secret_store_record_identity_invalid"
  capabilities ← required_texts (get "capabilities" raw)
  binding ← credential_binding (Value.text provider_id) (Value.text account_id) (items capabilities)
  raise_if (not (binding == expected_binding)) (value_error "secret_store_record_binding_mismatch")
  seconds (value_of (get "version" raw)) "secret_store_record_version_invalid"
  seconds (value_of (get "refresh_generation" raw)) "secret_store_record_generation_invalid"
  required_text (get "state" raw) "secret_store_record_state_invalid"
  check_optional_text (get "refresh_secret" raw) "secret_store_record_secret_invalid"
  check_optional_text (get "active_attempt_id" raw) "secret_store_record_active_attempt_invalid"
  check_optional_text (get "last_attempt_id" raw) "secret_store_record_last_attempt_invalid"
  check_optional_text (get "failure" raw) "secret_store_record_failure_invalid"
  ok binding

-- `_decode_record`, of a mapping.
unfoldable pub decode_fields : Fields → CredentialBinding → Result RefreshSecretRecord
unfolding check_fields
decode_fields raw expected_binding = do
  binding ← check_fields raw expected_binding
  refresh_secret_record binding (value_of (get "version" raw)) (value_of (get "state" raw))
      (value_of (get "refresh_secret" raw)) (value_of (get "refresh_generation" raw))
      (value_of (get "active_attempt_id" raw)) (value_of (get "last_attempt_id" raw))
      (value_of (get "failure" raw))

unfoldable pub decode_record : Json → CredentialBinding → Result RefreshSecretRecord
unfolding decode_fields
decode_record (obj raw) expected_binding = decode_fields raw expected_binding
decode_record _ expected_binding = err (value_error "secret_store_record_object_required")
