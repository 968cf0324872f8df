-- ===== src/Secrets/Durable/Adapter.antt =====
-- `DurableVersionedSecretStore` of agent_core/durable_secret_store.py. The key of a binding, a hash of
-- its canonical JSON, is a parameter. A model record stands for a `RefreshSecretRecord` where its
-- constructors admit it, which the test on the type of a replacement asks.
use keirin_ai_web.Prelude.{
  ℕ, ◌+◌, String, ◌≡◌, refl, Bool, true, false, not, ◌&&◌, ◌||◌, Option, none, some, ◌==◌, nat_eq,
  string_eq, option_eq, option_beq_iff, nat_beq_iff, arith, if◌then◌else◌,
}
use keirin_ai_web.Outcome.{
  Result, ok, err, value_error, type_error, auth_blocked, store_error, store_conflict,
  store_ambiguous, keyboard_interrupt, system_exit,
}
use keirin_ai_web.Outcome.Pure.{◌>>=◌, ◌>>◌, raise_if}
use keirin_ai_web.Credentials.{
  Value, seconds, items, CredentialBinding, binding_eq, binding_beq_iff, credential_binding,
}
use keirin_ai_web.Credentials.Snapshot.{texts}
use keirin_ai_web.Secrets.Record.{RefreshSecretRecord, state_eq, code_eq, same_state_iff, post_init}
use keirin_ai_web.Json.{Json}
use keirin_ai_web.Secrets.Durable.Codec.{encode_record, decode_record}
use keirin_ai_web.Secrets.Durable.Backend.{
  BackendReply, returned, conflict, ambiguous, unavailable, interrupted, exited, other_exception,
  DurableSecretBackend,
}

-- The equality that the frozen dataclass derives.
abbrev pub same_record : RefreshSecretRecord → RefreshSecretRecord → Bool
same_record a b =
    a.binding == b.binding
    && a.version == b.version
    && a.state == b.state
    && a.refresh_secret == b.refresh_secret
    && a.refresh_generation == b.refresh_generation
    && a.active_attempt_id == b.active_attempt_id
    && a.last_attempt_id == b.last_attempt_id
    && a.failure == b.failure

and-true : (p q : Bool) → p && q ≡ true → (p ≡ true) × (q ≡ true)
and-true true q h = (refl, h)
and-true false q h = ground arith

same_record-fields :
    (a b : RefreshSecretRecord)
    → same_record a b ≡ true
    → (a.binding ≡ b.binding)
      × (a.version ≡ b.version)
      × (a.state ≡ b.state)
      × (a.refresh_secret ≡ b.refresh_secret)
      × (a.refresh_generation ≡ b.refresh_generation)
      × (a.active_attempt_id ≡ b.active_attempt_id)
      × (a.last_attempt_id ≡ b.last_attempt_id)
      × (a.failure ≡ b.failure)
same_record-fields a b h =
    let (r1, h8) = and-true _ (a.failure == b.failure) h in
    let (r2, h7) = and-true _ (a.last_attempt_id == b.last_attempt_id) r1 in
    let (r3, h6) = and-true _ (a.active_attempt_id == b.active_attempt_id) r2 in
    let (r4, h5) = and-true _ (a.refresh_generation == b.refresh_generation) r3 in
    let (r5, h4) = and-true _ (a.refresh_secret == b.refresh_secret) r4 in
    let (r6, h3) = and-true _ (a.state == b.state) r5 in
    let (h1, h2) = and-true _ (a.version == b.version) r6 in
    (
      (binding_beq_iff a.binding b.binding).0 h1,
      (nat_beq_iff a.version b.version).0 h2,
      (same_state_iff a.state b.state).0 h3,
      (option_beq_iff a.refresh_secret b.refresh_secret).0 h4,
      (nat_beq_iff a.refresh_generation b.refresh_generation).0 h5,
      (option_beq_iff a.active_attempt_id b.active_attempt_id).0 h6,
      (option_beq_iff a.last_attempt_id b.last_attempt_id).0 h7,
      (option_beq_iff a.failure b.failure).0 h8,
    )

pub same_record-eq : (a b : RefreshSecretRecord) → same_record a b ≡ true → a ≡ b
same_record-eq a b h = let (x1, x2, x3, x4, x5, x6, x7, x8) = same_record-fields a b h in cc

-- The constructor of bindings admits the fields of the binding as they are.
unfoldable pub is_binding : CredentialBinding → Bool
is_binding b =
    elim (credential_binding (Value.text b.provider_id) (Value.text b.account_id)
      (items (texts b.capabilities))) [ ok made ↦ made == b | err e ↦ false ]

-- `type(value) is RefreshSecretRecord`
unfoldable pub is_record : RefreshSecretRecord → Bool
unfolding is_binding
is_record r = elim (post_init r) [ ok made ↦ is_binding r.binding | err e ↦ false ]

-- `except (TypeError, ValueError)` around a decoding.
unfoldable pub decoded_or : String → Result RefreshSecretRecord → Result RefreshSecretRecord
decoded_or e (ok r) = ok r
decoded_or e (err (value_error m)) = err (store_error e)
decoded_or e (err (type_error m)) = err (store_error e)
decoded_or e (err raised) = err raised

-- What `read` makes of the backend's reply.
unfoldable pub read_reply :
    BackendReply (Option Json) → CredentialBinding → Result RefreshSecretRecord
unfolding decoded_or
read_reply (returned none) b = err (auth_blocked "credential_secret_unconfigured")
read_reply (returned (some raw)) b = decoded_or "secret_store_record_invalid" (decode_record raw b)
read_reply interrupted b = err (keyboard_interrupt "secret_store_backend_interrupted")
read_reply exited b = err (system_exit "secret_store_backend_interrupted")
read_reply unavailable b = err (store_error "secret_store_backend_unavailable")
read_reply conflict b = err (store_error "secret_store_backend_unavailable")
read_reply ambiguous b = err (store_error "secret_store_backend_unavailable")
read_reply other_exception b = err (store_error "secret_store_backend_unavailable")

-- The tests of `compare_and_swap` before it calls the backend.
unfoldable pub checked_expected : CredentialBinding → Value → RefreshSecretRecord → Result ℕ
unfolding is_record
checked_expected b expected_version replacement = do
  expected ← seconds expected_version "secret_store_expected_version_invalid"
  raise_if (not (is_record replacement) || not (replacement.binding == b))
      (value_error "secret_store_replacement_binding_mismatch")
  raise_if (not (replacement.version == expected + 1))
      (value_error "secret_store_replacement_version_invalid")
  ok expected

-- `stored != replacement`
unfoldable pub readback :
    RefreshSecretRecord → Result RefreshSecretRecord → Result RefreshSecretRecord
readback replacement (err e) = err e
readback replacement (ok stored) =
    if same_record stored replacement
    then ok stored
    else err (store_error "secret_store_cas_readback_mismatch")

-- What `compare_and_swap` makes of the backend's reply.
unfoldable pub swap_reply :
    BackendReply (Option Json)
    → CredentialBinding
    → RefreshSecretRecord
    → Result RefreshSecretRecord
unfolding decoded_or readback
swap_reply (returned none) b replacement = err (store_error "secret_store_cas_readback_missing")
swap_reply (returned (some raw)) b replacement =
    readback replacement (decoded_or "secret_store_cas_readback_invalid" (decode_record raw b))
swap_reply conflict b replacement = err (store_conflict "secret_store_version_conflict")
swap_reply ambiguous b replacement = err (store_ambiguous "secret_store_write_ambiguous")
swap_reply interrupted b replacement = err (keyboard_interrupt "secret_store_backend_interrupted")
swap_reply exited b replacement = err (system_exit "secret_store_backend_interrupted")
swap_reply unavailable b replacement = err (store_error "secret_store_backend_unavailable")
swap_reply other_exception b replacement = err (store_error "secret_store_backend_unavailable")

module _ (backend : DurableSecretBackend) (key_of : CredentialBinding → String) where
  -- `read`
  unfoldable pub durable_read :
      CredentialBinding → backend.State → Result RefreshSecretRecord × backend.State
  unfolding read_reply
  durable_read b s = let (reply, s') = backend.fetch (key_of b) s in (read_reply reply b, s')

  -- `compare_and_swap` behind its tests.
  unfoldable pub swap_at :
      Result ℕ
      → CredentialBinding
      → RefreshSecretRecord
      → backend.State
      → Result RefreshSecretRecord × backend.State
  unfolding swap_reply
  swap_at (err e) b replacement s = (err e, s)
  swap_at (ok expected) b replacement s =
      let (reply, s') = backend.swap (key_of b) expected (encode_record replacement) s in
      (swap_reply reply b replacement, s')

  -- `compare_and_swap`
  unfoldable pub durable_compare_and_swap :
      CredentialBinding
      → Value
      → RefreshSecretRecord
      → backend.State
      → Result RefreshSecretRecord × backend.State
  unfolding checked_expected swap_at
  durable_compare_and_swap b expected_version replacement s =
      swap_at (checked_expected b expected_version replacement) b replacement s
