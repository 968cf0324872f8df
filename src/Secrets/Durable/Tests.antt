-- ===== src/Secrets/Durable/Tests.antt =====
-- A backend with one cell, which holds any payload, and the theorems at it.
use keirin_ai_web.Prelude.{
  ℕ, String, ◌≡◌, ap, refl, Bool, true, false, Option, none, some, [], ◌∷◌, ◌==◌, nat_eq, string_eq,
  arith, nat_beq_iff,
}
use keirin_ai_web.Prelude.Text.{is_space, is_blank, strip, strip_left, strip_right}
use keirin_ai_web.Credentials.{
  Value, pos, capabilities, stripped, sorted_set, insert_sorted, text_lt, identity,
  CredentialBinding, binding_eq, credential_binding,
}
use keirin_ai_web.Credentials.Snapshot.{IsCanonical}
use keirin_ai_web.Secrets.Record.{RefreshSecretRecord, SecretState, post_init}
use keirin_ai_web.Json.{Json, int, obj, end, field}
use keirin_ai_web.Secrets.Durable.Codec.{encode_record, decode_record}
use keirin_ai_web.Secrets.Durable.RoundTrip.{decode-encode}
use keirin_ai_web.Secrets.Durable.Backend.{
  BackendReply, version_of, returned, conflict, SwapStep, committed, left, DurableSecretBackend,
}
use keirin_ai_web.Secrets.Durable.Adapter.{durable_compare_and_swap}
use keirin_ai_web.Secrets.Durable.Contract.{PayloadStep, durable_compare_and_swap-PayloadStep}

abbrev host : CredentialBinding
host = record { provider_id = "github"; account_id = "owner"; capabilities = "read" ∷ [] }

abbrev first : RefreshSecretRecord
first = record {
  binding = host;
  version = 1;
  state = SecretState.ready;
  refresh_secret = some "s1";
  refresh_generation = 1;
  active_attempt_id = none;
  last_attempt_id = none;
  failure = none;
}

abbrev second : RefreshSecretRecord
second = record first { version = 2; state = SecretState.refreshing; active_attempt_id = some "a1" }

host-IsCanonical : IsCanonical host
unfolding credential_binding capabilities stripped sorted_set insert_sorted identity text_lt strip
    strip_left strip_right is_blank is_space
host-IsCanonical = refl

decode-encode_example : decode_record (encode_record second) host ≡ post_init second
decode-encode_example = decode-encode second host-IsCanonical

abbrev key_of : CredentialBinding → String
key_of b = b.account_id

-- One payload, of whatever form, under every key.
abbrev swap_cell : Bool → Json → Json → BackendReply (Option Json) × Json
swap_cell true raw current = (returned (some raw), raw)
swap_cell false raw current = (conflict, current)

abbrev shows : Json → ℕ → Bool
shows (int (pos n)) expected = n == expected
shows v expected = false

shows-int : (v : Json) (expected : ℕ) → shows v expected ≡ true → v ≡ int (pos expected)
shows-int (int (pos n)) expected h = ap (λ k. int (pos k)) ((nat_beq_iff n expected).0 h)
shows-int v expected h = absurd (ground (arith, h))

swap_cell-SwapStep :
    (same : Bool) (expected : ℕ) (raw current : Json)
    → (same ≡ true → version_of current ≡ int (pos expected))
    → SwapStep expected raw
        (swap_cell same raw current).0
        (some current)
        (some (swap_cell same raw current).1)
swap_cell-SwapStep true expected raw current h = committed current refl (h refl) refl (λ e. cc)
swap_cell-SwapStep false expected raw current h = left refl (λ o k. cc)

fetched :
    (c : Json) (o : Option Json)
    → ◌≡◌ {A = BackendReply (Option Json)} (returned (some c)) (returned o)
    → some c ≡ o
fetched c o h = cc

abbrev cell_backend : DurableSecretBackend
cell_backend = record {
  State = Json;
  fetch = λ key c. (returned (some c), c);
  swap = λ key expected raw c. swap_cell (shows (version_of c) expected) raw c;
  stored = λ key c. some c;
  stored-fetch = λ key c. refl;
  fetch-stored = λ key c o h. fetched c o h;
  swap_step = λ key expected raw c.
      swap_cell-SwapStep (shows (version_of c) expected) expected raw c
        (shows-int (version_of c) expected);
}

-- A payload that shows the version and is no record.
abbrev corrupt : Json
corrupt = obj (field "version" (int (pos 1)) end)

durable_compare_and_swap-PayloadStep_example :
    PayloadStep host 1 second
      (durable_compare_and_swap cell_backend key_of host (Value.int (pos 1)) second corrupt).0
      (some corrupt)
      (some
        (durable_compare_and_swap cell_backend key_of host (Value.int (pos 1)) second corrupt).1)
durable_compare_and_swap-PayloadStep_example =
    durable_compare_and_swap-PayloadStep cell_backend key_of host 1 second corrupt
