-- ===== src/Secrets/Tests.antt =====
-- Runs of the credential source over the in-memory store, and the theorems at them.
use keirin_ai_web.Prelude.{◌≡◌, refl, List, [], ◌∷◌, none, some, ◌⊎◌, ◌<◌, ◌≤◌}
use keirin_ai_web.Prelude.Dict.{lookup}
use keirin_ai_web.Credentials.{
  int, pos, text, items, CredentialBinding, binding_eq, AccessCredentialGrant,
}
use keirin_ai_web.Secrets.Record.{RefreshSecretRecord, revoked}
use keirin_ai_web.Secrets.Record.{
  credential_source_revoked, post_init, safe_attempt_id, is_attempt_id,
}
use keirin_ai_web.Prelude.Text.{is_blank, strip}
use keirin_ai_web.Credentials.{seconds, capabilities, is_text, is_filled_text, validate_times}
use keirin_ai_web.Secrets.Memory.{read, compare_and_swap}
use keirin_ai_web.Secrets.Source.Exchange.{validate_exchange_result}
use keirin_ai_web.Secrets.Source.Methods.{
  read_record, try_cas, classify, checked_read, claim, block, commit_success, fixed_attempt,
}
use keirin_ai_web.Secrets.Source.Operator.{revoke}
use keirin_ai_web.Secrets.Order.{LaterStored-refl}
use keirin_ai_web.Secrets.Memory.{Records, seeded}
use keirin_ai_web.Secrets.Memory.Contract.{memory_store}
use keirin_ai_web.Secrets.Source.Exchange.{returned}
use keirin_ai_web.Secrets.Source.Refresh.{Exchange, refresh_access}
use keirin_ai_web.Secrets.Evolution.Calls.{EachGenerationOnce}
use keirin_ai_web.Secrets.Evolution.Refresh.{Polite}
use keirin_ai_web.Secrets.History.{
  Request, refresh, withdraw, fresh_world, serve_all, generations_once, revoked_stays,
  versions_grow,
}

abbrev host : CredentialBinding
host = record { provider_id = "github"; account_id = "owner"; capabilities = "read" ∷ [] }

abbrev grant : AccessCredentialGrant
grant = record {
  provider_id = text "github";
  account_id = text "owner";
  capabilities = items (text "read" ∷ []);
  access_token = text "token";
  issued_at = int (pos 100);
  expires_at = int (pos 4000);
}

-- A provider that rotates every secret to the same new one.
abbrev provider : Exchange memory_store
provider b secret attempt_id ttl s =
    (returned (some (record { grant = some grant; rotated_refresh_secret = text "second" })), s)

provider-Polite : Polite memory_store provider host
provider-Polite secret attempt_id ttl s = LaterStored-refl (lookup host s)

abbrev records : Records
records = (host, seeded host "first") ∷ []

abbrev requests : List Request
requests =
    refresh host (int (pos 300)) (text "a1")
    ∷ refresh host (int (pos 300)) (text "a2")
    ∷ withdraw
    ∷ []

generations_once_example :
    EachGenerationOnce (serve_all memory_store provider host (fresh_world records) requests).calls
generations_once_example =
    generations_once memory_store provider host provider-Polite records requests

abbrev withdrawn : RefreshSecretRecord
withdrawn = record (seeded host "first") { version = 4; state = revoked; refresh_secret = none }

revoked_stays_example :
    lookup host
      (serve_all memory_store provider host (fresh_world ((host, withdrawn) ∷ [])) requests).store
    ≡ some withdrawn
revoked_stays_example =
    revoked_stays memory_store provider host provider-Polite ((host, withdrawn) ∷ []) requests
      withdrawn refl refl

abbrev last_record : RefreshSecretRecord
last_record = record {
  binding = host;
  version = 5;
  state = revoked;
  refresh_secret = none;
  refresh_generation = 2;
  active_attempt_id = none;
  last_attempt_id = some "a2";
  failure = some credential_source_revoked;
}

serve_all-requests :
    lookup host (serve_all memory_store provider host (fresh_world records) requests).store
    ≡ some last_record
unfolding serve_all refresh_access revoke read_record try_cas classify checked_read post_init claim
    block commit_success fixed_attempt validate_exchange_result safe_attempt_id is_attempt_id read
    compare_and_swap seconds capabilities is_text is_filled_text is_blank validate_times strip
serve_all-requests = refl

versions_grow_example :
    (last_record ≡ seeded host "first")
    ⊎ ((0 < last_record.version) × (0 ≤ last_record.refresh_generation))
versions_grow_example =
    versions_grow memory_store provider host provider-Polite records requests (seeded host "first")
      last_record refl serve_all-requests
