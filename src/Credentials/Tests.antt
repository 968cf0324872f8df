-- ===== src/Credentials/Tests.antt =====
-- A credential that a host holds for an hour, and a snapshot of it.
use keirin_ai_web.Prelude.{false, [], ◌∷◌, some, none, string_eq}
use keirin_ai_web.Credentials.Values.{text}
use keirin_ai_web.Credentials.Capabilities.{Collection, items, capabilities}
use keirin_ai_web.Credentials.Snapshot.{CredentialSnapshot, StaticProvider}

abbrev held : StaticProvider
held = record {
  provider_id = "github";
  account_label = none;
  capabilities = "read" ∷ "write" ∷ [];
  secrets = ("token", "abc") ∷ [];
  issued_at = some 100;
  expires_at = some 3700;
  revoked = false;
}

abbrev shown : CredentialSnapshot
shown = record {
  provider_id = "github";
  account_label = none;
  capabilities = "read" ∷ "write" ∷ [];
  issued_at = some 100;
  expires_at = some 3700;
  refresh_capable = false;
  secrets = ("token", "abc") ∷ [];
  created_at = 200;
}

abbrev wanted : Collection
wanted = items (text "read" ∷ [])
