-- ===== src/Credentials/RenewalTests.antt =====
-- A provider that refreshes from a small host, revoked by another thread or not.
use keirin_ai_web.Prelude.{ℕ, ◌+◌, ◌≡◌, refl, true, false, none, some, [], ◌∷◌, leb}
use keirin_ai_web.Outcome.{ok, err, credential_revoked}
use keirin_ai_web.Prelude.Text.{is_blank, is_space, strip, strip_left, strip_right}
use keirin_ai_web.Credentials.Values.{null, truth, int, text, pos}
use keirin_ai_web.Credentials.Capabilities.{items, text_lt, sorted_set, insert_sorted, capabilities}
use keirin_ai_web.Credentials.Binding.{
  CredentialBinding, AccessCredentialGrant, identity, credential_binding,
}
use keirin_ai_web.Credentials.Snapshot.{CredentialSnapshot, IsCanonical}
use keirin_ai_web.Credentials.Refreshing.{refreshing_provider}
use keirin_ai_web.Credentials.Renewing.{RefreshHost, Issuer, refreshing_snapshot}
use keirin_ai_web.Credentials.Ending.{Asked, refreshing_snapshot-Ends}

abbrev github : CredentialBinding
github = record {
  provider_id = "github";
  account_id = "owner";
  capabilities = "contents:read" ∷ [];
}

abbrev fresh : AccessCredentialGrant
fresh = record {
  provider_id = text "github";
  account_id = text "owner";
  capabilities = items (text "contents:read" ∷ []);
  access_token = text "t";
  issued_at = int (pos 900);
  expires_at = int (pos 2000);
}

-- The world counts the refreshes; another thread revokes from the given count on.
abbrev host : ℕ → RefreshHost ℕ ℕ
host from = record {
  clock = (λ w. (ok (int (pos 1000)), w));
  monotonic = (λ w. (0, w));
  elapsed = (λ a b. 0);
  assert_available = (λ w. (ok true, w));
  refresh_access = (λ b minimum w. (ok (some fresh), w + 1));
  is_revoked = (λ w. leb from w);
}

abbrev unused : Issuer ℕ
unused = record { provider = refreshing_provider github true; time_anchor = none }

abbrev shown : CredentialSnapshot
shown = record {
  provider_id = "github";
  account_label = some "owner";
  capabilities = "contents:read" ∷ [];
  issued_at = some 900;
  expires_at = some 2000;
  refresh_capable = true;
  secrets = ("access_token", "t") ∷ [];
  created_at = 1000;
}

refreshes :
    (refreshing_snapshot
      (host 5)
      unused
      (items (text "contents:read" ∷ []))
      (int (pos 300))
      (truth false)
      null
      0).0
    ≡ ok shown
unfolding refreshing_snapshot refreshing_provider text_lt is_blank strip
refreshes = refl

-- A revocation while the source refreshes wins.
revoked_meanwhile :
    (refreshing_snapshot
      (host 1)
      unused
      (items (text "contents:read" ∷ []))
      (int (pos 300))
      (truth false)
      null
      0).0
    ≡ err (credential_revoked "credential_source_revoked")
unfolding refreshing_snapshot refreshing_provider is_blank strip
revoked_meanwhile = refl

github-IsCanonical : IsCanonical github
unfolding credential_binding identity capabilities sorted_set insert_sorted text_lt is_blank
    is_space strip strip_left strip_right
github-IsCanonical = refl

refreshing_snapshot-Ends_example :
    Asked
      (host 5)
      unused
      0
      (ok (300, none))
      (ok shown)
      (refreshing_snapshot
        (host 5)
        unused
        (items (text "contents:read" ∷ []))
        (int (pos 300))
        (truth false)
        null
        0).1.0
unfolding refreshing_snapshot refreshing_provider text_lt is_blank strip
refreshing_snapshot-Ends_example =
    refreshing_snapshot-Ends (host 5) unused (items (text "contents:read" ∷ [])) (int (pos 300))
      (truth false) null 0 github-IsCanonical
