-- ===== src/Credentials/Accepting.antt =====
-- A grant that passes the tests of the refreshing provider of agent_core/refresh_credentials.py makes a snapshot.
use keirin_ai_web.Prelude.{
  ◌≡◌, refl, sym, ap, ◌∙◌, ℕ, ◌-◌, ◌+◌, ◌≤◌, ◌<◌, String, true, false, not, ◌||◌, some, [], ◌∷◌,
  ltb, leb, ◌==◌, string_eq, list_eq, eq_iff, arith,
}
use keirin_ai_web.Prelude.Text.{is_blank, strip}
use keirin_ai_web.Outcome.{ok, value_error}
use keirin_ai_web.Outcome.Pure.{raise_if, bind-ok, must, ok-injective}
use keirin_ai_web.Credentials.Values.{Value, int, text, pos, seconds}
use keirin_ai_web.Credentials.Capabilities.{items, capabilities}
use keirin_ai_web.Credentials.Binding.{
  CredentialBinding, AccessCredentialGrant, identity, credential_binding, is_filled_text, is_text,
  validate_times,
}
use keirin_ai_web.Credentials.Snapshot.{
  CredentialSnapshot, mapping, copy_pairs, copy_secrets, provider_name, label_of, time_of,
  credential_snapshot, texts, IsCanonical,
}
use keirin_ai_web.Credentials.Renewing.{bound_grant}
use keirin_ai_web.Credentials.Refreshing.{RefreshingProvider, validate_grant}

pub seconds-int : (v : Value) (e : String) (n : ℕ) → seconds v e ≡ ok n → v ≡ int (pos n)
unfolding seconds
seconds-int v e n h = ground (arith, h)

filled-text :
    (v : Value) → is_filled_text v ≡ true → (t : String) × (v ≡ text t) × (is_blank t ≡ false)
unfolding is_filled_text
filled-text (text t) h = (t, refl, ground (arith, h))
filled-text v h = absurd (ground (arith, h))

-- What the tests on a grant establish about it.
pub record GrantFits (grant : AccessCredentialGrant) (now minimum : ℕ) : Type 0 where
  pub token : String
  pub issued : ℕ
  pub expires : ℕ
  pub token_of : grant.access_token ≡ text token
  pub filled : is_blank token ≡ false
  pub issued_of : grant.issued_at ≡ int (pos issued)
  pub expires_of : grant.expires_at ≡ int (pos expires)
  pub ordered : validate_times grant.issued_at grant.expires_at ≡ ok tt
  pub started : issued ≤ now
  pub unexpired : now < expires
  pub lives : now + minimum ≤ expires

in_time :
    (now issued expires minimum : ℕ) (u : Unit {0})
    → raise_if
        (ltb now issued || leb expires now || ltb (expires - now) minimum)
        (value_error "invalid_access_lifetime")
      ≡ ok u
    → (issued ≤ now) × (now < expires) × (now + minimum ≤ expires)
in_time now issued expires minimum u h = (ground (arith, h), ground (arith, h), ground (arith, h))

pub validate_grant-GrantFits :
    (self : RefreshingProvider) (grant : AccessCredentialGrant) (now minimum : ℕ)
    → validate_grant self grant now minimum ≡ ok tt
    → GrantFits grant now minimum
unfolding validate_grant
validate_grant-GrantFits self grant now minimum h =
    let (u1, p1, h1) =
      bind-ok
        (raise_if
          (not (is_text grant.provider_id self.binding.provider_id)
            || not (is_text grant.account_id self.binding.account_id))
          (value_error "credential_identity_mismatch"))
        _ tt h in
    let (names, p2, h2) = bind-ok (capabilities grant.capabilities) _ tt h1 in
    let (u3, p3, h3) =
      bind-ok
        (raise_if (not (names == self.binding.capabilities))
          (value_error "credential_scope_changed"))
        _ tt h2 in
    let (u4, p4, h4) =
      bind-ok
        (raise_if (not (is_filled_text grant.access_token)) (value_error "invalid_access_token")) _
        tt h3 in
    let (issued, p5, h5) = bind-ok (seconds grant.issued_at "invalid_issue_time") _ tt h4 in
    let (expires, p6, h6) = bind-ok (seconds grant.expires_at "invalid_expiry") _ tt h5 in
    let (u7, p7, h7) = bind-ok (validate_times grant.issued_at grant.expires_at) _ tt h6 in
    let (token, q, blank) = filled-text grant.access_token (must _ _ u4 p4) in
    let (a, b, c) = in_time now issued expires minimum tt h7 in
    record {
      token = token;
      issued = issued;
      expires = expires;
      token_of = q;
      filled = blank;
      issued_of = seconds-int grant.issued_at _ issued p5;
      expires_of = seconds-int grant.expires_at _ expires p6;
      ordered = p7;
      started = a;
      unexpired = b;
      lives = c;
    }

identity-lem :
    (s made : String) → identity (text s) ≡ ok made → (is_blank s ≡ false) × (strip s ≡ s)
unfolding identity
identity-lem s made h = (ground (arith, h), sym ((eq_iff s (strip s)).0 (ground (arith, h))))

pub canonical-parts :
    (b : CredentialBinding)
    → IsCanonical b
    → (is_blank b.provider_id ≡ false)
      × (strip b.provider_id ≡ b.provider_id)
      × (is_blank b.account_id ≡ false)
      × (strip b.account_id ≡ b.account_id)
      × (capabilities (items (texts b.capabilities)) ≡ ok b.capabilities)
unfolding credential_binding
canonical-parts b h =
    let (provider, p, h1) = bind-ok (identity (text b.provider_id)) _ b h in
    let (account, q, h2) = bind-ok (identity (text b.account_id)) _ b h1 in
    let (names, r, h3) = bind-ok (capabilities (items (texts b.capabilities))) _ b h2 in
    let (x, y) = identity-lem b.provider_id provider p in
    let (z, w) = identity-lem b.account_id account q in
    (x, y, z, w, r ∙ ap ok (ap {A = CredentialBinding} (λ c. c.capabilities) (ok-injective _ b h3)))

-- The snapshot of a binding with the token and the times of a grant.
abbrev pub bound_snapshot : CredentialBinding → String → ℕ → ℕ → ℕ → CredentialSnapshot
bound_snapshot b token issued expires now = record {
  provider_id = b.provider_id;
  account_label = some b.account_id;
  capabilities = b.capabilities;
  issued_at = some issued;
  expires_at = some expires;
  refresh_capable = true;
  secrets = ("access_token", token) ∷ [];
  created_at = now;
}

pub credential_snapshot-bound :
    (b : CredentialBinding) (grant : AccessCredentialGrant) (now minimum : ℕ)
    → IsCanonical b
    → (fits : GrantFits grant now minimum)
    → credential_snapshot
        (text b.provider_id)
        (text b.account_id)
        (items (texts b.capabilities))
        (mapping ((text "access_token", grant.access_token) ∷ []))
        grant.issued_at
        grant.expires_at
        true
        (int (pos now))
      ≡ ok (bound_snapshot b fits.token fits.issued fits.expires now)
unfolding credential_snapshot provider_name label_of copy_secrets copy_pairs time_of is_blank
    seconds
credential_snapshot-bound b grant now minimum canonical fits =
    let (x, y, z, w, r) = canonical-parts b canonical in
    rw (fits.token_of)
      (rw (x, z, r, fits.filled, fits.ordered) (rw (y, w, fits.issued_of, fits.expires_of) refl))

pub bound_grant-GrantFits :
    (b : CredentialBinding) (grant : AccessCredentialGrant) (now minimum : ℕ)
    → GrantFits grant now minimum
    → GrantFits (bound_grant b grant) now minimum
bound_grant-GrantFits b grant now minimum fits = record {
  token = fits.token;
  issued = fits.issued;
  expires = fits.expires;
  token_of = fits.token_of;
  filled = fits.filled;
  issued_of = fits.issued_of;
  expires_of = fits.expires_of;
  ordered = fits.ordered;
  started = fits.started;
  unexpired = fits.unexpired;
  lives = fits.lives;
}
