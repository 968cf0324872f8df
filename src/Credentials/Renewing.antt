-- ===== src/Credentials/Renewing.antt =====
-- `snapshot` of `RefreshingCredentialProvider` of agent_core/refresh_credentials.py. The host is a parameter:
-- its clocks, its source, and whether another thread has revoked the provider by now, which the provider
-- sees where it takes its lock. Readings of the monotonic clock are of any type, with the seconds between
-- two of them, rounded down and at least zero.
use Prim.Native.Nat.{max}
use keirin_ai_web.Prelude.{
  ℕ, ◌-◌, ◌+◌, String, Bool, true, false, not, ◌||◌, Option, none, some, [], ◌∷◌, ltb, leb,
  if◌then◌else◌,
}
use keirin_ai_web.Outcome.{
  Raised, Result, ok, err, Exec, value_error, credential_revoked, auth_blocked, keyboard_interrupt,
  system_exit,
}
use keirin_ai_web.Outcome.Pure.{raise_if}
use keirin_ai_web.Outcome.Method.{◌>>=◌, ◌>>◌, lift, pure}
use keirin_ai_web.Credentials.Values.{Value, int, text, pos, seconds}
use keirin_ai_web.Credentials.Capabilities.{Collection, items}
use keirin_ai_web.Credentials.Binding.{CredentialBinding, AccessCredentialGrant}
use keirin_ai_web.Credentials.Snapshot.{CredentialSnapshot, mapping, credential_snapshot, texts}
use keirin_ai_web.Credentials.Refreshing.{
  ProviderState, refreshing, ready, ready_rotated, blocked_auth, revoked, RefreshingProvider,
  revoke_refreshing, issuance_allowed, validate_grant, check_request,
}

pub record RefreshHost (M W : Type 0) : Type 0 where
  pub clock : Exec W Value
  pub monotonic : W → M × W
  pub elapsed : M → M → ℕ
  -- `assert_available`, with whether it returns `None`.
  pub assert_available : Exec W Bool
  -- `refresh_access`; `none` is a value of another type.
  pub refresh_access : CredentialBinding → ℕ → Exec W (Option AccessCredentialGrant)
  pub is_revoked : W → Bool

-- `_time_anchor` beside the rest of the provider's state.
pub record Issuer (M : Type 0) : Type 0 where
  pub provider : RefreshingProvider
  pub time_anchor : Option (ℕ × M)

-- What the `try` block leaves where nothing is raised.
pub record Renewed (M : Type 0) : Type 0 where
  pub grant : AccessCredentialGrant
  pub refreshed : Bool
  pub now : ℕ
  pub anchor : ℕ × M

abbrev pub anchor_or : {M : Type 0} → Option (ℕ × M) → ℕ × M → ℕ × M
anchor_or none start = start
anchor_or (some anchor) start = anchor

-- `cached is None or cached.expires_at <= now or cached.expires_at - now < minimum_ttl_seconds`
unfoldable pub needs_refresh : Option AccessCredentialGrant → ℕ → ℕ → Result Bool
unfolding seconds
needs_refresh none now minimum = ok true
needs_refresh (some cached) now minimum = elim (seconds cached.expires_at "invalid_expiry") [
  | ok expires ↦ ok (leb expires now || ltb (expires - now) minimum)
  | err e ↦ err e
]

-- `type(grant) is not AccessCredentialGrant`
unfoldable pub typed_grant : Option AccessCredentialGrant → Result AccessCredentialGrant
typed_grant none = err (value_error "invalid_access_grant")
typed_grant (some grant) = ok grant

-- The copy of an accepted grant, with the fields of the binding.
abbrev pub bound_grant : CredentialBinding → AccessCredentialGrant → AccessCredentialGrant
bound_grant b grant = record {
  provider_id = text b.provider_id;
  account_id = text b.account_id;
  capabilities = items (texts b.capabilities);
  access_token = grant.access_token;
  issued_at = grant.issued_at;
  expires_at = grant.expires_at;
}

module _ {M W : Type 0} (host : RefreshHost M W) where
  -- Work outside the lock.
  abbrev pub outside : {A : Type 0} → Exec W A → Exec (RefreshingProvider × W) A
  outside call (p, w) = let (r, w') = call w in (r, (p, w'))

  abbrev pub tick : Exec W M
  tick w = let (reading, w') = host.monotonic w in (ok reading, w')

  -- What the provider is when it takes its lock.
  abbrev pub locked : RefreshingProvider → W → RefreshingProvider
  locked p w = if host.is_revoked w then revoke_refreshing p else p

  -- `_seconds(self._clock(), 'invalid_clock') if now_epoch is None else now_epoch`
  unfoldable pub start_epoch : Option ℕ → Exec W ℕ
  unfolding seconds
  start_epoch none = do reading ← host.clock; lift (seconds reading "invalid_clock")
  start_epoch (some now_epoch) = pure now_epoch

  unfoldable pub wall_time : Option ℕ → ℕ × M → M → Exec W ℕ
  unfolding seconds
  wall_time none start later = do reading ← host.clock; lift (seconds reading "invalid_clock")
  wall_time (some now_epoch) (epoch, started) later = pure (epoch + host.elapsed started later)

  -- `current_time`, with the anchor that it leaves.
  unfoldable pub current_time : Option ℕ → ℕ × M → ℕ × M → Exec W (ℕ × (ℕ × M))
  unfolding wall_time
  current_time now_epoch start anchor = do
    later ← tick
    wall ← wall_time now_epoch start later
    pure (
        let floor = anchor.0 + host.elapsed anchor.1 later in
        if ltb floor wall then (wall, (wall, later)) else (floor, anchor))

  unfoldable pub ask_available : Exec W (Unit {0})
  ask_available = do
    is_none ← host.assert_available
    lift (raise_if (not is_none) (value_error "invalid_source_availability"))

  -- The lock before the refresh.
  unfoldable pub begin_refresh : Exec (RefreshingProvider × W) (Unit {0})
  begin_refresh (p, w) =
      if host.is_revoked w
      then (err (credential_revoked "credential_provider_revoked"), (revoke_refreshing p, w))
      else (ok tt, (record p { state = refreshing; grant = none }, w))

  -- The grant, from the source where a refresh is needed and else from the provider.
  unfoldable pub obtain :
      CredentialBinding
      → ℕ
      → Option AccessCredentialGrant
      → Bool
      → Exec (RefreshingProvider × W) (Option AccessCredentialGrant)
  unfolding begin_refresh
  obtain b minimum cached false = pure cached
  obtain b minimum cached true = do begin_refresh; outside (host.refresh_access b minimum)

  -- The tests on the grant, and its copy.
  unfoldable pub accept :
      RefreshingProvider
      → ℕ
      → Bool
      → ℕ
      → ℕ × M
      → AccessCredentialGrant
      → Exec (RefreshingProvider × W) (Renewed M)
  unfolding validate_grant
  accept self minimum refreshed now anchor grant = do
    lift (validate_grant self grant now minimum)
    pure (record {
      grant = bound_grant self.binding grant;
      refreshed = refreshed;
      now = now;
      anchor = anchor;
    })

  -- The `try` block.
  unfoldable pub renew : Issuer M → ℕ → Option ℕ → Exec (RefreshingProvider × W) (Renewed M)
  unfolding start_epoch current_time ask_available needs_refresh obtain typed_grant accept
  renew self minimum now_epoch = do
    started ← outside tick
    epoch ← outside (start_epoch now_epoch)
    first ←
        outside
          (current_time now_epoch (epoch, started) (anchor_or self.time_anchor (epoch, started)))
    outside ask_available
    second ← outside (current_time now_epoch (epoch, started) first.1)
    needed ← lift (needs_refresh self.provider.grant (max first.0 second.0) minimum)
    found ← obtain self.provider.binding minimum self.provider.grant needed
    outside ask_available
    third ← outside (current_time now_epoch (epoch, started) second.1)
    grant ← lift (typed_grant found)
    accept self.provider minimum needed (max (max first.0 second.0) third.0) third.1 grant

  -- The provider after a failure, and what is raised.
  abbrev pub shut : RefreshingProvider → ProviderState → String → RefreshingProvider
  shut p state failure = record p {
    busy = false;
    state = state;
    failure = some failure;
    grant = none;
  }

  abbrev pub failed_as : Raised → Raised
  failed_as (keyboard_interrupt s) = keyboard_interrupt "credential_refresh_interrupted"
  failed_as (system_exit s) = system_exit "credential_refresh_interrupted"
  failed_as e = auth_blocked "credential_refresh_failed"

  -- The provider with a new grant.
  abbrev pub issued : RefreshingProvider → Renewed M → RefreshingProvider
  issued p r =
      let generation = if r.refreshed then p.generation + 1 else p.generation in
      record p {
        busy = false;
        state = if ltb 1 generation then ready_rotated else ready;
        failure = none;
        grant = some r.grant;
        generation = generation;
      }

  abbrev pub snapshot_of : CredentialBinding → Renewed M → Result CredentialSnapshot
  snapshot_of b r =
      credential_snapshot (text b.provider_id) (text b.account_id) (items (texts b.capabilities))
        (mapping ((text "access_token", r.grant.access_token) ∷ [])) r.grant.issued_at
        r.grant.expires_at true (int (pos r.now))

  -- The last lock, where the provider was not revoked meanwhile.
  unfoldable pub conclude_open :
      Issuer M → RefreshingProvider → Result (Renewed M) → Result CredentialSnapshot × Issuer M
  unfolding credential_snapshot
  conclude_open self p (ok r) =
      (snapshot_of p.binding r, record { provider = issued p r; time_anchor = some r.anchor })
  conclude_open self p (err (credential_revoked s)) = (
    err (credential_revoked "credential_source_revoked"),
    record self { provider = shut p revoked "credential_source_revoked" },
  )
  conclude_open self p (err e) = (
    err (failed_as e),
    record self { provider = shut p blocked_auth "credential_refresh_failed" },
  )

  -- The last lock.
  unfoldable pub conclude :
      Issuer M → RefreshingProvider → W → Result (Renewed M) → Result CredentialSnapshot × Issuer M
  unfolding conclude_open
  conclude self p w outcome =
      if host.is_revoked w
      then (
        err (credential_revoked "credential_source_revoked"),
        record self { provider = shut p revoked "credential_source_revoked" },
      )
      else conclude_open self p outcome

  -- The work outside the lock, and the last lock.
  abbrev pub work : Issuer M → ℕ → Option ℕ → W → Result CredentialSnapshot × (Issuer M × W)
  work self minimum now_epoch w =
      let (outcome, (p, w')) = renew self minimum now_epoch (self.provider, w) in
      let (shown, after) = conclude self p w' outcome in (shown, (after, w'))

  -- The first lock: the provider, or what is raised.
  unfoldable pub issue :
      Issuer M → Result (Unit {0}) → ℕ → Option ℕ → W → Result CredentialSnapshot × (Issuer M × W)
  unfolding renew conclude
  issue self (err e) minimum now_epoch w = (err e, (self, w))
  issue self (ok u) minimum now_epoch w =
      work (record self { provider = record self.provider { busy = true } }) minimum now_epoch w

  -- `snapshot` behind its tests.
  unfoldable pub issue_for :
      Issuer M → Result (ℕ × Option ℕ) → W → Result CredentialSnapshot × (Issuer M × W)
  unfolding issue issuance_allowed
  issue_for self (err e) w = (err e, (self, w))
  issue_for self (ok (minimum, now_epoch)) w =
      let p = locked self.provider w in
      issue (record self { provider = p }) (issuance_allowed p.state p.busy) minimum now_epoch w

  -- `snapshot`
  unfoldable pub refreshing_snapshot :
      Issuer M → Collection → Value → Value → Value → W → Result CredentialSnapshot × (Issuer M × W)
  unfolding check_request issue_for
  refreshing_snapshot self required minimum_ttl_seconds require_known_expiry now_epoch w =
      issue_for self
        (check_request self.provider.binding required minimum_ttl_seconds require_known_expiry
          now_epoch)
        w
