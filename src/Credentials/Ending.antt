-- ===== src/Credentials/Ending.antt =====
-- How a call of `snapshot` of agent_core/refresh_credentials.py ends.
use mathlib.Core.Path.{subst}
use keirin_ai_web.Prelude.{
  ◌≡◌, refl, sym, ap, ◌∙◌, ◌⊎◌, inl, inr, ℕ, ◌+◌, Bool, true, false, Option, none, some, Bool-cases,
  if◌then◌else◌,
}
use keirin_ai_web.Outcome.{Result, ok, err, credential_revoked}
use keirin_ai_web.Outcome.Pure.{Ensures}
use keirin_ai_web.Credentials.Values.{Value}
use keirin_ai_web.Credentials.Capabilities.{Collection}
use keirin_ai_web.Credentials.Snapshot.{CredentialSnapshot, IsCanonical}
use keirin_ai_web.Credentials.Refreshing.{
  ready, ready_rotated, blocked_auth, revoked, RefreshingProvider, issuance_allowed, check_request,
  revoke_refreshing,
}
use keirin_ai_web.Credentials.Renewing.{
  RefreshHost, Issuer, Renewed, locked, renew, snapshot_of, conclude_open, conclude, work, issue,
  issue_for, refreshing_snapshot,
}
use keirin_ai_web.Credentials.Accepting.{
  GrantFits, validate_grant-GrantFits, bound_grant-GrantFits, bound_snapshot,
  credential_snapshot-bound,
}
use keirin_ai_web.Credentials.Settling.{Same, RenewedFits, renew-Leads}

module _ {M W : Type 0} (host : RefreshHost M W) where
  -- The provider hands out nothing any more: it has no grant, and is revoked or blocked.
  pub record Closed (p : RefreshingProvider) : Type 0 where
    pub idle : p.busy ≡ false
    pub empty : p.grant ≡ none
    pub ended : (p.state ≡ revoked) ⊎ (p.state ≡ blocked_auth)

  -- The provider has a grant that passes its tests, and shows its token and times under the provider's binding.
  pub record Issues (before : RefreshingProvider) (minimum : ℕ) (shown : Result CredentialSnapshot)
      (after : Issuer M) : Type 0 where
    pub renewed : Renewed M
    pub fits : RenewedFits host before minimum renewed
    pub holds : after.provider.grant ≡ some renewed.grant
    pub idle : after.provider.busy ≡ false
    pub is_ready : (after.provider.state ≡ ready) ⊎ (after.provider.state ≡ ready_rotated)
    pub counted :
        after.provider.generation
        ≡ (if renewed.refreshed then before.generation + 1 else before.generation)
    pub granted : GrantFits renewed.grant renewed.now minimum
    pub shows :
        shown
        ≡ ok
            (bound_snapshot before.binding granted.token granted.issued granted.expires renewed.now)

  abbrev pub IsRaise : Result CredentialSnapshot → Type 0
  IsRaise (ok a) = ⊥
  IsRaise (err e) = Unit

  -- How a call ends: refused or closed, with a raise, or with a grant.
  abbrev pub Ends : RefreshingProvider → ℕ → Result CredentialSnapshot → Issuer M → Type 0
  Ends before minimum shown after =
      (IsRaise shown × Closed after.provider) ⊎ Issues before minimum shown after

  ready-cases :
      (b : Bool)
      → ((if b then ready_rotated else ready) ≡ ready)
        ⊎ ((if b then ready_rotated else ready) ≡ ready_rotated)
  ready-cases true = inr refl
  ready-cases false = inl refl

  renewed-GrantFits :
      (before : RefreshingProvider) (minimum : ℕ) (r : Renewed M)
      → RenewedFits host before minimum r
      → GrantFits r.grant r.now minimum
  renewed-GrantFits before minimum r (grant, from, passes, made) =
      subst (λ g. GrantFits g r.now minimum) (sym made)
        (bound_grant-GrantFits before.binding grant r.now minimum
          (validate_grant-GrantFits before grant r.now minimum passes))

  conclude_open-Ends :
      (before : RefreshingProvider) (minimum : ℕ) (self : Issuer M) (p : RefreshingProvider)
      (outcome : Result (Renewed M)) (w : W)
      → IsCanonical before.binding
      → Same host before (p, w)
      → Ensures (RenewedFits host before minimum) outcome
      → Ends before minimum
          (conclude_open host self p outcome).0
          (conclude_open host self p outcome).1
  unfolding conclude_open
  conclude_open-Ends before minimum self p (ok r) w c h f = inr (record {
    renewed = r;
    fits = f;
    holds = refl;
    idle = refl;
    is_ready = ready-cases _;
    counted = ap (λ g. if r.refreshed then g + 1 else g) h.same_generation;
    granted = renewed-GrantFits before minimum r f;
    shows =
        ap (λ b. snapshot_of host b r) h.same_binding
        ∙ credential_snapshot-bound before.binding r.grant r.now minimum c
            (renewed-GrantFits before minimum r f);
  })
  conclude_open-Ends before minimum self p (err (credential_revoked x)) w c h f =
      inl (tt, record { idle = refl; empty = refl; ended = inl refl })
  conclude_open-Ends before minimum self p (err e) w c h f =
      inl (tt, record { idle = refl; empty = refl; ended = inr refl })

  conclude-Ends :
      (before : RefreshingProvider) (minimum : ℕ) (self : Issuer M) (p : RefreshingProvider) (w : W)
      (outcome : Result (Renewed M))
      → IsCanonical before.binding
      → Same host before (p, w)
      → Ensures (RenewedFits host before minimum) outcome
      → Ends before minimum (conclude host self p w outcome).0 (conclude host self p w outcome).1
  unfolding conclude
  conclude-Ends before minimum self p w outcome c h f = elim (Bool-cases (host.is_revoked w)) [
    | inl r ↦ rw r (inl (tt, record { idle = refl; empty = refl; ended = inl refl }))
    | inr r ↦ rw r (conclude_open-Ends before minimum self p outcome w c h f)
  ]

  -- A call that the provider refuses: it raises, and the provider is as its lock finds it.
  abbrev pub Refuses : Issuer M → W → Result CredentialSnapshot → Issuer M → Type 0
  Refuses self w shown after =
      IsRaise shown
      × ((after ≡ self) ⊎ (after ≡ record self { provider = locked host self.provider w }))

  -- The provider that a call marks as busy.
  abbrev pub busied : RefreshingProvider → RefreshingProvider
  busied p = record p { busy = true }

  work-Ends :
      (self : Issuer M) (minimum : ℕ) (now_epoch : Option ℕ) (w : W)
      → IsCanonical self.provider.binding
      → Ends self.provider minimum
          (work host self minimum now_epoch w).0
          (work host self minimum now_epoch w).1.0
  work-Ends self minimum now_epoch w c =
      let leads = renew-Leads host self.provider self minimum now_epoch in
      let out = renew host self minimum now_epoch (self.provider, w) in
      conclude-Ends self.provider minimum self out.1.0 out.1.1 out.0 c
        (leads.keeps (self.provider, w) (record { same_binding = refl; same_generation = refl }))
        (leads.yields (self.provider, w))

  issue-Ends :
      (self : Issuer M) (allowed : Result (Unit {0})) (minimum : ℕ) (now_epoch : Option ℕ) (w : W)
      → IsCanonical self.provider.binding
      → (IsRaise (issue host self allowed minimum now_epoch w).0
          × ((issue host self allowed minimum now_epoch w).1.0 ≡ self))
        ⊎ Ends
            (busied self.provider)
            minimum
            (issue host self allowed minimum now_epoch w).0
            (issue host self allowed minimum now_epoch w).1.0
  unfolding issue
  issue-Ends self (err e) minimum now_epoch w c = inl (tt, refl)
  issue-Ends self (ok u) minimum now_epoch w c =
      inr (work-Ends (record self { provider = busied self.provider }) minimum now_epoch w c)

  -- How a call ends that asks for this many seconds.
  abbrev pub Asked :
      Issuer M → W → Result (ℕ × Option ℕ) → Result CredentialSnapshot → Issuer M → Type 0
  Asked self w (err e) shown after = Refuses self w shown after
  Asked self w (ok (minimum, given)) shown after =
      Refuses self w shown after ⊎ Ends (busied (locked host self.provider w)) minimum shown after

  locked-binding : (p : RefreshingProvider) (w : W) → (locked host p w).binding ≡ p.binding
  unfolding revoke_refreshing
  locked-binding p w = elim (Bool-cases (host.is_revoked w)) [
    | inl r ↦ rw r refl
    | inr r ↦ rw r refl
  ]

  issue_for-Ends :
      (self : Issuer M) (request : Result (ℕ × Option ℕ)) (w : W)
      → IsCanonical self.provider.binding
      → Asked self w request (issue_for host self request w).0 (issue_for host self request w).1.0
  unfolding issue_for
  issue_for-Ends self (err e) w c = (tt, inl refl)
  issue_for-Ends self (ok (minimum, given)) w c =
      let p = locked host self.provider w in
      elim (issue-Ends (record self { provider = p }) (issuance_allowed p.state p.busy) minimum
        given w (subst IsCanonical (sym (locked-binding self.provider w)) c)) [
          | inl (r, same) ↦ inl (r, inr same)
          | inr e ↦ inr e
        ]

  -- A call of `snapshot` of a provider whose binding its constructor gives back ends in one of three ways. It
  -- is refused: it raises, and the provider is as it was, but for a revocation that its lock finds. Or, where
  -- its request passes the tests, it raises and leaves the provider idle, without a grant, and revoked or
  -- blocked. Or it leaves the provider idle and ready with a grant that passed its tests for the seconds asked
  -- for, its own under the generation it had or one that the source gave under the next, and returns the
  -- snapshot of the grant's token and times under the provider's identity and capabilities.
  pub refreshing_snapshot-Ends :
      (self : Issuer M) (required : Collection) (minimum known now_epoch : Value) (w : W)
      → IsCanonical self.provider.binding
      → Asked self w
          (check_request self.provider.binding required minimum known now_epoch)
          (refreshing_snapshot host self required minimum known now_epoch w).0
          (refreshing_snapshot host self required minimum known now_epoch w).1.0
  unfolding refreshing_snapshot
  refreshing_snapshot-Ends self required minimum known now_epoch w c =
      issue_for-Ends self (check_request self.provider.binding required minimum known now_epoch) w c
