-- ===== src/Credentials/Settling.antt =====
-- What the `try` block of `snapshot` of agent_core/refresh_credentials.py keeps, and what it returns.
use Prim.Native.Nat.{max}
use keirin_ai_web.Prelude.{
  ◌≡◌, refl, ap, ◌∙◌, inl, inr, ℕ, Bool, true, false, Option, none, some, Bool-cases, arith,
}
use keirin_ai_web.Outcome.{Result, ok, err, Exec}
use keirin_ai_web.Outcome.Pure.{Ensures, ok-injective}
use keirin_ai_web.Outcome.Method.{
  lift, bind-Yields, Preserves, Leads, bind-Leads, Returns, bind-returned,
}
use keirin_ai_web.Credentials.Binding.{CredentialBinding, AccessCredentialGrant}
use keirin_ai_web.Credentials.Refreshing.{RefreshingProvider, revoke_refreshing, validate_grant}
use keirin_ai_web.Credentials.Renewing.{
  RefreshHost, Issuer, Renewed, anchor_or, needs_refresh, typed_grant, bound_grant, outside, tick,
  start_epoch, current_time, ask_available, begin_refresh, obtain, accept, renew,
}

anything : {A : Type 0} (r : Result A) → Ensures (λ a. Unit {0}) r
anything (ok a) = tt
anything (err e) = tt

module _ {M W : Type 0} (host : RefreshHost M W) where
  -- The provider keeps its binding and its generation.
  pub record Same (p : RefreshingProvider) (s : RefreshingProvider × W) : Type 0 where
    pub same_binding : s.0.binding ≡ p.binding
    pub same_generation : s.0.generation ≡ p.generation

  outside-Same :
      {A : Type 0} (p : RefreshingProvider) (call : Exec W A)
      → Preserves (Same p) (outside host call)
  outside-Same p call s h = record {
    same_binding = h.same_binding;
    same_generation = h.same_generation;
  }

  begin_refresh-Same : (p : RefreshingProvider) → Preserves (Same p) (begin_refresh host)
  unfolding begin_refresh revoke_refreshing
  begin_refresh-Same p (q, w) h = elim (Bool-cases (host.is_revoked w)) [
    | inl r ↦ rw r (record { same_binding = h.same_binding; same_generation = h.same_generation })
    | inr r ↦ rw r (record { same_binding = h.same_binding; same_generation = h.same_generation })
  ]

  obtain-Same :
      (p : RefreshingProvider) (b : CredentialBinding) (minimum : ℕ)
      (cached : Option AccessCredentialGrant) (needed : Bool)
      → Preserves (Same p) (obtain host b minimum cached needed)
  unfolding obtain
  obtain-Same p b minimum cached false s h = h
  obtain-Same p b minimum cached true s h =
      (bind-Leads (Same p) (λ a. Unit) (begin_refresh host)
          (λ u. outside host (host.refresh_access b minimum)) (begin_refresh-Same p)
          (λ u _. record {
            keeps = outside-Same p (host.refresh_access b minimum);
            yields = (λ t. anything (outside host (host.refresh_access b minimum) t).0);
          })).keeps
        s h

  -- Where a grant is from: the provider's own, or, where it was refreshed, one that the source gave.
  abbrev pub Origin : RefreshingProvider → ℕ → Bool → AccessCredentialGrant → Type 0
  Origin p minimum false grant = p.grant ≡ some grant
  Origin p minimum true grant = Returns (host.refresh_access p.binding minimum) (some grant)

  obtain-Origin :
      (p : RefreshingProvider) (minimum : ℕ) (needed : Bool) (grant : AccessCredentialGrant)
      (s : RefreshingProvider × W)
      → (obtain host p.binding minimum p.grant needed s).0 ≡ ok (some grant)
      → Origin p minimum needed grant
  unfolding obtain
  obtain-Origin p minimum false grant s h = ok-injective p.grant (some grant) h
  obtain-Origin p minimum true grant s h =
      let (u, t, q, r) =
        bind-returned (begin_refresh host)
          (λ u. outside host (host.refresh_access p.binding minimum)) s
          (obtain host p.binding minimum p.grant true s).1 (some grant)
          (ap (λ x. (x, (obtain host p.binding minimum p.grant true s).1)) h) in
      (t.1, ap (λ x. x.0) r)

  typed_grant-lem :
      (found : Option AccessCredentialGrant) (grant : AccessCredentialGrant)
      → typed_grant found ≡ ok grant
      → found ≡ some grant
  unfolding typed_grant
  typed_grant-lem none grant h = absurd (ground (arith, h))
  typed_grant-lem (some g) grant h = ap some (ok-injective g grant h)

  -- The grant comes of one that passes the tests of the provider at the time that is read last, and that the
  -- provider had or the source gave.
  abbrev pub RenewedFits : RefreshingProvider → ℕ → Renewed M → Type 0
  RenewedFits p minimum r =
      (grant : AccessCredentialGrant) × Origin p minimum r.refreshed grant
      × (validate_grant p grant r.now minimum ≡ ok tt)
      × (r.grant ≡ bound_grant p.binding grant)

  accept-Leads :
      (p self : RefreshingProvider) (minimum : ℕ) (refreshed : Bool) (now : ℕ) (anchor : ℕ × M)
      (grant : AccessCredentialGrant)
      → Origin self minimum refreshed grant
      → Leads
          (Same p)
          (RenewedFits self minimum)
          (accept host self minimum refreshed now anchor grant)
  unfolding accept
  accept-Leads p self minimum refreshed now anchor grant from = record {
    keeps =
        (bind-Leads (Same p) (λ a. Unit) (lift (validate_grant self grant now minimum)) _ (λ s h. h)
          (λ u _. record { keeps = (λ s h. h); yields = (λ s. tt) })).keeps;
    yields =
        bind-Yields (RenewedFits self minimum) (lift (validate_grant self grant now minimum)) _
          (λ u s q s1. (grant, from, q, refl));
  }

  pub renew-Leads :
      (p : RefreshingProvider) (self : Issuer M) (minimum : ℕ) (now_epoch : Option ℕ)
      → Leads (Same p) (RenewedFits self.provider minimum) (renew host self minimum now_epoch)
  unfolding renew
  renew-Leads p self minimum now_epoch =
      let R = RenewedFits self.provider minimum in
      let start = anchor_or self.time_anchor in
      bind-Leads (Same p) R (outside host (tick host)) _ (outside-Same p (tick host)) (λ started _.
        bind-Leads (Same p) R (outside host (start_epoch host now_epoch)) _
          (outside-Same p (start_epoch host now_epoch))
          (λ epoch _.
            bind-Leads (Same p) R
              (outside host (current_time host now_epoch (epoch, started) (start (epoch, started))))
              _
              (outside-Same p
                (current_time host now_epoch (epoch, started) (start (epoch, started))))
              (λ first _.
                bind-Leads (Same p) R (outside host (ask_available host)) _
                  (outside-Same p (ask_available host))
                  (λ u _.
                    bind-Leads (Same p) R
                      (outside host (current_time host now_epoch (epoch, started) first.1)) _
                      (outside-Same p (current_time host now_epoch (epoch, started) first.1))
                      (λ second _.
                        bind-Leads (Same p) R
                          (lift (needs_refresh self.provider.grant (max first.0 second.0) minimum))
                          _ (λ s h. h)
                          (λ needed _.
                            bind-Leads (Same p) R
                              (obtain host self.provider.binding minimum self.provider.grant needed)
                              _
                              (obtain-Same p self.provider.binding minimum self.provider.grant
                                needed)
                              (λ found came.
                                bind-Leads (Same p) R (outside host (ask_available host)) _
                                  (outside-Same p (ask_available host))
                                  (λ u1 _.
                                    bind-Leads (Same p) R
                                      (outside host
                                        (current_time host now_epoch (epoch, started) second.1))
                                      _
                                      (outside-Same p
                                        (current_time host now_epoch (epoch, started) second.1))
                                      (λ third _.
                                        bind-Leads (Same p) R (lift (typed_grant found)) _
                                          (λ s h. h)
                                          (λ grant typed.
                                            accept-Leads p self.provider minimum needed
                                              (max (max first.0 second.0) third.0) third.1 grant
                                              (obtain-Origin self.provider minimum needed grant
                                                came.0
                                                (came.1
                                                  ∙ ap ok (
                                                      typed_grant-lem found grant
                                                        typed.1)))))))))))))
