-- ===== src/Secrets/Evolution/Writes.antt =====
-- `_claim`, `_block`, `_commit_success` and `_recover_cas` move the durable record along the order
-- of `Secrets.Order`, whatever the store answers.
use keirin_ai_web.Prelude.{
  ◌≤◌, some, inl, String, ◌≡◌, refl, Bool, true, false, ◌&&◌, arith, ◌==◌, nat_eq, string_eq,
  option_eq,
}
use keirin_ai_web.Credentials.{Value, CredentialBinding}
use keirin_ai_web.Secrets.Record.{
  RefreshSecretRecord, SecretState, FailureCode, refreshing, blocked_ambiguous, is_ready,
  is_revoked, state_eq, code_eq,
}
use keirin_ai_web.Secrets.Store.{VersionedSecretStore}
use keirin_ai_web.Secrets.Steps.{Known, Steps, Steps-raise, Steps-pure, Steps-bind}
use keirin_ai_web.Secrets.Order.{LaterStored, Later-generation}
use keirin_ai_web.Secrets.Source.Exchange.{World}
use keirin_ai_web.Secrets.Source.Methods.{
  Swap, saved, ambiguous, conflict, escaped, read_record, claim_seen, read_back, claimed_record,
  blocked_record, committed_record, after_claim, claim, confirm_block, after_block, block,
  persistence_ambiguous, after_commit, commit_success, after_recover,
}
use keirin_ai_web.Secrets.Evolution.Swaps.{
  read_record-Steps, SwapKnown, replace_swap-Steps, read_anywhere, confirmed-Steps,
}

claim_seen-live :
    (claimed observed : RefreshSecretRecord) (attempt_id : String)
    → claim_seen claimed attempt_id observed ≡ true
    → (is_revoked observed.state ≡ false) × (is_ready observed.state ≡ false)
unfolding claim_seen
claim_seen-live claimed observed attempt_id h = ground arith

module _ (vs : VersionedSecretStore) (b : CredentialBinding) where
  -- The facts that a claimed record carries through a refresh, which began at `current`.
  abbrev pub Claimed : RefreshSecretRecord → RefreshSecretRecord → World vs.Store → Type 0
  Claimed current r w =
      (is_revoked r.state ≡ false)
      × (is_ready r.state ≡ false)
      × (current.refresh_generation ≤ r.refresh_generation)
      × Known vs b r w

  after_claim-Steps :
      (current claimed : RefreshSecretRecord) (attempt_id : String) (swap : Swap)
      → claimed.state ≡ refreshing
      → current.refresh_generation ≤ claimed.refresh_generation
      → Steps vs b
          (SwapKnown vs b current claimed swap)
          (after_claim vs b claimed attempt_id swap)
          (Claimed current)
  unfolding after_claim
  after_claim-Steps current claimed attempt_id (saved r) live grown =
      Steps-pure r (λ w h. (rw (h.0, live), rw (h.0, live), rw h.0 grown, h.1))
  after_claim-Steps current claimed attempt_id conflict live grown = Steps-raise _
  after_claim-Steps current claimed attempt_id ambiguous live grown =
      Steps-bind (read_record vs b) _ (read_record-Steps vs b (λ o. LaterStored (some current) o))
        λ observed. confirmed-Steps vs b _ observed _ λ seen w h.
          let live = claim_seen-live claimed observed attempt_id seen in
          (live.0, live.1, Later-generation current observed h.0, rw h.1 (inl refl))
  after_claim-Steps current claimed attempt_id (escaped e) live grown = Steps-raise e

  -- `_claim`, from a record that is not revoked.
  pub claim-Steps :
      (current : RefreshSecretRecord) (attempt_id : String)
      → is_revoked current.state ≡ false
      → Steps vs b (Known vs b current) (claim vs b current attempt_id) (Claimed current)
  unfolding claim
  claim-Steps current attempt_id live =
      replace_swap-Steps vs b current (claimed_record current attempt_id)
        (λ claimed. after_claim vs b claimed attempt_id)
        (record {
          version_grows = omega arith;
          not_revoked = live;
          generation_kept = omega arith;
          secret_spent = λ e. refl;
        })
        λ swap. after_claim-Steps current _ attempt_id swap refl (omega arith)

  confirm_block-Steps :
      {P : World vs.Store → Type 0} (attempt_id : String) (state : SecretState)
      (failure : FailureCode)
      → Steps vs b P (confirm_block vs b attempt_id state failure) (Known vs b)
  unfolding confirm_block
  confirm_block-Steps attempt_id state failure =
      Steps-bind (read_record vs b) _ (read_anywhere vs b)
        λ observed. confirmed-Steps vs b _ observed _ λ seen w h. h

  after_block-Steps :
      (current blocked : RefreshSecretRecord) (attempt_id : String) (state : SecretState)
      (failure : FailureCode) (swap : Swap)
      → Steps vs b
          (SwapKnown vs b current blocked swap)
          (after_block vs b attempt_id state failure swap)
          (Known vs b)
  unfolding after_block
  after_block-Steps current blocked attempt_id state failure (saved r) = Steps-pure r (λ w h. h.1)
  after_block-Steps current blocked attempt_id state failure conflict =
      confirm_block-Steps attempt_id state failure
  after_block-Steps current blocked attempt_id state failure ambiguous =
      confirm_block-Steps attempt_id state failure
  after_block-Steps current blocked attempt_id state failure (escaped e) = Steps-raise e

  -- `_block` into a state that is not ready, from a record that is not revoked.
  pub block-Steps :
      (current : RefreshSecretRecord) (attempt_id : String) (state : SecretState)
      (failure : FailureCode)
      → is_revoked current.state ≡ false
      → is_ready state ≡ false
      → Steps vs b (Known vs b current) (block vs b current attempt_id state failure) (Known vs b)
  unfolding block
  block-Steps current attempt_id state failure live shut =
      replace_swap-Steps vs b current (blocked_record current attempt_id state failure)
        (λ _. after_block vs b attempt_id state failure)
        (record {
          version_grows = omega arith;
          not_revoked = live;
          generation_kept = omega arith;
          secret_spent = λ e. shut;
        })
        λ swap. after_block-Steps current _ attempt_id state failure swap

  persistence_ambiguous-Steps :
      (open_attempt : Bool) (observed : RefreshSecretRecord) (attempt_id : String)
      → (open_attempt ≡ true → is_revoked observed.state ≡ false)
      → Steps vs b
          (Known vs b observed)
          (persistence_ambiguous vs b open_attempt observed attempt_id)
          (Known vs b)
  unfolding persistence_ambiguous
  persistence_ambiguous-Steps true observed attempt_id live =
      Steps-bind _ _ (block-Steps observed attempt_id blocked_ambiguous _ (live refl) refl)
        λ r. Steps-raise _
  persistence_ambiguous-Steps false observed attempt_id live = Steps-raise _

  open_attempt-live :
      (observed : RefreshSecretRecord) (t : Bool)
      → (observed.state == refreshing && t) ≡ true
      → is_revoked observed.state ≡ false
  open_attempt-live observed t h = ground arith

  read_back-Steps :
      (seen : Bool) (observed : RefreshSecretRecord) (attempt_id : String)
      → Steps vs b (Known vs b observed) (read_back vs b seen observed attempt_id) (Known vs b)
  unfolding read_back
  read_back-Steps true observed attempt_id = Steps-pure observed (λ w h. h)
  read_back-Steps false observed attempt_id =
      persistence_ambiguous-Steps _ observed attempt_id (open_attempt-live observed _)

  after_commit-Steps :
      (current committed : RefreshSecretRecord) (attempt_id : String) (swap : Swap)
      → Steps vs b
          (SwapKnown vs b current committed swap)
          (after_commit vs b committed attempt_id swap)
          (Known vs b)
  unfolding after_commit
  after_commit-Steps current committed attempt_id (saved r) = Steps-pure r (λ w h. h.1)
  after_commit-Steps current committed attempt_id ambiguous =
      Steps-bind (read_record vs b) _ (read_anywhere vs b)
        λ observed. read_back-Steps _ observed attempt_id
  after_commit-Steps current committed attempt_id conflict =
      Steps-bind (read_record vs b) _ (read_anywhere vs b) λ observed. Steps-raise _
  after_commit-Steps current committed attempt_id (escaped e) = Steps-raise e

  -- `_commit_success`, from a record that is not revoked.
  pub commit_success-Steps :
      (current : RefreshSecretRecord) (attempt_id : String) (rotated : Value)
      → is_revoked current.state ≡ false
      → Steps vs b
          (Known vs b current)
          (commit_success vs b current attempt_id rotated)
          (Known vs b)
  unfolding commit_success
  commit_success-Steps current attempt_id rotated live =
      replace_swap-Steps vs b current (committed_record current attempt_id rotated)
        (λ committed. after_commit vs b committed attempt_id)
        (record {
          version_grows = omega arith;
          not_revoked = live;
          generation_kept = omega arith;
          secret_spent = λ e. absurd (omega arith);
        })
        λ swap. after_commit-Steps current _ attempt_id swap

  pub after_recover-Steps :
      (current new : RefreshSecretRecord) (swap : Swap)
      → Steps vs b (SwapKnown vs b current new swap) (after_recover vs b swap) (Known vs b)
  unfolding after_recover
  after_recover-Steps current new (saved r) = Steps-pure r (λ w h. h.1)
  after_recover-Steps current new conflict = Steps-raise _
  after_recover-Steps current new ambiguous = Steps-raise _
  after_recover-Steps current new (escaped e) = Steps-raise e
