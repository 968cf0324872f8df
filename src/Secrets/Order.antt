-- ===== src/Secrets/Order.antt =====
-- The order in which the versions of one refresh-secret record may follow each other.
use keirin_ai_web.Prelude.{
  ◌<◌, ◌≤◌, ◌≡◌, refl, ◌∙◌, ◌⊎◌, inl, inr, false, Option, none, some, arith,
}
use keirin_ai_web.Secrets.Record.{RefreshSecretRecord, is_ready, is_revoked}

-- `new` may replace `old`: the version grows, nothing replaces a revoked record, and the refresh
-- generation never falls. While it stays, the record is not ready again.
pub record Succeeds (old new : RefreshSecretRecord) : Type 0 where
  pub version_grows : old.version < new.version
  pub not_revoked : is_revoked old.state ≡ false
  pub generation_kept : old.refresh_generation ≤ new.refresh_generation
  pub secret_spent : old.refresh_generation ≡ new.refresh_generation → is_ready new.state ≡ false

abbrev pub Later : RefreshSecretRecord → RefreshSecretRecord → Type 0
Later old new = (new ≡ old) ⊎ Succeeds old new

pub Succeeds-trans : {r s t : RefreshSecretRecord} → Succeeds r s → Succeeds s t → Succeeds r t
Succeeds-trans h k = record {
  version_grows = omega (arith, h.version_grows, k.version_grows);
  not_revoked = h.not_revoked;
  generation_kept = omega (arith, h.generation_kept, k.generation_kept);
  secret_spent = λ e. k.secret_spent (omega (arith, e, h.generation_kept, k.generation_kept));
}

pub Later-trans : (r s t : RefreshSecretRecord) → Later r s → Later s t → Later r t
Later-trans r s t (inl e) (inl f) = inl (f ∙ e)
Later-trans r s t (inl e) (inr k) = inr (rw e at k)
Later-trans r s t (inr h) (inl f) = inr (rw (← f) at h)
Later-trans r s t (inr h) (inr k) = inr (Succeeds-trans h k)

-- Two records of one version in the order are the same record.
pub Later-eq_of_version : (r s : RefreshSecretRecord) → Later r s → s.version ≡ r.version → s ≡ r
Later-eq_of_version r s (inl e) h = e
Later-eq_of_version r s (inr k) h = absurd (omega (arith, k.version_grows, h))

pub Later-generation :
    (r s : RefreshSecretRecord) → Later r s → r.refresh_generation ≤ s.refresh_generation
Later-generation r s (inl e) = rw e (omega arith)
Later-generation r s (inr h) = h.generation_kept

-- The order on what is stored for a binding; the source never creates or drops a record.
abbrev pub LaterStored : Option RefreshSecretRecord → Option RefreshSecretRecord → Type 0
LaterStored none none = Unit
LaterStored (some old) (some new) = Later old new
LaterStored _ _ = ⊥

pub LaterStored-refl : (o : Option RefreshSecretRecord) → LaterStored o o
LaterStored-refl none = tt
LaterStored-refl (some r) = inl refl

pub LaterStored-trans :
    (o p q : Option RefreshSecretRecord) → LaterStored o p → LaterStored p q → LaterStored o q
LaterStored-trans none none none h k = tt
LaterStored-trans (some r) (some s) (some t) h k = Later-trans r s t h k
LaterStored-trans none none (some t) h k = absurd k
LaterStored-trans none (some s) q h k = absurd h
LaterStored-trans (some r) none q h k = absurd h
LaterStored-trans (some r) (some s) none h k = absurd k
