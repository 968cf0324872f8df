-- ===== src/Secrets/History.antt =====
-- Any sequence of calls of one credential source: refreshes, revocations and recoveries with a
-- rotated secret, each with any outcome of the store and of the provider.
use keirin_ai_web.Prelude.{
  ◌<◌, ◌≤◌, ◌≡◌, ◌⊎◌, inl, inr, List, [], ◌∷◌, Option, some, none, true, false,
}
use mathlib.Core.Path.{subst, subst₂}
use keirin_ai_web.Credentials.{Value, CredentialBinding}
use keirin_ai_web.Secrets.Record.{RefreshSecretRecord, revoked, is_revoked}
use keirin_ai_web.Secrets.Store.{VersionedSecretStore}
use keirin_ai_web.Secrets.Order.{Later, LaterStored, LaterStored-refl, LaterStored-trans}
use keirin_ai_web.Secrets.Steps.{stored}
use keirin_ai_web.Secrets.Source.Exchange.{World}
use keirin_ai_web.Secrets.Source.Refresh.{Exchange, refresh_access}
use keirin_ai_web.Secrets.Source.Operator.{revoke, recover_ambiguous_with_rotated_secret}
use keirin_ai_web.Secrets.Evolution.Calls.{EachGenerationOnce, Accounted, Steps-Serves}
use keirin_ai_web.Secrets.Evolution.Refresh.{Polite, refresh_access-Serves}
use keirin_ai_web.Secrets.Evolution.Operator.{revoke-Steps, recover_rotated-Steps}

pub data Request : Type 0 where
  refresh : CredentialBinding → Value → Value → Request
  recover : Value → Value → Value → Request
  withdraw : Request

-- The world in which no call of the provider was made yet.
abbrev pub fresh_world : {S : Type 0} → S → World S
fresh_world s = record { store = s; calls = [] }

module _ (vs : VersionedSecretStore) (exchange : Exchange vs) (b : CredentialBinding) where
  -- One request, whose result or error goes to its caller.
  unfoldable pub serve : World vs.Store → Request → World vs.Store
  serve w (refresh requested ttl attempt) = (refresh_access vs exchange b requested ttl attempt w).1
  serve w (recover version attempt rotated) =
      (recover_ambiguous_with_rotated_secret vs b version attempt rotated w).1
  serve w withdraw = (revoke vs b w).1

  unfoldable pub serve_all : World vs.Store → List Request → World vs.Store
  unfolding serve
  serve_all w [] = w
  serve_all w (q ∷ l) = serve_all (serve w q) l

module _ (vs : VersionedSecretStore) (exchange : Exchange vs) (b : CredentialBinding)
    (polite : Polite vs exchange b) where
  abbrev Kept : World vs.Store → World vs.Store → Type 0
  Kept w w' = LaterStored (stored vs b w) (stored vs b w') × Accounted vs b w'

  serve-Kept :
      (w : World vs.Store) (q : Request) → Accounted vs b w → Kept w (serve vs exchange b w q)
  unfolding serve
  serve-Kept w (refresh requested ttl attempt) a =
      (refresh_access-Serves vs exchange b polite requested ttl attempt).run w (tt, tt) a
  serve-Kept w (recover version attempt rotated) a =
      (Steps-Serves vs b _ (recover_rotated-Steps vs b version attempt rotated)).run w tt a
  serve-Kept w withdraw a = (Steps-Serves vs b _ (revoke-Steps vs b)).run w tt a

  serve_all-Kept :
      (w : World vs.Store) (l : List Request)
      → Accounted vs b w
      → Kept w (serve_all vs exchange b w l)
  unfolding serve_all
  serve_all-Kept w [] a = (LaterStored-refl (stored vs b w), a)
  serve_all-Kept w (q ∷ l) a =
      let first = serve-Kept w q a in
      let rest = serve_all-Kept (serve vs exchange b w q) l first.1 in
      (
        LaterStored-trans (stored vs b w) (stored vs b (serve vs exchange b w q))
            (stored vs b (serve_all vs exchange b (serve vs exchange b w q) l)) first.0 rest.0,
        rest.1,
      )

  -- Whatever the store and the provider answer, and whatever other hosts do to the record within
  -- the order while an exchange runs: over any sequence of refreshes, revocations and recoveries
  -- with a rotated secret, the calls of the provider are made under strictly growing refresh
  -- generations, so that no refresh secret of one generation is presented twice.
  pub generations_once :
      (s : vs.Store) (l : List Request)
      → EachGenerationOnce (serve_all vs exchange b (fresh_world s) l).calls
  generations_once s l = (serve_all-Kept (fresh_world s) l (tt, tt)).1.1

  revoked_last :
      (o : Option RefreshSecretRecord) (r : RefreshSecretRecord)
      → is_revoked r.state ≡ true
      → LaterStored (some r) o
      → o ≡ some r
  revoked_last none r h k = absurd k
  revoked_last (some t) r h (inl e) = rw e
  revoked_last (some t) r h (inr s) =
      let live : is_revoked r.state ≡ false = s.not_revoked in cc (live, h)

  -- Once the stored record is revoked, no sequence of such requests changes it.
  pub revoked_stays :
      (s : vs.Store) (l : List Request) (r : RefreshSecretRecord)
      → vs.durable b s ≡ some r
      → r.state ≡ revoked
      → vs.durable b (serve_all vs exchange b (fresh_world s) l).store ≡ some r
  revoked_stays s l r h e = revoked_last _ r (rw e) (
      subst (λ o. LaterStored o (stored vs b (serve_all vs exchange b (fresh_world s) l))) h
        (serve_all-Kept (fresh_world s) l (tt, tt)).0)

  -- Over such a sequence the stored record is the same, or its version has grown and its refresh
  -- generation has not fallen; no version is used for two records.
  pub versions_grow :
      (s : vs.Store) (l : List Request) (r r' : RefreshSecretRecord)
      → vs.durable b s ≡ some r
      → vs.durable b (serve_all vs exchange b (fresh_world s) l).store ≡ some r'
      → (r' ≡ r) ⊎ ((r.version < r'.version) × (r.refresh_generation ≤ r'.refresh_generation))
  versions_grow s l r r' h k =
      grown (subst₂ LaterStored h k (serve_all-Kept (fresh_world s) l (tt, tt)).0)
    where
      grown :
          Later r r'
          → (r' ≡ r) ⊎ ((r.version < r'.version) × (r.refresh_generation ≤ r'.refresh_generation))
      grown (inl e) = inl e
      grown (inr t) = inr (t.version_grows, t.generation_kept)
