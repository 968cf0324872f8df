-- ===== src/Secrets/Memory/Contract.antt =====
-- The in-memory store keeps the contract `VersionedSecretStore`.
use keirin_ai_web.Prelude.{ℕ, ◌≡◌, refl, Bool, true, false, Option, none, some, inl, nat_eq, arith}
use keirin_ai_web.Prelude.Dict.{lookup, lookup-insert_self}
use keirin_ai_web.Outcome.{Result, ok, err}
use keirin_ai_web.Credentials.{int, pos, seconds, CredentialBinding, binding_eq}
use keirin_ai_web.Secrets.Record.{RefreshSecretRecord}
use keirin_ai_web.Secrets.Store.{VersionedSecretStore, CasStep, applied, rejected}
use keirin_ai_web.Secrets.Memory.{
  Records, read, swap_if, swap_locked, check_replacement, swap_checked, compare_and_swap,
}

module _ (b : CredentialBinding) where
  pub stored-read : (s : Records) → lookup b (read b s).1 ≡ lookup b s
  unfolding read
  stored-read s = ground arith

  pub read-stored :
      (s : Records) (r : RefreshSecretRecord) → (read b s).0 ≡ ok r → lookup b s ≡ some r
  unfolding read
  read-stored s r h = ground arith

  pub swap_if-CasStep :
      (t : Bool) (expected : ℕ) (current replacement : RefreshSecretRecord) (s : Records)
      → lookup b s ≡ some current
      → (t ≡ true → current.version ≡ expected)
      → CasStep expected replacement
          (swap_if t b replacement s).0
          (lookup b s)
          (lookup b (swap_if t b replacement s).1)
  unfolding swap_if
  swap_if-CasStep true expected current replacement s found same =
      applied current found (same refl) (lookup-insert_self b replacement s) (inl refl)
  swap_if-CasStep false expected current replacement s found same = rejected refl (λ u. u)

  swap_locked-CasStep :
      (o : Option RefreshSecretRecord) (expected : ℕ) (replacement : RefreshSecretRecord)
      (s : Records)
      → lookup b s ≡ o
      → CasStep expected replacement
          (swap_locked o b expected replacement s).0
          (lookup b s)
          (lookup b (swap_locked o b expected replacement s).1)
  unfolding swap_locked
  swap_locked-CasStep none expected replacement s found = rejected refl (λ u. u)
  swap_locked-CasStep (some current) expected replacement s found =
      swap_if-CasStep _ expected current replacement s found (λ t. ground arith)

  swap_checked-CasStep :
      (checked : Result ℕ) (expected : ℕ) (replacement : RefreshSecretRecord) (s : Records)
      → ((n : ℕ) → checked ≡ ok n → n ≡ expected)
      → CasStep expected replacement
          (swap_checked checked b replacement s).0
          (lookup b s)
          (lookup b (swap_checked checked b replacement s).1)
  unfolding swap_checked
  swap_checked-CasStep (err e) expected replacement s same = rejected refl (λ u. u)
  swap_checked-CasStep (ok n) expected replacement s same =
      rw (← same n refl) (swap_locked-CasStep (lookup b s) n replacement s refl)

  check_replacement-ok :
      (expected n : ℕ) (replacement : RefreshSecretRecord)
      → check_replacement b (int (pos expected)) replacement ≡ ok n
      → n ≡ expected
  unfolding check_replacement seconds
  check_replacement-ok expected n replacement h = ground arith

  pub cas-CasStep :
      (expected : ℕ) (replacement : RefreshSecretRecord) (s : Records)
      → CasStep expected replacement
          (compare_and_swap b (int (pos expected)) replacement s).0
          (lookup b s)
          (lookup b (compare_and_swap b (int (pos expected)) replacement s).1)
  unfolding compare_and_swap
  cas-CasStep expected replacement s =
      swap_checked-CasStep (check_replacement b (int (pos expected)) replacement) expected
        replacement s (λ n. check_replacement-ok expected n replacement)

-- The store as its clients see it.
abbrev pub memory_store : VersionedSecretStore
memory_store = record {
  Store = Records;
  read = read;
  compare_and_swap = λ b expected. compare_and_swap b (int (pos expected));
  durable = λ b s. lookup b s;
  durable-read = stored-read;
  read-durable = read-stored;
  cas_step = cas-CasStep;
}
