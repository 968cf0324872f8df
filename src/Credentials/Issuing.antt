-- ===== src/Credentials/Issuing.antt =====
-- What a snapshot of `StaticInMemoryCredentialProvider` in agent_core/credential_provider.py promises.
use keirin_ai_web.Prelude.{
  ◌≡◌, ℕ, ◌+◌, ◌≤◌, ◌<◌, String, true, Option, none, some, List, string_eq, contains,
}
use keirin_ai_web.Prelude.Dict.{Dict}

-- The credential is valid from the time on.
abbrev pub StartedBy : Option ℕ → ℕ → Type 0
StartedBy none now = Unit
StartedBy (some issued) now = issued ≤ now

-- The credential does not expire, or is valid for the seconds that follow the time.
abbrev pub LivesFor : Option ℕ → ℕ → ℕ → Type 0
LivesFor none now ttl = Unit
LivesFor (some expires) now ttl = (now < expires) × (now + ttl ≤ expires)

abbrev pub Within : List String → List String → Type 0
Within names held = (a : String) → contains a names ≡ true → contains a held ≡ true
