-- ===== src/Tasks/Artifacts.antt =====
-- `ArtifactUpdate.validate`, `ArtifactState.merge` of agent_core/model.py and `apply_artifact_update` of
-- agent_core/store.py.
use keirin_ai_web.Prelude.{
  String, false, not, ◌&&◌, Option, none, some, List, [], ◌∷◌, ◌==◌, string_eq, if◌then◌else◌,
}
use keirin_ai_web.Prelude.Text.{is_blank}
use keirin_ai_web.Prelude.Dict.{Dict, lookup, insert}
use keirin_ai_web.Outcome.{Result, ok, err, value_error}
use keirin_ai_web.Outcome.Pure.{◌>>=◌, ◌>>◌, raise_if}
use keirin_ai_web.Tasks.Model.{ArtifactState, ArtifactUpdate}

-- `ArtifactUpdate.validate`
unfoldable pub validate_update : ArtifactUpdate → Result (Unit {0})
validate_update update = do
  raise_if (is_blank update.artifact_id) (value_error "artifact_id_required")
  raise_if (is_blank update.kind) (value_error "artifact_kind_required")

-- `if value is not None`
abbrev pub overwrite {ℓ} : {A : Type ℓ} → Option A → A → A
overwrite none old = old
overwrite (some new) old = new

abbrev pub overwrite_text : Option String → Option String → Option String
overwrite_text none old = old
overwrite_text (some new) old = some new

unfoldable pub merge : ArtifactState → ArtifactUpdate → Result ArtifactState
merge self update =
    if not (update.kind == "") && not (self.kind == update.kind)
    then err (value_error "artifact_kind_conflict")
    else ok (record self {
      locator = overwrite_text update.locator self.locator;
      created = overwrite update.created self.created;
      verified = overwrite update.verified self.verified;
      persistent_saved = overwrite update.persistent_saved self.persistent_saved;
      device_saved = overwrite update.device_saved self.device_saved;
      ui_loaded = overwrite update.ui_loaded self.ui_loaded;
    })

-- `ArtifactState(artifact_id=…, kind=…)`
abbrev pub new_artifact : ArtifactUpdate → ArtifactState
new_artifact update = record {
  artifact_id = update.artifact_id;
  kind = update.kind;
  locator = none;
  created = false;
  verified = false;
  persistent_saved = false;
  device_saved = false;
  ui_loaded = false;
}

abbrev pub existing_or_new : Option ArtifactState → ArtifactUpdate → ArtifactState
existing_or_new none update = new_artifact update
existing_or_new (some a) update = a

-- `apply_artifact_update`, on the artifacts of a state.
unfoldable pub apply_artifact_update :
    Dict String ArtifactState → ArtifactUpdate → Result (Dict String ArtifactState)
unfolding validate_update merge
apply_artifact_update artifacts update = do
  validate_update update
  merged ← merge (existing_or_new (lookup update.artifact_id artifacts) update) update
  ok (insert update.artifact_id merged artifacts)

-- The loops over the updates of a result or of a reconciliation.
unfoldable pub apply_artifact_updates :
    Dict String ArtifactState → List ArtifactUpdate → Result (Dict String ArtifactState)
unfolding apply_artifact_update
apply_artifact_updates artifacts [] = ok artifacts
apply_artifact_updates artifacts (u ∷ l) = do
  artifacts' ← apply_artifact_update artifacts u
  apply_artifact_updates artifacts' l
