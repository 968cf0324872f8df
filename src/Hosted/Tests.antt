-- ===== src/Hosted/Tests.antt =====
-- The hosted queue, ledger and worker on small rows: a task of two actions, and hosts that answer by the mode.
use keirin_ai_web.Prelude.{
  ℕ, ◌≤◌, String, ◌≡◌, ◌↔◌, refl, sym, true, Option, none, some, List, [], ◌∷◌, ◌==◌, nat_eq,
  string_eq, list_eq, option_eq, if◌then◌else◌, arith,
}
use keirin_ai_web.Prelude.Text.{
  is_alphanumeric, starts_then, each_upto, is_blank, is_space, strip, strip_left, strip_right,
}
use keirin_ai_web.Outcome.{ok}
use keirin_ai_web.Outcome.Pure.{ok-injective}
use keirin_ai_web.Secrets.Record.{attempt_character}
use keirin_ai_web.Credentials.{pos}
use keirin_ai_web.Json.{Json, null, boolean, int, text, arr, obj, nil, cons, end, field, get}
use keirin_ai_web.Hosted.Forbidden.{
  forbidden_path, is_forbidden, among, lower_codes, codes, lower, IsClean,
}
use keirin_ai_web.Hosted.Clean.{forbidden_path-exact}
use keirin_ai_web.Tasks.Model.{
  StepSpec, TaskSpec, validate_step, no_repeats, validate_steps, validate_task,
}
use keirin_ai_web.Hosted.Model.{
  TaskModel, StoredState, get_or, item, state_schema, read_state, show_state, copy_state,
}
use keirin_ai_web.Hosted.Lease.{
  RowStatus, running, blocked, row_status, HostedQueueLease, is_worker_id, valid_worker_id,
  parse_int, filled_text, or_integrity, check_lease, check_task, lease_of, parse_fields,
  parse_lease,
}
use keirin_ai_web.Hosted.Transport.{Transport, request, checked_response}
use keirin_ai_web.Hosted.Replies.{
  valid_lease_seconds, whole_from, check_saveable, is_unclaimed, is_fenced, clean_state,
  claimed_lease, check_owner, check_saved, saved_lease, check_reconciled, reconciled_lease,
}
use keirin_ai_web.Hosted.Queue.{claim, save, reconcile_expired}
use keirin_ai_web.Hosted.Fenced.{LeaseFits, RowIsClean, parse_lease-fits}
use keirin_ai_web.Hosted.Promises.{ClaimFits, claim-fits}
use keirin_ai_web.Hosted.Saves.{SaveFits, ReconcileFits}
use keirin_ai_web.Hosted.Changes.{save-fits, reconcile_expired-fits, forbidden-unsent}

-- A step that reads the main branch, and verifies it.
abbrev read_main : StepSpec Json
read_main = record {
  step_id = "s1";
  action = "github.read_main";
  args = null;
  verify_action = some "github.verify_ci";
  retry_safe = true;
  max_attempts = 2;
}

abbrev pub task : TaskSpec Json
task = record {
  task_id = "t1";
  title = "a";
  goal = "b";
  allowed_actions = "github.read_main" ∷ "github.verify_ci" ∷ [];
  steps = read_main ∷ [];
  inputs = null;
  completion_conditions = [];
  schema_version = "agent-task-v1";
}

-- Tasks with one specification, whose states have no artifacts; their progress is their completed steps.
abbrev pub tasks : TaskModel
tasks = record {
  Artifacts = Unit {0};
  Progress = Json;
  read_artifacts = (λ v. ok tt);
  read_progress = (λ done attempts notes. ok done);
  show_artifacts = (λ a. null);
  show_completed = (λ p. p);
  show_attempts = (λ p. null);
  show_reconciliations = (λ p. null);
  artifacts_back = (λ a b h. refl);
  progress_back = (λ p q h. sym (ok-injective p q h));
  read_spec = (λ v. ok task);
  same_spec = (λ a b. a.task_id == b.task_id);
  fingerprint = (λ s. s.task_id);
  str_name = (λ v. "value");
}

abbrev state_of : String → Json → Json → StoredState tasks
state_of status reason done = record {
  task_id = "t1";
  status = text status;
  blocked_reason = reason;
  last_error = null;
  artifacts = tt;
  progress = done;
  schema_version = "agent-task-state-v1";
  spec_fingerprint = text "t1";
}

abbrev state_row : String → Json
state_row status = obj (
    field "task_id" (text "t1") (
      field "status" (text status) (
        field "schema_version" (text "agent-task-state-v1")
          (field "spec_fingerprint" (text "t1") end))))

abbrev row : String → ℕ → Json → Json → Json
row status revision owner expires = obj (
    field "task_id" (text "t1") (
      field "status" (text status) (
        field "spec" (obj (field "task_id" (text "t1") end)) (
          field "state" (state_row status) (
            field "spec_fingerprint" (text "t1") (
              field "revision" (int (pos revision)) (
                field "attempt_count" (int (pos 1)) (
                  field "max_attempts" (int (pos 3)) (
                    field "lease_generation" (int (pos 2)) (
                      field "idempotency_key" (text "k1") (
                        field "not_before" (text "2026-01-01T00:00:00Z") (
                          field "lease_owner" owner
                            (field "lease_expires_at" expires end)))))))))))))

abbrev lease_at : RowStatus → String → ℕ → Option String → Option String → HostedQueueLease tasks
lease_at status shown revision owner expires = record {
  task_id = "t1";
  status = status;
  revision = revision;
  idempotency_key = "k1";
  spec = task;
  state = state_of shown null null;
  attempt_count = 1;
  max_attempts = 3;
  lease_owner = owner;
  lease_generation = 2;
  lease_expires_at = expires;
  not_before = "2026-01-01T00:00:00Z";
  created_at = none;
  updated_at = none;
}

abbrev pub claimed_row : Json
claimed_row = row "running" 4 (text "worker-1") (text "2026-01-01T00:02:00Z")

abbrev pub claimed : HostedQueueLease tasks
claimed = lease_at running "running" 4 (some "worker-1") (some "2026-01-01T00:02:00Z")

abbrev blocked_row : Json
blocked_row = row "blocked" 5 null null

abbrev pub released : HostedQueueLease tasks
released = lease_at blocked "blocked" 5 none none

-- The queue's host, with the modes that it was called with.
abbrev pub host : Transport (List String)
host mode payload log = (
  ok (
      obj (
        field "success" (boolean true) (
          field "claimed" (boolean true)
            (field "lease" (if mode == "queue_claim" then claimed_row else blocked_row) end)))),
  mode ∷ log,
)

abbrev pub shown : Json → String
shown v = "value"

parsed : parse_lease tasks claimed_row none ≡ ok claimed
unfolding parse_lease parse_fields filled_text row_status or_integrity read_state state_schema item
    get_or check_task forbidden_path is_forbidden among lower_codes lower codes lease_of parse_int
    check_lease valid_worker_id is_worker_id starts_then each_upto is_alphanumeric attempt_character
    get
parsed = refl

parse_lease-fits_example : LeaseFits tasks claimed × RowIsClean tasks claimed_row
parse_lease-fits_example = parse_lease-fits tasks claimed_row none claimed parsed

claims : (claim tasks shown host (text "worker-1") (int (pos 120)) []).0 ≡ ok (some claimed)
unfolding claim request checked_response valid_lease_seconds claimed_lease is_unclaimed parse_lease
    parse_fields filled_text row_status or_integrity read_state state_schema item get_or check_task
    forbidden_path is_forbidden among lower_codes lower codes lease_of parse_int check_lease
    valid_worker_id is_worker_id starts_then each_upto is_alphanumeric attempt_character get
claims = refl

claim-fits_example : ClaimFits tasks (text "worker-1") claimed
claim-fits_example = claim-fits tasks shown host (text "worker-1") (int (pos 120)) claimed [] claims

abbrev stopped : StoredState tasks
stopped = state_of "blocked" (text "queue_empty") null

saves :
    (save tasks shown host task stopped
      (int (pos 4))
      (text "worker-1")
      (int (pos 2))
      (int (pos 120))
      []).0
    ≡ ok released
unfolding save request checked_response validate_task validate_steps validate_step no_repeats
    is_blank is_space strip strip_left strip_right copy_state show_state valid_lease_seconds
    clean_state check_saveable whole_from saved_lease check_saved check_owner is_fenced parse_lease
    parse_fields filled_text row_status or_integrity read_state state_schema item get_or check_task
    forbidden_path is_forbidden among lower_codes lower codes lease_of parse_int check_lease
    valid_worker_id is_worker_id starts_then each_upto is_alphanumeric attempt_character get
saves = refl

save-fits_example :
    SaveFits tasks (text "blocked") 4 (text "worker-1") 2 released
    × (1 ≤ 2)
    × IsClean (show_state tasks stopped)
save-fits_example =
    save-fits tasks shown host task stopped 4 (text "worker-1") 2 (int (pos 120)) released [] saves

reconciles :
    (reconcile_expired tasks shown host task stopped (int (pos 4)) (int (pos 2)) []).0 ≡ ok released
unfolding reconcile_expired request checked_response validate_task validate_steps validate_step
    no_repeats is_blank is_space strip strip_left strip_right copy_state show_state clean_state
    whole_from reconciled_lease check_reconciled parse_lease parse_fields filled_text row_status
    or_integrity read_state state_schema item get_or check_task forbidden_path is_forbidden among
    lower_codes lower codes lease_of parse_int check_lease valid_worker_id is_worker_id starts_then
    each_upto is_alphanumeric attempt_character get
reconciles = refl

reconcile_expired-fits_example : ReconcileFits tasks 4 2 released
reconcile_expired-fits_example =
    reconcile_expired-fits tasks shown host task stopped 4 2 released [] reconciles

abbrev nested : Json
nested =
    obj
      (field "notes" (arr (cons (text "a") (cons (obj (field "API_Key" (text "b") end)) nil))) end)

forbidden_path-exact_example : (forbidden_path nested ≡ none) ↔ IsClean nested
forbidden_path-exact_example = forbidden_path-exact nested

-- A state whose progress holds a token.
abbrev leaky : StoredState tasks
leaky = state_of "blocked" null (obj (field "Token" (text "a") end))

token-unclean : ¬ IsClean (show_state tasks leaky)
unfolding IsClean show_state is_forbidden among lower_codes lower codes
token-unclean (a, b, (c, d, (e, (h, k, l), r))) = absurd (ground (arith, h))

forbidden-unsent_example :
    ((save tasks shown host task leaky
        (int (pos 4))
        (text "worker-1")
        (int (pos 2))
        (int (pos 120))
        []).1
      ≡ [])
    × ((reconcile_expired tasks shown host task leaky (int (pos 4)) (int (pos 2)) []).1 ≡ [])
forbidden-unsent_example =
    forbidden-unsent tasks shown host task leaky (int (pos 4)) (text "worker-1") (int (pos 2))
      (int (pos 120)) [] token-unclean
