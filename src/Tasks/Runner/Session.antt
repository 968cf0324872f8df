-- ===== src/Tasks/Runner/Session.antt =====
-- What `AgentRunner` of agent_core/runner.py passes around: the replies of actions, the session of a
-- run, and the changes of the session.
use keirin_ai_web.Prelude.{
  ℕ, ◌+◌, String, Bool, false, Option, none, some, List, [], ◌∷◌, ◌++◌, nat_eq, string_eq,
}
use keirin_ai_web.Prelude.Dict.{lookup, insert}
use keirin_ai_web.Outcome.{Raised}
use keirin_ai_web.Credentials.{Value, truth}
use keirin_ai_web.Tasks.Model.{
  TaskState, running, completed, blocked, failed, ArtifactUpdate, BlockReason, PersistentError,
}
use keirin_ai_web.Tasks.Store.{
  Disk, EventType, task_started, task_blocked, task_failed, task_completed, step_started,
  step_error, step_completed, step_skipped_completed, save_state, append_event,
}

-- `ActionResult`; `verified` is `data.get("verified")`.
pub record ActionResult (J : Type 0) : Type 0 where
  pub message : String
  pub artifacts : List ArtifactUpdate
  pub contents : J
  pub verified : Value

-- What an action returns. A dictionary is read as a result, which raises where an artifact in it
-- has not the fields of an update (`none`), and has a `verified` entry of its own.
pub data Returned (J : Type 0) : Type 0 where
  nothing : Returned J
  action_result : ActionResult J → Returned J
  boolean : Bool → Returned J
  dictionary : Option (ActionResult J) → Value → Returned J
  unsupported : Returned J

-- How a call ends: with a value, with `BlockedAction`, `SafeActionError` or another `Exception`,
-- or with an interrupt that is no `Exception`.
pub data Reply (J : Type 0) : Type 0 where
  returned : Returned J → Reply J
  blocked_action : String → Reply J
  safe_error : String → Reply J
  other_exception : Reply J
  interrupt : Reply J

-- The arguments of an action, or of a verifier of a step's result.
pub data Arguments (J : Type 0) : Type 0 where
  plain : J → Arguments J
  to_verify : String → J → ActionResult J → Arguments J

-- `step_context`; the idempotency key is made of the two ids.
pub record StepContext (J : Type 0) : Type 0 where
  pub task_id : String
  pub step_id : String
  pub task_inputs : J

abbrev pub Action : Type 0 → Type 0 → Type 0
Action J E = Arguments J → StepContext J → E → Reply J × E

pub record Session (E : Type 0) : Type 0 where
  pub state : TaskState
  pub disk : Disk
  pub outside : E
  pub executed : List String
  pub skipped : List String

-- A part of the run goes on, returns the outcome, or lets an exception out.
pub data Flow (A : Type 0) : Type 0 where
  next : A → Flow A
  done : A → Flow A
  crash : Raised → A → Flow A

abbrev pub and_then : {A : Type 0} → Flow A → (A → Flow A) → Flow A
and_then (next s) f = f s
and_then (done s) f = done s
and_then (crash e s) f = crash e s

-- `_normalise_action_result`; `none` is the exception that it raises. A `bool` is unsupported.
unfoldable pub normalise_action_result :
    {J : Type 0} → ActionResult J → Returned J → Option (ActionResult J)
normalise_action_result empty nothing = some empty
normalise_action_result empty (action_result r) = some r
normalise_action_result empty (dictionary r v) = r
normalise_action_result empty (boolean b) = none
normalise_action_result empty unsupported = none

abbrev pub is_true : Value → Bool
is_true (truth b) = b
is_true _ = false

-- `_verification_passed`
unfoldable pub verification_passed : {J : Type 0} → Returned J → Bool
verification_passed (boolean b) = b
verification_passed (action_result r) = is_true r.verified
verification_passed (dictionary r v) = is_true v
verification_passed nothing = false
verification_passed unsupported = false

-- `state.attempts.get(step_id, 0)`
abbrev pub attempts_of : Option ℕ → ℕ
attempts_of none = 0
attempts_of (some n) = n

module _ {E : Type 0} where
  -- `self.store.save_state(state)`
  abbrev pub save : Session E → Session E
  save s = record s { disk = save_state s.state s.disk }

  -- `self.store.append_event(…)`
  abbrev pub log : Option String → EventType → Session E → Session E
  log step_id event_type s = record s {
    disk = append_event s.state.task_id step_id event_type s.disk;
  }

  -- `_block`
  unfoldable pub block :
      BlockReason → Option String → Option PersistentError → Session E → Session E
  block reason step_id error s = log step_id task_blocked (
      save (record s {
        state = record s.state {
          status = blocked;
          blocked_reason = some reason;
          last_error = error;
        };
      }))

  -- The top of the `while` loop: the attempt is counted and saved before the action is called.
  unfoldable pub begin_attempt : String → Session E → Session E
  begin_attempt step_id s = log (some step_id) step_started (
      save (record s {
        state = record s.state {
          attempts =
              insert step_id (attempts_of (lookup step_id s.state.attempts) + 1) s.state.attempts;
        };
      }))

  -- The end of a task whose retry-safe step has used up its attempts.
  unfoldable pub fail_task : String → Session E → Session E
  fail_task step_id s =
      log (some step_id) task_failed
        (save (record s { state = record s.state { status = failed; blocked_reason = none } }))

  -- `state.last_error = error` and its event.
  unfoldable pub note_error : String → PersistentError → Session E → Session E
  note_error step_id error s =
      log (some step_id) step_error
        (record s { state = record s.state { last_error = some error } })

  -- The end of a step.
  unfoldable pub complete_step : String → Session E → Session E
  complete_step step_id s =
      log (some step_id) step_completed
        (record (save (record s {
          state = record s.state {
            completed_steps = s.state.completed_steps ++ step_id ∷ [];
            last_error = none;
          };
        })) { executed = s.executed ++ step_id ∷ [] })

  unfoldable pub skip_step : String → Session E → Session E
  skip_step step_id s =
      log (some step_id) step_skipped_completed (record s { skipped = s.skipped ++ step_id ∷ [] })

  -- `status = "completed"` at the end of the loop.
  unfoldable pub finish : Flow (Session E) → Flow (Session E)
  finish (next s) = done (
      log none task_completed (
        save (record s {
          state = record s.state { status = completed; blocked_reason = none; last_error = none };
        })))
  finish (done s) = done s
  finish (crash e s) = crash e s

  -- `status = "running"` at its start.
  unfoldable pub start : Session E → Session E
  start s = log none task_started (
      save (record s {
        state = record s.state { status = running; blocked_reason = none; last_error = none };
      }))
