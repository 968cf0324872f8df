-- ===== src/Hosted/Ledger.antt =====
-- What the events are that `append` and `list` of agent_core/hosted_activity.py return.
use mathlib.Core.Path.{subst}
use keirin_ai_web.Prelude.{
  ℕ, String, ◌≡◌, sym, ◌∙◌, Option, none, some, List, ◌==◌, nat_eq, string_eq, list_eq, eq_iff,
  Each, arith,
}
use keirin_ai_web.Outcome.{ok}
use keirin_ai_web.Outcome.Pure.{Ensures, bind-Ensures, ensured, accepted, ok-injective}
use keirin_ai_web.Outcome.Method.{lift, Yields, bind-Yields}
use keirin_ai_web.Credentials.{pos}
use keirin_ai_web.Json.{Json, Items, Fields, null, int, text, arr, obj, nil, cons, get}
use keirin_ai_web.Hosted.Forbidden.{forbidden_path, IsClean}
use keirin_ai_web.Hosted.Clean.{forbidden_path-exact, is_clear-none}
use keirin_ai_web.Hosted.Transport.{Transport}
use keirin_ai_web.Hosted.Lease.{is_clear}
use keirin_ai_web.Hosted.Events.{
  HostedActivityEvent, event_number, event_task, event_kind, event_step, event_payload, event_time,
  parse_event, is_task_id,
}
use keirin_ai_web.Hosted.Listing.{
  parse_events, event_ids, check_ids, listed_rows, listed_events, valid_limit, valid_cursor,
}
use keirin_ai_web.Hosted.Activity.{activity_request, valid_task_id, list_events}
use keirin_ai_web.Hosted.Rising.{Rising, PastCursor, check_ids-lem}

-- An event of a task, without a forbidden key in its payload.
pub record EventFits (task_id : String) (event : HostedActivityEvent) : Type 0 where
  pub of_task : event.task_id ≡ task_id
  pub clean : IsClean (obj event.payload)

event_task-lem :
    (v : Json) (expected : String) (task : String)
    → event_task v (some expected) ≡ ok task
    → task ≡ expected
unfolding event_task
event_task-lem (text s) expected task h =
    let (p, q) = accepted (is_task_id s) _ _ task h in
    let (p1, q1) = accepted (s == expected) (ok s) _ task q in
    sym (ok-injective s task q1) ∙ (eq_iff s expected).0 p1
event_task-lem v expected task h = absurd (ground (arith, h))

event_payload-lem :
    (v : Json) (payload : Fields) → event_payload v ≡ ok payload → IsClean (obj payload)
unfolding event_payload
event_payload-lem (obj fs) payload h =
    let (p, q) = accepted (is_clear (forbidden_path (obj fs))) (ok fs) _ payload h in
    subst (λ x. IsClean (obj x)) (ok-injective fs payload q)
      ((forbidden_path-exact (obj fs)).0 (is_clear-none _ p))
event_payload-lem v payload h = absurd (ground (arith, h))

parse_event-fits :
    (row : Json) (task_id : String) → Ensures (EventFits task_id) (parse_event row (some task_id))
unfolding parse_event
parse_event-fits (obj value) task_id =
    bind-Ensures _ (event_number (get "event_id" value)) _ (λ id _.
      bind-Ensures _ (event_task (get "task_id" value) (some task_id)) _ (λ task same.
        bind-Ensures _ (event_kind (get "event_type" value)) _ (λ kind _.
          bind-Ensures _ (event_step (get "step_id" value)) _ (λ step _.
            bind-Ensures _ (event_payload (get "payload" value)) _ (λ payload found.
              bind-Ensures _ (event_time (get "created_at" value)) _ (λ at _. record {
                of_task = event_task-lem (get "task_id" value) task_id task same;
                clean = event_payload-lem (get "payload" value) payload found;
              }))))))
parse_event-fits v task_id = tt

parse_events-fit :
    (rows : Items) (task_id : String)
    → Ensures (Each (EventFits task_id)) (parse_events rows task_id)
unfolding parse_events
parse_events-fit nil task_id = tt
parse_events-fit (cons row rows) task_id =
    bind-Ensures _ (parse_event row (some task_id)) _ (λ event p.
      bind-Ensures _ (parse_events rows task_id) _ (λ events q. (
        ensured _ _ event (parse_event-fits row task_id) p,
        ensured _ _ events (parse_events-fit rows task_id) q,
      )))

-- What `list` returns: events of the task with clean payloads, their ids rising past the cursor.
abbrev pub ListFits : String → Option ℕ → List HostedActivityEvent → Type 0
ListFits task_id after events =
    Each (EventFits task_id) events
    × Rising (event_ids events)
    × PastCursor after (event_ids events)

listed_events-fit :
    (task_id : String) (after : Option ℕ) (v : Json)
    → Ensures (ListFits task_id after) (listed_events task_id after v)
unfolding listed_events listed_rows
listed_events-fit task_id after (arr rows) =
    bind-Ensures _ (parse_events rows task_id) _ (λ events p.
      bind-Ensures _ (check_ids (event_ids events) after) _ (λ u q.
        let (rising, past) = check_ids-lem (event_ids events) after u q in
        (ensured _ _ events (parse_events-fit rows task_id) p, rising, past)))
listed_events-fit task_id after v = tt

-- The cursor as the caller gives it.
abbrev pub cursor_of : Option ℕ → Json
cursor_of none = null
cursor_of (some n) = int (pos n)

valid_cursor-lem : (after o : Option ℕ) → valid_cursor (cursor_of after) ≡ ok o → o ≡ after
unfolding valid_cursor
valid_cursor-lem none o h = ground arith
valid_cursor-lem (some n) o h = ground arith

valid_task_id-lem : (s task : String) → valid_task_id (text s) ≡ ok task → task ≡ s
unfolding valid_task_id
valid_task_id-lem s task h = sym (ok-injective s task (accepted (is_task_id s) (ok s) _ task h).1)

module _ {W : Type 0} (str : Json → String) (transport : Transport W) where
  list_events-Yields :
      (task_id : String) (after : Option ℕ) (limit : Json)
      → Yields
          (ListFits task_id after)
          (list_events str transport (text task_id) (cursor_of after) limit)
  unfolding list_events
  list_events-Yields task_id after limit =
      bind-Yields _ (lift (valid_task_id (text task_id))) _ (λ task s p.
        bind-Yields _ (lift (valid_limit limit)) _ (λ rows s1 _.
          bind-Yields _ (lift (valid_cursor (cursor_of after))) _ (λ o s2 q.
            bind-Yields _ (activity_request str transport "event_list" _) _ (λ response s3 _ s4.
              subst (λ t. Ensures (ListFits t after) (listed_events task o (get "events" response)))
                (valid_task_id-lem task_id task p)
                (subst
                  (λ c. Ensures (ListFits task c) (listed_events task o (get "events" response)))
                  (valid_cursor-lem after o q)
                  (listed_events-fit task o (get "events" response)))))))

  -- The events that `list` returns are of the task, have no forbidden key in their payloads, and have ids that
  -- rise strictly, all past the cursor where there is one.
  pub list_events-fit :
      (task_id : String) (after : Option ℕ) (limit : Json) (events : List HostedActivityEvent)
      (before : W)
      → (list_events str transport (text task_id) (cursor_of after) limit before).0 ≡ ok events
      → ListFits task_id after events
  list_events-fit task_id after limit events before h =
      ensured (ListFits task_id after) _ events (list_events-Yields task_id after limit before) h
