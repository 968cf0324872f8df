-- ===== src/Planning/Order.antt =====
-- The order in which `plan_queue` of agent_core/queue_planner.py decides about its rows.
use keirin_ai_web.Prelude.{◌≡◌, String, false, List, [], ◌∷◌, nat_eq, string_eq}
use keirin_ai_web.Planning.Queue.{Row, QueueEntry, QueueDecision, comes_before}

-- The row comes before no row that the list begins with.
abbrev Follows : Row → List Row → Type 0
Follows r [] = Unit
Follows r (s ∷ l) = comes_before s r ≡ false

-- No row comes before the one in front of it.
abbrev pub Ascending : List Row → Type 0
Ascending [] = Unit
Ascending (r ∷ l) = Follows r l × Ascending l

abbrev pub row_ids : List Row → List String
row_ids [] = []
row_ids (r ∷ l) = r.task_id ∷ row_ids l

abbrev pub decided_ids : List QueueDecision → List String
decided_ids [] = []
decided_ids (d ∷ l) = d.task_id ∷ decided_ids l

-- The rows that valid entries give carry their ids.
abbrev pub entry_ids : List QueueEntry → List String
entry_ids [] = []
entry_ids (e ∷ l) = e.task_id ∷ entry_ids l
