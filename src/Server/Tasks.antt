-- ===== src/Server/Tasks.antt =====
-- The registry of rip tasks in crates/server/src/task_registry.rs and the requests that create and cancel
-- tasks in rip_task_rpc.rs. The registry is locked for the whole of each method. The order of the
-- association list is the order in which the map is iterated. What a task only shows to clients is of a
-- type `D`.
pub mod Lookup
pub mod Rpc
pub mod Targets
pub mod Requests
mod Tests
use peerless_server.Prelude.{
  ℕ, Bool, true, false, not, ◌&&◌, ◌||◌, List, [], ◌∷◌, Option, none, some, ◌==◌, if◌then◌else◌,
  Result, ok, err, Text, eq_text, Map, lookup, insert, remove, length, map,
}

pub record ServerTaskMeta (D : Type 0) : Type 0 where
  pub task_id : Text
  pub rip_task_id : Text
  pub owner_id : ℕ
  pub track_id : Text
  pub is_album : Bool
  pub completed : Bool
  pub result_track_id : Option ℕ
  pub details : D

pub data TaskRemovalRejected : Type 0 where
  rejected : TaskRemovalRejected

abbrev pub Registry : Type 0 → Type 0
Registry D = Map (ServerTaskMeta D)

module _ {D : Type 0} where
  unfoldable pub register : Text → ServerTaskMeta D → Registry D → Registry D
  register task_id meta tasks = insert task_id meta tasks

  -- `TaskRegistry::remove`: the task that was there, and the registry without it.
  unfoldable pub remove_task : Text → Registry D → Registry D × Option (ServerTaskMeta D)
  remove_task task_id tasks = (remove task_id tasks, lookup task_id tasks)

  abbrev pub removed_if :
      Text
      → (ServerTaskMeta D → Bool)
      → Registry D
      → Option (ServerTaskMeta D)
      → Registry D × Result (Option (ServerTaskMeta D)) TaskRemovalRejected
  removed_if task_id allow tasks none = (tasks, ok none)
  removed_if task_id allow tasks (some task) =
      if allow task then (remove task_id tasks, ok (some task)) else (tasks, err rejected)

  unfoldable pub remove_if :
      Text
      → (ServerTaskMeta D → Bool)
      → Registry D
      → Registry D × Result (Option (ServerTaskMeta D)) TaskRemovalRejected
  remove_if task_id allow tasks = removed_if task_id allow tasks (lookup task_id tasks)

  -- `values().find`.
  abbrev pub find_task : (ServerTaskMeta D → Bool) → Registry D → Option (ServerTaskMeta D)
  find_task p [] = none
  find_task p (entry ∷ tasks) = if p entry.1 then some entry.1 else find_task p tasks

  abbrev pub inserted_unless :
      ServerTaskMeta D → Registry D → Option (ServerTaskMeta D) → Registry D × Result Text Text
  inserted_unless meta tasks (some existing) = (tasks, err existing.task_id)
  inserted_unless meta tasks none = (insert meta.task_id meta tasks, ok meta.task_id)

  -- `ok` is the id of the new task, `err` that of the equivalent one.
  unfoldable pub insert_unique :
      ServerTaskMeta D
      → (ServerTaskMeta D → ServerTaskMeta D → Bool)
      → Registry D
      → Registry D × Result Text Text
  insert_unique meta equivalent tasks =
      inserted_unless meta tasks (find_task (λ task. equivalent task meta) tasks)

  abbrev pub updated_at :
      Text
      → (ServerTaskMeta D → ServerTaskMeta D)
      → Registry D
      → Option (ServerTaskMeta D)
      → Registry D × Option (ServerTaskMeta D)
  updated_at task_id change tasks none = (tasks, none)
  updated_at task_id change tasks (some task) =
      (insert task_id (change task) tasks, some (change task))

  -- `update` and `update_and_get`: the first only says whether there was a task.
  unfoldable pub update_and_get :
      Text
      → (ServerTaskMeta D → ServerTaskMeta D)
      → Registry D
      → Registry D × Option (ServerTaskMeta D)
  update_and_get task_id change tasks = updated_at task_id change tasks (lookup task_id tasks)

  abbrev pub changed_behind :
      Text × ServerTaskMeta D
      → Registry D × Option (ServerTaskMeta D)
      → Registry D × Option (ServerTaskMeta D)
  changed_behind entry (tasks, task) = (entry ∷ tasks, task)

  unfoldable pub update_first_matching :
      (ServerTaskMeta D → Bool)
      → (ServerTaskMeta D → ServerTaskMeta D)
      → Registry D
      → Registry D × Option (ServerTaskMeta D)
  update_first_matching matches change [] = ([], none)
  update_first_matching matches change (entry ∷ tasks) =
      let rest = update_first_matching matches change tasks in
      if matches entry.1
      then ((entry.0, change entry.1) ∷ tasks, some (change entry.1))
      else changed_behind entry rest
