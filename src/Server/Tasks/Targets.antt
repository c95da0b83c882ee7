-- ===== src/Server/Tasks/Targets.antt =====
-- The targets of the tasks in the registry of crates/server/src/task_registry.rs.
use peerless_server.Prelude.{
  ℕ, ◌≡◌, refl, sym, ◌∙◌, inl, inr, Bool, true, false, ◌&&◌, ◌||◌, List, [], ◌∷◌, Option, none,
  some, Result, ok, err, Bool-cases, Option-cases, All, Text, eq_text, eq_text_iff, insert, remove,
  lookup, trim,
}
use peerless_server.Stream.Pipe.{is_empty}
use peerless_server.Server.Tasks.{
  ServerTaskMeta, TaskRemovalRejected, rejected, Registry, find_task, insert_unique, remove_if,
  removed_if,
}
use peerless_server.Server.Tasks.Rpc.{
  RipTaskRpcSuccess, RipTaskRpcError, ServerState, RipTaskRequest, Database, same_bool, same_target,
  reserve_task, new_task, on_reserved, on_cached, on_target, create_task, is_authorized, on_removed,
  cancel_task, target, cached,
}

same_bool_refl : (a : Bool) → same_bool a a ≡ true
same_bool_refl true = refl
same_bool_refl false = refl

and_true : (a : Bool) → (a && true) ≡ a
and_true true = refl
and_true false = refl

module _ {D : Type 0} where
  -- The entry is of another kind, or of another track or album, than the task.
  abbrev Other : ServerTaskMeta D → Text × ServerTaskMeta D → Type 0
  Other task entry = ¬ ((task.is_album ≡ entry.1.is_album) × (task.track_id ≡ entry.1.track_id))

  -- No two tasks of the registry are for one target.
  abbrev pub HasOneEach : Registry D → Type 0
  HasOneEach [] = Unit
  HasOneEach (entry ∷ tasks) = All (Other entry.1) tasks × HasOneEach tasks

  same_target-Other :
      (a b : ServerTaskMeta D)
      → same_target a b ≡ false
      → ¬ ((b.is_album ≡ a.is_album) × (b.track_id ≡ a.track_id))
  same_target-Other a b h (p, q) =
      let same : eq_text a.track_id b.track_id ≡ true =
        (eq_text_iff a.track_id b.track_id).1 (sym q) in
      let k : same_bool b.is_album b.is_album ≡ false = rw (sym p, same, and_true) at h in
      let k' = sym k ∙ same_bool_refl b.is_album in cc

  All-insert :
      (P : Text × ServerTaskMeta D → Type 0) (key : Text) (value : ServerTaskMeta D)
      (tasks : Registry D)
      → P (key, value)
      → All P tasks
      → All P (insert key value tasks)
  All-insert P key value [] h all = (h, tt)
  All-insert P key value (entry ∷ tasks) h all = elim (Bool-cases (eq_text entry.0 key)) [
    | inl e ↦ rw e (h, all.1)
    | inr e ↦ rw e (all.0, All-insert P key value tasks h all.1)
  ]

  All-remove :
      (P : Text × ServerTaskMeta D → Type 0) (key : Text) (tasks : Registry D)
      → All P tasks
      → All P (remove key tasks)
  All-remove P key [] all = tt
  All-remove P key (entry ∷ tasks) all = elim (Bool-cases (eq_text entry.0 key)) [
    | inl e ↦ rw e (All-remove P key tasks all.1)
    | inr e ↦ rw e (all.0, All-remove P key tasks all.1)
  ]

  remove-HasOneEach :
      (key : Text) (tasks : Registry D) → HasOneEach tasks → HasOneEach (remove key tasks)
  remove-HasOneEach key [] h = tt
  remove-HasOneEach key (entry ∷ tasks) h = elim (Bool-cases (eq_text entry.0 key)) [
    | inl e ↦ rw e (remove-HasOneEach key tasks h.1)
    | inr e ↦ rw e (All-remove (Other entry.1) key tasks h.0, remove-HasOneEach key tasks h.1)
  ]

  insert-HasOneEach :
      (key : Text) (value : ServerTaskMeta D) (tasks : Registry D)
      → All (Other value) tasks
      → HasOneEach tasks
      → HasOneEach (insert key value tasks)
  insert-HasOneEach key value [] other h = (tt, tt)
  insert-HasOneEach key value (entry ∷ tasks) other h = elim (Bool-cases (eq_text entry.0 key)) [
    | inl e ↦ rw e (other.1, h.1)
    | inr e ↦
        let apart : Other entry.1 (key, value) = λ same. other.0 (sym same.0, sym same.1) in
        rw e (
          All-insert (Other entry.1) key value tasks apart h.0,
          insert-HasOneEach key value tasks other.1 h.1,
        )
  ]

  pub find_task-none :
      (meta : ServerTaskMeta D) (tasks : Registry D)
      → find_task (λ task. same_target task meta) tasks ≡ none
      → All (Other meta) tasks
  find_task-none meta [] h = tt
  find_task-none meta (entry ∷ tasks) h = elim (Bool-cases (same_target entry.1 meta)) [
    | inl e ↦ let k = rw e at h in cc
    | inr e ↦ (same_target-Other entry.1 meta e, find_task-none meta tasks (rw e at h))
  ]

  reserve_task-HasOneEach :
      (meta : ServerTaskMeta D) (tasks : Registry D)
      → HasOneEach tasks
      → HasOneEach (reserve_task meta tasks).0
  unfolding reserve_task insert_unique
  reserve_task-HasOneEach meta tasks h =
      elim (Option-cases (find_task (λ task. same_target task meta) tasks)) [
        | inl e ↦ rw e (insert-HasOneEach meta.task_id meta tasks (find_task-none meta tasks e) h)
        | inr (existing, e) ↦ rw e h
      ]

  on_reserved-tasks :
      (s : ServerState D) (telegram_id : ℕ) (request_id : Text) (goal : Text × Bool)
      (reserved : Registry D × Result Text Text)
      → (on_reserved s telegram_id request_id goal reserved).0.tasks ≡ reserved.0
  on_reserved-tasks s telegram_id request_id goal (tasks, err id) = refl
  on_reserved-tasks s telegram_id request_id goal (tasks, ok id) = refl

  on_cached-HasOneEach :
      (s : ServerState D) (telegram_id : ℕ) (request_id : Text) (goal : Text × Bool)
      (meta : ServerTaskMeta D) (answer : Option (Bool × Option ℕ))
      → HasOneEach s.tasks
      → HasOneEach (on_cached s telegram_id request_id goal meta answer).0.tasks
  on_cached-HasOneEach s telegram_id request_id goal meta none h = h
  on_cached-HasOneEach s telegram_id request_id goal meta (some (true, track)) h = h
  on_cached-HasOneEach s telegram_id request_id goal meta (some (false, track)) h =
      rw (on_reserved-tasks s telegram_id request_id goal (reserve_task meta s.tasks))
        (reserve_task-HasOneEach meta s.tasks h)

  on_target-HasOneEach :
      (database : Database) (new_id : Text) (details : D) (s : ServerState D) (telegram_id : ℕ)
      (request_id : Text) (goal : Option (Text × Bool))
      → HasOneEach s.tasks
      → HasOneEach (on_target database new_id details s telegram_id request_id goal).0.tasks
  on_target-HasOneEach database new_id details s telegram_id request_id none h = h
  on_target-HasOneEach database new_id details s telegram_id request_id (some goal) h =
      on_cached-HasOneEach s telegram_id request_id goal (new_task new_id telegram_id goal details)
        (cached database goal) h

  on_removed-tasks :
      (s : ServerState D) (request_id task_id : Text)
      (removed : Registry D × Result (Option (ServerTaskMeta D)) TaskRemovalRejected)
      → (on_removed s request_id task_id removed).0.tasks ≡ removed.0
  on_removed-tasks s request_id task_id (tasks, ok none) = refl
  on_removed-tasks s request_id task_id (tasks, ok (some task)) = refl
  on_removed-tasks s request_id task_id (tasks, err rejected) = refl

  removed_if-HasOneEach :
      (task_id : Text) (allow : ServerTaskMeta D → Bool) (tasks : Registry D)
      (found : Option (ServerTaskMeta D))
      → HasOneEach tasks
      → HasOneEach (removed_if task_id allow tasks found).0
  removed_if-HasOneEach task_id allow tasks none h = h
  removed_if-HasOneEach task_id allow tasks (some task) h = elim (Bool-cases (allow task)) [
    | inl e ↦ rw e (remove-HasOneEach task_id tasks h)
    | inr e ↦ rw e h
  ]

-- What a client asks for.
pub data TaskEvent (D : Type 0) : Type 0 where
  create :
      (database : Database) (new_id : Text) (details : D) (telegram_id : ℕ) (request_id : Text)
      (request : RipTaskRequest)
      → TaskEvent D
  cancel : (telegram_id : ℕ) (request_id task_id : Text) → TaskEvent D

module _ {D : Type 0} where
  -- `handle_request`.
  unfoldable pub handle_request :
      ServerState D → TaskEvent D → ServerState D × Result RipTaskRpcSuccess RipTaskRpcError
  unfolding create_task cancel_task
  handle_request s (create database new_id details telegram_id request_id request) =
      create_task database new_id details s telegram_id request_id request
  handle_request s (cancel telegram_id request_id task_id) =
      cancel_task s telegram_id request_id task_id

  unfoldable pub after_requests : List (TaskEvent D) → ServerState D → ServerState D
  unfolding handle_request
  after_requests [] s = s
  after_requests (event ∷ events) s = after_requests events (handle_request s event).0

  handle_request-HasOneEach :
      (s : ServerState D) (event : TaskEvent D)
      → HasOneEach s.tasks
      → HasOneEach (handle_request s event).0.tasks
  unfolding handle_request create_task cancel_task remove_if
  handle_request-HasOneEach s (create database new_id details telegram_id request_id request) h =
      elim (Bool-cases (is_empty (trim request_id))) [
        | inl e ↦ rw e h
        | inr e ↦ rw e (
            on_target-HasOneEach database new_id details s telegram_id request_id (target request)
              h)
      ]
  handle_request-HasOneEach s (cancel telegram_id request_id task_id) h =
      elim (Bool-cases (is_empty (trim request_id) || is_empty (trim task_id))) [
        | inl e ↦ rw e h
        | inr e ↦
            let allow = is_authorized telegram_id s.admin_id in
            let removed = removed_if task_id allow s.tasks (lookup task_id s.tasks) in
            rw (e, on_removed-tasks s request_id task_id removed)
              (removed_if-HasOneEach task_id allow s.tasks (lookup task_id s.tasks) h)
      ]

  -- Whatever clients create and cancel, in whatever order, no two tasks in flight are for one target:
  -- the same track, or the same album.
  pub after_requests-HasOneEach :
      (events : List (TaskEvent D)) (s : ServerState D)
      → HasOneEach s.tasks
      → HasOneEach (after_requests events s).tasks
  unfolding after_requests
  after_requests-HasOneEach [] s h = h
  after_requests-HasOneEach (event ∷ events) s h =
      after_requests-HasOneEach events (handle_request s event).0
        (handle_request-HasOneEach s event h)
