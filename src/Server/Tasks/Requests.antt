-- ===== src/Server/Tasks/Requests.antt =====
-- What requests of crates/server/src/rip_task_rpc.rs promise: one task for one target, and who may cancel.
use peerless_server.Prelude.{
  ℕ, ◌≡◌, refl, ◌∙◌, ◌⊎◌, inl, inr, true, false, ◌||◌, [], ◌∷◌, ◌++◌, none, some, if◌then◌else◌,
  Result, ok, err, Bool-cases, Option-cases, Text, eq_text, eq_text_refl, insert, lookup,
  lookup-remove, trim,
}
use peerless_server.Stream.Pipe.{is_empty}
use peerless_server.Server.Tasks.{ServerTaskMeta, Registry, find_task, insert_unique, remove_if}
use peerless_server.Server.Tasks.Rpc.{
  RipTaskRpcSuccess, cancelled, RipTaskRpcError, RipTaskRpcErrorCode, validation, not_found,
  not_authorized, ServerState, same_target, reserve_task, is_authorized, cancel_task, stopped,
  map_server_error,
}

-- The id of the task of a target, new or not.
abbrev pub reserved_id : Result Text Text → Text
reserved_id (ok task_id) = task_id
reserved_id (err existing_task_id) = existing_task_id

module _ {D : Type 0} where
  same_target_refl : (a : ServerTaskMeta D) → same_target a a ≡ true
  same_target_refl a = elim (Bool-cases a.is_album) [
    | inl e ↦ rw (e, eq_text_refl a.track_id) refl
    | inr e ↦ rw (e, eq_text_refl a.track_id) refl
  ]

  find_task-insert :
      (key : Text) (meta : ServerTaskMeta D) (tasks : Registry D)
      → find_task (λ task. same_target task meta) tasks ≡ none
      → find_task (λ task. same_target task meta) (insert key meta tasks) ≡ some meta
  find_task-insert key meta [] h = rw (same_target_refl meta) refl
  find_task-insert key meta (entry ∷ tasks) h = elim (Bool-cases (same_target entry.1 meta)) [
    | inl e ↦ let k = rw e at h in cc
    | inr e ↦ elim (Bool-cases (eq_text entry.0 key)) [
      | inl f ↦ rw (f, same_target_refl meta) refl
      | inr f ↦ rw (f, e) (find_task-insert key meta tasks (rw e at h))
    ]
  ]

  reserve_task-find :
      (meta : ServerTaskMeta D) (tasks : Registry D)
      → (task : ServerTaskMeta D) × (find_task
            (λ other. same_target other meta)
            (reserve_task meta tasks).0
          ≡ some task)
        × (task.task_id ≡ reserved_id (reserve_task meta tasks).1)
  unfolding reserve_task insert_unique
  reserve_task-find meta tasks =
      elim (Option-cases (find_task (λ task. same_target task meta) tasks)) [
        | inl e ↦ rw e (meta, find_task-insert meta.task_id meta tasks e, refl)
        | inr (existing, e) ↦ rw (e, e) (existing, refl, refl)
      ]

  find_task-same :
      (a b : ServerTaskMeta D) (tasks : Registry D)
      → ((task : ServerTaskMeta D) → same_target task a ≡ same_target task b)
      → find_task (λ task. same_target task a) tasks ≡ find_task (λ task. same_target task b) tasks
  find_task-same a b [] h = refl
  find_task-same a b (entry ∷ tasks) h = elim (Bool-cases (same_target entry.1 b)) [
    | inl e ↦ let k = h entry.1 ∙ e in rw (k, e) refl
    | inr e ↦ let k = h entry.1 ∙ e in rw (k, e) (find_task-same a b tasks h)
  ]

  -- A second request for the same target, by whomever, changes nothing and is given the id of the task
  -- that the first one found or made.
  reserve_task-again :
      (meta again : ServerTaskMeta D) (tasks : Registry D)
      → again.is_album ≡ meta.is_album
      → again.track_id ≡ meta.track_id
      → reserve_task again (reserve_task meta tasks).0
        ≡ ((reserve_task meta tasks).0, err (reserved_id (reserve_task meta tasks).1))
  unfolding reserve_task insert_unique
  reserve_task-again meta again tasks h k =
      let (task, e, id) = reserve_task-find meta tasks in
      let after = (reserve_task meta tasks).0 in
      let same = find_task-same again meta after (λ other. rw (h, k) refl) in
      let found = same ∙ e in rw (found, id) refl

  -- What a cancellation does: it removes the task of that id and stops it, if the caller owns it or is the
  -- administrator, and no other task; otherwise nothing changes, and the error says why.
  abbrev pub Cancelled :
      ServerState D
      → ℕ
      → Text
      → Text
      → ServerState D × Result RipTaskRpcSuccess RipTaskRpcError
      → Type 0
  Cancelled s user_id request_id task_id (s', result) =
      ((task : ServerTaskMeta D) × (lookup task_id s.tasks ≡ some task)
        × (is_authorized user_id s.admin_id task ≡ true)
        × (result ≡ ok (cancelled request_id task_id))
        × (s'.effects ≡ s.effects ++ stopped task_id task)
        × ((other : Text)
            → lookup other s'.tasks
              ≡ (if eq_text task_id other then none else lookup other s.tasks)))
      ⊎ ((code : RipTaskRpcErrorCode) × (s' ≡ s)
          × (result ≡ err (record { request_id = some request_id; code = code }))
          × (((code ≡ validation)
                × ((is_empty (trim request_id) || is_empty (trim task_id)) ≡ true))
              ⊎ (((code ≡ not_found) × (lookup task_id s.tasks ≡ none))
                  ⊎ ((code ≡ not_authorized)
                      × ((task : ServerTaskMeta D) × (lookup task_id s.tasks ≡ some task)
                          × (is_authorized user_id s.admin_id task ≡ false))))))

  -- Only the owner of a task or the administrator cancels it, and only the task of that id goes: every
  -- other cancellation leaves the registry as it is, with the error of an empty id, of a task that is not
  -- there, or of a caller who may not.
  pub cancel_task-Cancelled :
      (s : ServerState D) (user_id : ℕ) (request_id task_id : Text)
      → Cancelled s user_id request_id task_id (cancel_task s user_id request_id task_id)
  unfolding cancel_task remove_if map_server_error
  cancel_task-Cancelled s user_id request_id task_id =
      elim (Bool-cases (is_empty (trim request_id) || is_empty (trim task_id))) [
        | inl e ↦ rw e (inr (validation, refl, refl, inl (refl, refl)))
        | inr e ↦ elim (Option-cases (lookup task_id s.tasks)) [
          | inl l ↦ rw (e, l) (inr (not_found, refl, refl, inr (inl (refl, refl))))
          | inr (task, l) ↦ elim (Bool-cases (is_authorized user_id s.admin_id task)) [
            | inl a ↦
                rw (e, l, a)
                  (inl (task, refl, a, refl, refl, λ other. lookup-remove other task_id s.tasks))
            | inr a ↦
                rw (e, l, a) (inr (not_authorized, refl, refl, inr (inr (refl, (task, refl, a)))))
          ]
        ]
      ]
