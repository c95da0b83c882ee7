-- ===== src/Server/Tasks/Rpc.antt =====
-- `create_task` and `cancel_task` of crates/server/src/rip_task_rpc.rs. The answers of the database, the new
-- id and the descriptive fields of a new task are arguments.
use peerless_server.Prelude.{
  ℕ, Bool, true, false, not, ◌&&◌, ◌||◌, List, [], ◌∷◌, ◌++◌, Option, none, some, ◌==◌,
  if◌then◌else◌, Result, ok, err, Text, eq_text, trim,
}
use peerless_server.Stream.Pipe.{is_empty}
use peerless_server.Server.Tasks.{
  ServerTaskMeta, TaskRemovalRejected, rejected, Registry, remove_if, insert_unique,
}
use peerless_server.Server.Tasks.Lookup.{Album, has_complete_archive_parts}

pub data RipTaskRpcErrorCode : Type 0 where
  validation not_found not_authorized temporarily_unavailable internal : RipTaskRpcErrorCode

abbrev pub retryable : RipTaskRpcErrorCode → Bool
retryable validation = false
retryable not_found = false
retryable not_authorized = false
retryable temporarily_unavailable = true
retryable internal = false

pub data ServerError : Type 0 where
  bad_request not_found_error unauthorized forbidden internal_error : ServerError

unfoldable pub map_server_error : ServerError → RipTaskRpcErrorCode
map_server_error bad_request = validation
map_server_error not_found_error = not_found
map_server_error unauthorized = not_authorized
map_server_error forbidden = not_authorized
map_server_error internal_error = internal

pub data RipTaskRpcStatus : Type 0 where
  queued completed_status : RipTaskRpcStatus

pub data RipTaskRpcSuccess : Type 0 where
  created :
      (request_id task_id : Text) (status : RipTaskRpcStatus) (result_track_id : Option ℕ)
      → RipTaskRpcSuccess
  cancelled : (request_id task_id : Text) → RipTaskRpcSuccess

pub record RipTaskRpcError : Type 0 where
  pub request_id : Option Text
  pub code : RipTaskRpcErrorCode

-- What a request does besides: the events of the task channel, the runner that is started, and what a
-- cancellation stops.
pub data Effect : Type 0 where
  updated_event dismissed_event : (task_id : Text) → Effect
  dispatched : (task_id target_id : Text) (is_album : Bool) (telegram_id : ℕ) → Effect
  controller_cancelled : (task_id : Text) → Effect
  orchestrator_cancelled : (rip_task_id : Text) → Effect

pub record ServerState (D : Type 0) : Type 0 where
  pub tasks : Registry D
  pub admin_id : ℕ
  pub effects : List Effect

pub record RipTaskRequest : Type 0 where
  pub track_id : Option Text
  pub album_id : Option Text

abbrev pub non_blank : Option Text → Option Text
non_blank none = none
non_blank (some id) = if is_empty (trim id) then none else some (trim id)

abbrev pub target_or_track : Option Text → Option Text → Option (Text × Bool)
target_or_track (some album_id) track = some (album_id, true)
target_or_track none (some track_id) = some (track_id, false)
target_or_track none none = none

unfoldable pub target : RipTaskRequest → Option (Text × Bool)
unfolding trim
target request = target_or_track (non_blank request.album_id) (non_blank request.track_id)

pub data Codec : Type 0 where
  alac aac other_codec : Codec

abbrev pub is_codec : Codec → Codec → Bool
is_codec alac alac = true
is_codec aac aac = true
is_codec other_codec other_codec = true
is_codec _ _ = false

-- What the database knows of the target: parts of albums and tracks by their codecs. `none` is an error.
pub record Database : Type 0 where
  pub album_parts : Text → Option (List (Codec × Album))
  pub tracks : Text → Option (List (Codec × ℕ))

abbrev pub of_codec {ℓ} : {A : Type ℓ} → Codec → List (Codec × A) → List A
of_codec codec [] = []
of_codec codec (entry ∷ entries) =
    let rest = of_codec codec entries in if is_codec entry.0 codec then entry.1 ∷ rest else rest

abbrev pub head : List ℕ → Option ℕ
head [] = none
head (n ∷ ns) = some n

abbrev pub or_track : Option ℕ → Option ℕ → Option ℕ
or_track none other = other
or_track (some n) other = some n

abbrev pub cached_album : Option (List (Codec × Album)) → Option (Bool × Option ℕ)
cached_album none = none
cached_album (some parts) = some (
  has_complete_archive_parts (of_codec alac parts)
      || has_complete_archive_parts (of_codec aac parts),
  none,
)

abbrev pub found_track : Option ℕ → Bool × Option ℕ
found_track none = (false, none)
found_track (some id) = (true, some id)

abbrev pub cached_track : Option (List (Codec × ℕ)) → Option (Bool × Option ℕ)
cached_track none = none
cached_track (some tracks) =
    some (found_track (or_track (head (of_codec alac tracks)) (head (of_codec aac tracks))))

-- Whether the target is stored, and as which track; `none` is an error of the database.
unfoldable pub cached : Database → Text × Bool → Option (Bool × Option ℕ)
unfolding has_complete_archive_parts
cached database (target_id, true) = cached_album (database.album_parts target_id)
cached database (target_id, false) = cached_track (database.tracks target_id)

abbrev pub same_bool : Bool → Bool → Bool
same_bool true b = b
same_bool false b = not b

abbrev pub same_target : {D : Type 0} → ServerTaskMeta D → ServerTaskMeta D → Bool
same_target existing candidate =
    same_bool existing.is_album candidate.is_album && eq_text existing.track_id candidate.track_id

module _ {D : Type 0} where
  unfoldable pub reserve_task : ServerTaskMeta D → Registry D → Registry D × Result Text Text
  unfolding insert_unique
  reserve_task meta tasks = insert_unique meta same_target tasks

  abbrev pub new_task : Text → ℕ → Text × Bool → D → ServerTaskMeta D
  new_task task_id telegram_id (target_id, is_album) details = record {
    task_id = task_id;
    rip_task_id = [];
    owner_id = telegram_id;
    track_id = target_id;
    is_album = is_album;
    completed = false;
    result_track_id = none;
    details = details;
  }

  abbrev pub refuse :
      ServerState D
      → Text
      → RipTaskRpcErrorCode
      → ServerState D × Result RipTaskRpcSuccess RipTaskRpcError
  refuse s request_id code = (s, err (record { request_id = some request_id; code = code }))

  -- The task is new, and the runner starts; or there is one for the target, and its id is the answer.
  abbrev pub on_reserved :
      ServerState D
      → ℕ
      → Text
      → Text × Bool
      → Registry D × Result Text Text
      → ServerState D × Result RipTaskRpcSuccess RipTaskRpcError
  on_reserved s telegram_id request_id goal (tasks, err existing_task_id) =
      (record s { tasks = tasks }, ok (created request_id existing_task_id queued none))
  on_reserved s telegram_id request_id goal (tasks, ok task_id) = (
    record s {
      tasks = tasks;
      effects =
          s.effects ++ updated_event task_id ∷ dispatched task_id goal.0 goal.1 telegram_id ∷ [];
    },
    ok (created request_id task_id queued none),
  )

  abbrev pub on_cached :
      ServerState D
      → ℕ
      → Text
      → Text × Bool
      → ServerTaskMeta D
      → Option (Bool × Option ℕ)
      → ServerState D × Result RipTaskRpcSuccess RipTaskRpcError
  on_cached s telegram_id request_id goal meta none = refuse s request_id temporarily_unavailable
  on_cached s telegram_id request_id goal meta (some (true, track)) =
      (s, ok (created request_id [] completed_status track))
  on_cached s telegram_id request_id goal meta (some (false, track)) =
      on_reserved s telegram_id request_id goal (reserve_task meta s.tasks)

  abbrev pub on_target :
      Database
      → Text
      → D
      → ServerState D
      → ℕ
      → Text
      → Option (Text × Bool)
      → ServerState D × Result RipTaskRpcSuccess RipTaskRpcError
  on_target database new_id details s telegram_id request_id none = refuse s request_id validation
  on_target database new_id details s telegram_id request_id (some goal) =
      on_cached s telegram_id request_id goal (new_task new_id telegram_id goal details)
        (cached database goal)

  unfoldable pub create_task :
      Database
      → Text
      → D
      → ServerState D
      → ℕ
      → Text
      → RipTaskRequest
      → ServerState D × Result RipTaskRpcSuccess RipTaskRpcError
  unfolding trim target cached reserve_task
  create_task database new_id details s telegram_id request_id request =
      if is_empty (trim request_id)
      then refuse s request_id validation
      else on_target database new_id details s telegram_id request_id (target request)

  abbrev pub is_authorized : ℕ → ℕ → ServerTaskMeta D → Bool
  is_authorized user_id admin_id task = user_id == task.owner_id || user_id == admin_id

  abbrev pub stopped : Text → ServerTaskMeta D → List Effect
  stopped task_id task =
      dismissed_event task_id
      ∷ controller_cancelled task.task_id
      ∷ (if is_empty task.rip_task_id then [] else orchestrator_cancelled task.rip_task_id ∷ [])

  -- `remove_task_if_authorized` gives no task, the task, or a refusal.
  abbrev pub on_removed :
      ServerState D
      → Text
      → Text
      → Registry D × Result (Option (ServerTaskMeta D)) TaskRemovalRejected
      → ServerState D × Result RipTaskRpcSuccess RipTaskRpcError
  on_removed s request_id task_id (tasks, ok none) =
      refuse (record s { tasks = tasks }) request_id (map_server_error not_found_error)
  on_removed s request_id task_id (tasks, err rejected) =
      refuse (record s { tasks = tasks }) request_id (map_server_error forbidden)
  on_removed s request_id task_id (tasks, ok (some task)) = (
    record s { tasks = tasks; effects = s.effects ++ stopped task_id task },
    ok (cancelled request_id task_id),
  )

  unfoldable pub cancel_task :
      ServerState D → ℕ → Text → Text → ServerState D × Result RipTaskRpcSuccess RipTaskRpcError
  unfolding trim remove_if map_server_error
  cancel_task s telegram_id request_id task_id =
      if is_empty (trim request_id) || is_empty (trim task_id)
      then refuse s request_id validation
      else on_removed s request_id task_id
          (remove_if task_id (is_authorized telegram_id s.admin_id) s.tasks)
