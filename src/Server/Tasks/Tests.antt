-- ===== src/Server/Tasks/Tests.antt =====
-- Two users and a few tasks: the theorems at concrete inputs.
use peerless_server.Prelude.{
  ℕ, ◌<◌, ◌≡◌, refl, true, false, List, [], ◌∷◌, none, some, All, Text, text, eq_text, length,
}
use peerless_server.Server.Tasks.{ServerTaskMeta}
use peerless_server.Server.Tasks.Lookup.{
  Album, pos, to_usize, is_same_archive, all_unseen, has_complete_archive_parts,
}
use peerless_server.Server.Tasks.Lookup.Parts.{PartOf, has_complete_archive_parts-PartOf}
use peerless_server.Server.Tasks.Rpc.{ServerState, RipTaskRequest, Database, cancel_task, new_task}
use peerless_server.Server.Tasks.Targets.{
  TaskEvent, create, cancel, HasOneEach, after_requests, after_requests-HasOneEach,
}
use peerless_server.Server.Tasks.Requests.{Cancelled, cancel_task-Cancelled}

abbrev part : ℕ → Album
part n = record { total_parts = pos 2; part_index = pos n; generation_hash = text "g" }

complete : has_complete_archive_parts (part 2 ∷ part 1 ∷ []) ≡ true
unfolding has_complete_archive_parts all_unseen eq_text
complete = refl

has_complete_archive_parts-PartOf_example :
    (to_usize (part 2).total_parts ≡ some (length (part 2 ∷ part 1 ∷ [])))
    × ((i : ℕ) → i < length (part 2 ∷ part 1 ∷ []) → PartOf (part 2 ∷ part 1 ∷ []) i)
    × All (λ p. is_same_archive (part 2) p ≡ true) (part 2 ∷ part 1 ∷ [])
has_complete_archive_parts-PartOf_example =
    has_complete_archive_parts-PartOf (part 2) (part 1 ∷ []) complete

abbrev database : Database
database = record { album_parts = λ id. some []; tracks = λ id. some [] }

abbrev server : ServerState ℕ
server = record { tasks = []; admin_id = 1; effects = [] }

abbrev request : RipTaskRequest
request = record { track_id = some (text "t"); album_id = none }

abbrev requests : List (TaskEvent ℕ)
requests =
    create database (text "x") 0 7 (text "r") request
    ∷ create database (text "y") 0 8 (text "r") request
    ∷ cancel 8 (text "r") (text "x")
    ∷ []

after_requests-HasOneEach_example : HasOneEach (after_requests requests server).tasks
after_requests-HasOneEach_example = after_requests-HasOneEach requests server tt

abbrev task : Text → ServerTaskMeta ℕ
task id = new_task id 7 (text "t", false) 0

cancel_task-Cancelled_example :
    Cancelled
      (after_requests requests server)
      7
      (text "r")
      (text "x")
      (cancel_task (after_requests requests server) 7 (text "r") (text "x"))
cancel_task-Cancelled_example =
    cancel_task-Cancelled (after_requests requests server) 7 (text "r") (text "x")
