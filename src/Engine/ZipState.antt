-- ===== src/Engine/ZipState.antt =====
-- crates/engine/src/orchestrator/zip_state.rs: the ledger of dump messages, the first error and the
-- codec of an archive. The ids of messages are numbers; every operation runs under its own lock.
pub mod Ledger
pub mod Seed
mod Tests
use peerless_server.Prelude.{
  ℕ, ◌+◌, List, [], ◌∷◌, ◌++◌, Option, none, some, Bool, true, ◌==◌, ltb, if◌then◌else◌, Text, ◌>>◌,
}
use peerless_server.Music.{Codec, alac, ec3, aac, as_str, from_str}

-- What the functions keep in the `TaskContext`.
pub record TaskContext : Type 0 where
  pub zip_new_dump_messages : List ℕ
  pub primary_zip_error : Option Text

abbrev pub or_first : Option Text → Text → Text
or_first none error = error
or_first (some first) error = first

unfoldable pub set_primary_zip_error : TaskContext → Text → TaskContext
set_primary_zip_error ctx error = record ctx {
  primary_zip_error = some (or_first ctx.primary_zip_error error);
}

unfoldable pub remember_zip_dump_message : TaskContext → ℕ → TaskContext
remember_zip_dump_message ctx message_id = record ctx {
  zip_new_dump_messages = ctx.zip_new_dump_messages ++ message_id ∷ [];
}

-- `position` and `remove` of the first occurrence, if there is one.
unfoldable pub remove_first : ℕ → List ℕ → List ℕ
remove_first message_id [] = []
remove_first message_id (pending_id ∷ pending) =
    let rest = remove_first message_id pending in
    if pending_id == message_id then pending else pending_id ∷ rest

unfoldable pub remove_all : List ℕ → List ℕ → List ℕ
unfolding remove_first
remove_all [] pending = pending
remove_all (message_id ∷ committed) pending = remove_all committed (remove_first message_id pending)

unfoldable pub transfer_zip_dump_messages : TaskContext → List ℕ → TaskContext
unfolding remove_all
transfer_zip_dump_messages ctx committed = record ctx {
  zip_new_dump_messages = remove_all committed ctx.zip_new_dump_messages;
}

unfoldable pub take_uncommitted_zip_dump_messages : TaskContext → List ℕ × TaskContext
take_uncommitted_zip_dump_messages ctx =
    (ctx.zip_new_dump_messages, record ctx { zip_new_dump_messages = [] })

abbrev pub rank : Codec → ℕ
rank alac = 3
rank ec3 = 2
rank aac = 1

abbrev pub outranks : Codec → Option Codec → Bool
outranks codec none = true
outranks codec (some existing) = ltb (rank existing) (rank codec)

unfoldable pub seed_zip_codec : Option Text → Codec → Option Text
seed_zip_codec current codec =
    if outranks codec (current >> from_str) then some (as_str codec) else current
