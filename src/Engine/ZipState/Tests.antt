-- ===== src/Engine/ZipState/Tests.antt =====
-- Runs of the ledger and of the codec of an archive in crates/engine/src/orchestrator/zip_state.rs.
use peerless_server.Prelude.{ℕ, ◌≡◌, refl, List, [], ◌∷◌, none, some, text}
use peerless_server.Music.{Codec, alac, ec3, aac}
use peerless_server.Engine.ZipState.{
  TaskContext, set_primary_zip_error, remember_zip_dump_message, remove_first, remove_all,
  transfer_zip_dump_messages, take_uncommitted_zip_dump_messages,
}
use peerless_server.Engine.ZipState.Ledger.{
  LedgerEvent, remembered, transferred, ledger_run, occurrences, outstanding,
  take_uncommitted_zip_dump_messages-outstanding,
}

abbrev no_messages : TaskContext
no_messages = record { zip_new_dump_messages = []; primary_zip_error = none }

set_primary_zip_error_twice :
    (set_primary_zip_error
      (set_primary_zip_error no_messages (text "first"))
      (text "second")).primary_zip_error
    ≡ some (text "first")
unfolding set_primary_zip_error
set_primary_zip_error_twice = refl

-- Message 4 is uploaded behind the commit that names it.
abbrev two_commits : List LedgerEvent
two_commits =
    remembered 3
    ∷ remembered 5
    ∷ transferred (5 ∷ 4 ∷ [])
    ∷ remembered 4
    ∷ remembered 9
    ∷ transferred (3 ∷ [])
    ∷ []

ledger_run-two_commits : (ledger_run two_commits no_messages).zip_new_dump_messages ≡ 4 ∷ 9 ∷ []
unfolding remember_zip_dump_message transfer_zip_dump_messages remove_all remove_first
ledger_run-two_commits = refl

take_uncommitted_zip_dump_messages-outstanding_example :
    ((x : ℕ)
      → occurrences x (take_uncommitted_zip_dump_messages (ledger_run two_commits no_messages)).0
        ≡ outstanding x two_commits 0)
    × ((take_uncommitted_zip_dump_messages
          (ledger_run two_commits no_messages)).1.zip_new_dump_messages
        ≡ [])
take_uncommitted_zip_dump_messages-outstanding_example =
    take_uncommitted_zip_dump_messages-outstanding two_commits no_messages refl

abbrev mixed : List Codec
mixed = ec3 ∷ alac ∷ aac ∷ []
