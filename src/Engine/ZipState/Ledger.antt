-- ===== src/Engine/ZipState/Ledger.antt =====
-- The ledger of dump messages in crates/engine/src/orchestrator/zip_state.rs.
use peerless_server.Prelude.{
  ℕ, ◌+◌, ◌-◌, ◌≡◌, refl, ap, sym, ◌∙◌, List, [], ◌∷◌, ◌++◌, inl, inr, ◌==◌, if◌then◌else◌,
  Bool-cases, arith,
}
use peerless_server.Engine.ZipState.{
  TaskContext, remember_zip_dump_message, remove_first, remove_all, transfer_zip_dump_messages,
  take_uncommitted_zip_dump_messages,
}

-- How often an id stands in a list.
unfoldable pub occurrences : ℕ → List ℕ → ℕ
occurrences x [] = 0
occurrences x (y ∷ ys) = (if y == x then 1 else 0) + occurrences x ys

-- A message is uploaded, or some are committed by the database.
pub data LedgerEvent : Type 0 where
  remembered : ℕ → LedgerEvent
  transferred : List ℕ → LedgerEvent

abbrev pub ledger_step : LedgerEvent → TaskContext → TaskContext
ledger_step (remembered message_id) ctx = remember_zip_dump_message ctx message_id
ledger_step (transferred committed) ctx = transfer_zip_dump_messages ctx committed

abbrev pub ledger_run : List LedgerEvent → TaskContext → TaskContext
ledger_run [] ctx = ctx
ledger_run (event ∷ events) ctx = ledger_run events (ledger_step event ctx)

-- The abstract view: for each id the number of uploads that no commit has settled.
abbrev pub outstanding_step : ℕ → LedgerEvent → ℕ → ℕ
outstanding_step x (remembered message_id) n = n + (if message_id == x then 1 else 0)
outstanding_step x (transferred committed) n = n - occurrences x committed

abbrev pub outstanding : ℕ → List LedgerEvent → ℕ → ℕ
outstanding x [] n = n
outstanding x (event ∷ events) n = outstanding x events (outstanding_step x event n)

occurrences-append :
    (x : ℕ) (ys zs : List ℕ) → occurrences x (ys ++ zs) ≡ occurrences x ys + occurrences x zs
unfolding occurrences
occurrences-append x [] zs = omega arith
occurrences-append x (y ∷ ys) zs = omega (arith, occurrences-append x ys zs)

occurrences-remove_first :
    (x message_id : ℕ) (ys : List ℕ)
    → occurrences x (remove_first message_id ys)
      ≡ occurrences x ys - (if message_id == x then 1 else 0)
unfolding occurrences remove_first
occurrences-remove_first x message_id [] = omega arith
occurrences-remove_first x message_id (y ∷ ys) = elim (Bool-cases (y == message_id)) [
  | inl e ↦
      let same : y ≡ message_id = ground arith in rw (remove_first, e) (rw same (ground arith))
  | inr e ↦
      let ih = occurrences-remove_first x message_id ys in rw (remove_first, e) (ground (arith, ih))
]

occurrences-remove_all :
    (x : ℕ) (committed ys : List ℕ)
    → occurrences x (remove_all committed ys) ≡ occurrences x ys - occurrences x committed
unfolding occurrences remove_all
occurrences-remove_all x [] ys = omega arith
occurrences-remove_all x (message_id ∷ committed) ys = omega (
  arith,
  occurrences-remove_all x committed (remove_first message_id ys),
  occurrences-remove_first x message_id ys,
)

ledger_run-outstanding :
    (x : ℕ) (events : List LedgerEvent) (ctx : TaskContext)
    → occurrences x (ledger_run events ctx).zip_new_dump_messages
      ≡ outstanding x events (occurrences x ctx.zip_new_dump_messages)
unfolding remember_zip_dump_message transfer_zip_dump_messages occurrences
ledger_run-outstanding x [] ctx = refl
ledger_run-outstanding x (remembered message_id ∷ events) ctx =
    let e = occurrences-append x ctx.zip_new_dump_messages (message_id ∷ []) in
    let one : occurrences x (ctx.zip_new_dump_messages ++ message_id ∷ [])
        ≡ occurrences x ctx.zip_new_dump_messages + (if message_id == x then 1 else 0) =
      omega (arith, e) in
    rw (sym one) (ledger_run-outstanding x events (remember_zip_dump_message ctx message_id))
ledger_run-outstanding x (transferred committed ∷ events) ctx =
    rw (sym (occurrences-remove_all x committed ctx.zip_new_dump_messages))
      (ledger_run-outstanding x events (transfer_zip_dump_messages ctx committed))

-- In every history of uploads and commits, the messages taken at the end as uncommitted are, counted
-- with repetitions, the uploads that no later commit names; the ledger is empty afterwards.
pub take_uncommitted_zip_dump_messages-outstanding :
    (events : List LedgerEvent) (ctx : TaskContext)
    → ctx.zip_new_dump_messages ≡ []
    → ((x : ℕ)
        → occurrences x (take_uncommitted_zip_dump_messages (ledger_run events ctx)).0
          ≡ outstanding x events 0)
      × ((take_uncommitted_zip_dump_messages (ledger_run events ctx)).1.zip_new_dump_messages ≡ [])
unfolding take_uncommitted_zip_dump_messages occurrences
take_uncommitted_zip_dump_messages-outstanding events ctx h = (
  (λ x. ledger_run-outstanding x events ctx ∙ ap (λ l. outstanding x events (occurrences x l)) h),
  refl,
)
