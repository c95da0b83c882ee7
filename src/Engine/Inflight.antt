-- ===== src/Engine/Inflight.antt =====
-- Jobs for one target at a time: `InflightGuard` of crates/engine/src/orchestrator/inflight.rs and the
-- loop of `submit` in crates/engine/src/orchestrator/mod.rs, a step for each critical section. A job is
-- known by its place in the list of jobs, and so is the entry that it puts into the table.
pub mod Keys
pub mod Table
pub mod Held
pub mod Exclusive
pub mod Overlap
pub mod Frame
pub mod Stuck
pub mod Wakeup
mod Tests
use peerless_server.Prelude.{
  ℕ, zero, suc, ◌==◌, List, [], ◌∷◌, ◌++◌, map, Option, none, some, Bool, true, false,
  if◌then◌else◌, Text, set, get_elem?,
}
use peerless_server.Music.{ParsedTargetItem}
use peerless_server.Engine.Inflight.Keys.{InflightTargetKey, same_key, has_key}

-- The table is a `HashMap`: what is inserted last hides what was there.
abbrev pub Table : Type 0
Table = List (InflightTargetKey × ℕ)

unfoldable pub get : Table → InflightTargetKey → Option ℕ
get [] key = none
get (item ∷ items) key = if same_key item.0 key then some item.1 else get items key

unfoldable pub insert_all : List InflightTargetKey → ℕ → Table → Table
insert_all [] entry items = items
insert_all (key ∷ keys) entry items = insert_all keys entry ((key, entry) ∷ items)

unfoldable pub remove_key : InflightTargetKey → Table → Table
remove_key key [] = []
remove_key key (item ∷ items) =
    let rest = remove_key key items in if same_key item.0 key then rest else item ∷ rest

unfoldable pub remove_keys : List InflightTargetKey → Table → Table
remove_keys [] items = items
remove_keys (key ∷ keys) items = remove_keys keys (remove_key key items)

-- Where the task of a job stands: before the look into the table; behind it, with no entry found; with
-- the entry of another job, before and behind `notified()`; in `run_job`; behind the removal of its
-- keys, before `notify_waiters`; at its end. The token `is_cancelled` stays set.
pub data Phase : Type 0 where
  checking claiming running releasing done cancelled : Phase
  arriving listening : ℕ → Phase

pub record Job : Type 0 where
  pub target_keys : List InflightTargetKey
  pub phase : Phase
  pub success : Bool
  pub is_cancelled : Bool

pub record Orchestrator : Type 0 where
  pub inflight_items : Table
  pub jobs : List Job

abbrev pub or_else : Option Text → Option Text → Option Text
or_else none other = other
or_else (some storefront) other = some storefront

abbrev pub target_key : Option Text → ParsedTargetItem → InflightTargetKey
target_key single_storefront item = record {
  kind = item.kind;
  id = item.id;
  storefront = or_else item.storefront single_storefront;
}

abbrev pub or_next : Option ℕ → Option ℕ → Option ℕ
or_next none next = next
or_next (some entry) next = some entry

-- The first entry of another job for one of the keys.
unfoldable pub maybe_inflight : List InflightTargetKey → Table → Option ℕ
maybe_inflight [] items = none
maybe_inflight (key ∷ keys) items = or_next (get items key) (maybe_inflight keys items)

abbrev pub checked : Option ℕ → Phase
checked none = claiming
checked (some entry) = arriving entry

-- `notify_waiters` wakes the futures that are there.
abbrev pub woken_phase : ℕ → Phase → Phase
woken_phase entry (listening e) = if e == entry then checking else listening e
woken_phase entry phase = phase

abbrev pub woken : ℕ → Job → Job
woken entry job = record job { phase = woken_phase entry job.phase }

abbrev pub put : Orchestrator → ℕ → Job → Phase → Orchestrator
put s id job phase = record s { jobs = set s.jobs id (record job { phase = phase }) }

-- The `select!` at the end of the loop: a token that is already set ends the job.
abbrev pub listen : Bool → ℕ → Phase
listen true entry = cancelled
listen false entry = listening entry

abbrev pub cancelled_phase : Phase → Phase
cancelled_phase (listening entry) = cancelled
cancelled_phase phase = phase

-- The next critical section of a job's task.
unfoldable pub advance_from : Orchestrator → ℕ → Job → Phase → Orchestrator
advance_from s id job checking =
    put s id job (checked (maybe_inflight job.target_keys s.inflight_items))
advance_from s id job claiming = record {
  inflight_items = insert_all job.target_keys id s.inflight_items;
  jobs = set s.jobs id (record job { phase = running });
}
advance_from s id job (arriving entry) = put s id job (listen job.is_cancelled entry)
advance_from s id job releasing = record s {
  jobs = map (woken id) (set s.jobs id (record job { phase = done }));
}
advance_from s id job phase = s

-- `finish` with the result of `run_job`, or the drop of the guard; then the keys are removed.
unfoldable pub finish_from : Orchestrator → ℕ → Job → Bool → Phase → Orchestrator
finish_from s id job success running = record {
  inflight_items = remove_keys job.target_keys s.inflight_items;
  jobs = set s.jobs id (record job { phase = releasing; success = success });
}
finish_from s id job success phase = s

unfoldable pub cancel_from : Orchestrator → ℕ → Job → Phase → Orchestrator
cancel_from s id job phase = put s id (record job { is_cancelled = true }) (cancelled_phase phase)

pub data Event : Type 0 where
  submitted : List ParsedTargetItem → Option Text → Event
  advanced cancels dropped : ℕ → Event
  finished : ℕ → Bool → Event

abbrev pub with_job : Orchestrator → Option Job → (Job → Orchestrator) → Orchestrator
with_job s none f = s
with_job s (some job) f = f job

unfoldable pub step : Orchestrator → Event → Orchestrator
unfolding advance_from finish_from cancel_from
step s (submitted parsed_items single_storefront) = record s {
  jobs =
      s.jobs
      ++ record {
        target_keys = map (target_key single_storefront) parsed_items;
        phase = checking;
        success = false;
        is_cancelled = false;
      }
        ∷ [];
}
step s (advanced id) = with_job s (get_elem? s.jobs id) λ job. advance_from s id job job.phase
step s (cancels id) = with_job s (get_elem? s.jobs id) λ job. cancel_from s id job job.phase
step s (dropped id) =
    with_job s (get_elem? s.jobs id) λ job. finish_from s id job job.success job.phase
step s (finished id success) =
    with_job s (get_elem? s.jobs id) λ job. finish_from s id job success job.phase

unfoldable pub run : Orchestrator → List Event → Orchestrator
unfolding step
run s [] = s
run s (event ∷ events) = run (step s event) events

abbrev pub empty : Orchestrator
empty = record { inflight_items = []; jobs = [] }
