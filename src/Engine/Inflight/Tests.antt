-- ===== src/Engine/Inflight/Tests.antt =====
-- Runs of the jobs for one target of crates/engine/src/orchestrator/mod.rs.
use peerless_server.Prelude.{
  All, ℕ, zero, suc, ◌≡◌, refl, inl, List, [], ◌∷◌, none, some, true, false, get_elem?, text,
  eq_text, arith,
}
use peerless_server.Music.{ParsedTargetItem, track}
use peerless_server.Engine.Inflight.{
  get, insert_all, remove_key, remove_keys, maybe_inflight, Phase, checking, claiming, running,
  done, arriving, listening, Job, Orchestrator, advance_from, finish_from, Event, submitted,
  advanced, finished, step, run, empty,
}
use peerless_server.Engine.Inflight.Keys.{InflightTargetKey, same_key}
use peerless_server.Engine.Inflight.Exclusive.{Undisturbed, IsExclusive, run-IsExclusive}
use peerless_server.Engine.Inflight.Overlap.{both_look, IsAt, run-both_look}
use peerless_server.Engine.Inflight.Stuck.{IsStuck, run-IsStuck}

abbrev song : ParsedTargetItem
song = record { kind = track; id = text "7"; storefront = none }

abbrev song_key : InflightTargetKey
song_key = record { kind = track; id = text "7"; storefront = some (text "us") }

abbrev submits : Event
submits = submitted (song ∷ []) (some (text "us"))

abbrev at_phase : Phase → Job
at_phase phase = record {
  target_keys = song_key ∷ [];
  phase = phase;
  success = false;
  is_cancelled = false;
}

-- Two jobs for one song: the second listens to the first.
abbrev in_turn : List Event
in_turn = submits ∷ submits ∷ advanced 0 ∷ advanced 0 ∷ advanced 1 ∷ advanced 1 ∷ []

abbrev one_listens : Orchestrator
one_listens = record {
  inflight_items = (song_key, 0) ∷ [];
  jobs = at_phase running ∷ at_phase (listening 0) ∷ [];
}

run-in_turn : run empty in_turn ≡ one_listens
unfolding run step advance_from maybe_inflight get insert_all same_key eq_text
run-in_turn = refl

-- No job of a list of two claims keys but the one that moves.
Alone-two :
    (event : Event) (first second : Job)
    → (first.phase ≡ claiming → event ≡ advanced 0)
    → (second.phase ≡ claiming → event ≡ advanced 1)
    → (id : ℕ) (job : Job) → get_elem? (first ∷ second ∷ []) id ≡ some job
    → job.phase ≡ claiming
    → event ≡ advanced id
Alone-two event first second f g zero job h p = f cc
Alone-two event first second f g (suc zero) job h p = g cc
Alone-two event first second f g (suc (suc id)) job h p = cc

Alone-one :
    (event : Event) (only : Job)
    → (only.phase ≡ claiming → event ≡ advanced 0)
    → (id : ℕ) (job : Job) → get_elem? (only ∷ []) id ≡ some job
    → job.phase ≡ claiming
    → event ≡ advanced id
Alone-one event only f zero job h p = f cc
Alone-one event only f (suc id) job h p = cc

in_turn-Undisturbed : Undisturbed empty in_turn
unfolding run step advance_from maybe_inflight get insert_all same_key eq_text
in_turn-Undisturbed = (
  (λ id job h. cc),
  (
    Alone-one submits (at_phase checking) (λ p. cc),
    (
      Alone-two (advanced 0) (at_phase checking) (at_phase checking) (λ p. cc) (λ p. cc),
      (
        Alone-two (advanced 0) (at_phase claiming) (at_phase checking) (λ p. refl) (λ p. cc),
        (
          Alone-two (advanced 1) (at_phase running) (at_phase checking) (λ p. cc) (λ p. cc),
          (
            Alone-two (advanced 1) (at_phase running) (at_phase (arriving 0)) (λ p. cc) (λ p. cc),
            tt,
          ),
        ),
      ),
    ),
  ),
)

run-IsExclusive_example : IsExclusive (run empty in_turn)
run-IsExclusive_example = run-IsExclusive in_turn in_turn-Undisturbed

-- Both look into the empty table first.
abbrev both_check : Orchestrator
both_check = record { inflight_items = []; jobs = at_phase checking ∷ at_phase checking ∷ [] }

both_check-run : run empty (submits ∷ submits ∷ []) ≡ both_check
unfolding run step
both_check-run = refl

song_key-free : maybe_inflight (song_key ∷ []) [] ≡ none
unfolding maybe_inflight get
song_key-free = refl

run-both_look_example :
    IsAt (run both_check (both_look 0 1)) 0 (at_phase running)
    × IsAt (run both_check (both_look 0 1)) 1 (at_phase running)
    × IsAt (step (run both_check (both_look 0 1)) (finished 0 true)) 1 (at_phase running)
    × All
        (λ key.
          get (step (run both_check (both_look 0 1)) (finished 0 true)).inflight_items key ≡ none)
        (song_key ∷ [])
run-both_look_example =
    run-both_look both_check 0 1 (at_phase checking) (at_phase checking) true (omega arith) refl
      refl refl refl song_key-free song_key-free

-- The first job ends between the second one's look into the table and its `notified()`.
abbrev too_late : List Event
too_late =
    submits ∷ submits ∷ advanced 0 ∷ advanced 0 ∷ advanced 1 ∷ finished 0 true ∷ advanced 0 ∷ []

abbrev one_late : Orchestrator
one_late = record {
  inflight_items = [];
  jobs = record (at_phase done) { success = true } ∷ at_phase (arriving 0) ∷ [];
}

run-too_late : run empty too_late ≡ one_late
unfolding run step advance_from finish_from maybe_inflight get insert_all remove_keys remove_key
    same_key eq_text
run-too_late = refl

run-IsStuck_example :
    IsStuck
      (run one_late (advanced 1 ∷ submits ∷ advanced 2 ∷ advanced 2 ∷ finished 2 true ∷ []))
      1
      0
run-IsStuck_example =
    run-IsStuck one_late (advanced 1 ∷ submits ∷ advanced 2 ∷ advanced 2 ∷ finished 2 true ∷ []) 1 0
      (
        inl (at_phase (arriving 0), refl, refl, refl),
        (false, (record (at_phase done) { success = true }, refl, refl, refl)),
      )
      ((λ e. cc), ((λ e. cc), ((λ e. cc), ((λ e. cc), ((λ e. cc), tt)))))
