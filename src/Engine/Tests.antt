-- ===== src/Engine/Tests.antt =====
-- The theorems on crates/engine at concrete inputs.
use peerless_server.Prelude.{
  Result, err, ◌≢◌, eq_text_iff, split, trim, eq_text, ◌*◌, ℕ, ◌+◌, ◌≤◌, ◌≡◌, refl, true, false,
  List, [], ◌∷◌, map, Option, some, none, ok, Text, text, length, get_elem?, arith, strip_suffix,
}
use peerless_server.Engine.Filename.{or_track, replace_forbidden, sanitize_and_bound, candidate}
use peerless_server.Engine.Filename.Bounds.{IsName, sanitize_and_bound-IsName}
use peerless_server.Engine.Queue.{
  QueuedItem, Event, new, run, take_next, remove_at, submitted, clear_called, abort_signalled,
  worker_runs,
}
use peerless_server.Engine.Queue.Order.{Leads, take_next-Leads}
use peerless_server.Engine.Priority.{RipTaskOptions, album, track, client, telegram_bot}
use peerless_server.Engine.Queue.Counts.{IsSerial}
use peerless_server.Engine.Queue.{step, submit}
use peerless_server.Engine.Queue.Drain.{left, rounds, Drained, run-rounds}
use peerless_server.Engine.Queue.Serial.{run-IsSerial}
use peerless_server.Engine.ZipPlan.{
  ZipTrackEntry, ZipPartPlan, manifest, plan_zip_parts_with_codec, plan_groups, number_parts,
}
use peerless_server.Engine.ZipPlan.{is_valid_entry_name, usable_bytes, cover_len}
use peerless_server.Engine.ZipPlan.Complete.{plan_zip_parts_with_codec-ok}
use peerless_server.Engine.ZipPlan.Names.{Accepted}
use peerless_server.Engine.ZipPlan.Plan.{Packed, plan_zip_parts_with_codec-Packed}
use peerless_server.Stream.Range.{u64_max}
use peerless_server.Engine.ZipPlan.PartNames.{
  HasDistinctNames, plan_zip_parts_with_codec-HasDistinctNames,
}

sanitize_and_bound-IsName_example :
    (r : Text) × (sanitize_and_bound 6 (text "a/b:c?.zip") (some (text ".zip")) ≡ some r)
    × IsName 6 r
sanitize_and_bound-IsName_example =
    sanitize_and_bound-IsName 6 (text "a/b:c?.zip") (some (text ".zip")) (omega arith)

stripped : strip_suffix (text ".zip") (candidate (text "abcdef.zip")) ≡ some (text "abcdef")
unfolding or_track trim replace_forbidden eq_text strip_suffix
stripped = refl

abbrev events : List Event
events =
    submitted false true true 32768 0
    ∷ submitted false true false 32868 10
    ∷ worker_runs 0 20 (ok (text "done"))
    ∷ abort_signalled 1
    ∷ worker_runs 0 30 (ok (text "done"))
    ∷ worker_runs 0 40 (ok (text "done"))
    ∷ clear_called
    ∷ []

run-IsSerial_example : IsSerial (run events new)
run-IsSerial_example = run-IsSerial events

abbrev first : QueuedItem
first = record {
  id = 1;
  on_position_change = true;
  on_start = false;
  priority = 32768;
  enqueued_at = 0;
}

abbrev second : QueuedItem
second = record {
  id = 2;
  on_position_change = true;
  on_start = false;
  priority = 32868;
  enqueued_at = 500;
}

take_next-Leads_example :
    (n : ℕ) × (item : QueuedItem) × (take_next 9000 (first ∷ second ∷ [])
      ≡ some (item, remove_at n (first ∷ second ∷ [])))
    × Leads 9000 (first ∷ second ∷ []) n item
take_next-Leads_example = take_next-Leads 9000 first (second ∷ [])

abbrev one : ZipTrackEntry
one = record { file_path = text "1"; archive_filename = text "a.m4a"; file_size = 60 }

abbrev two : ZipTrackEntry
two = record { file_path = text "22"; archive_filename = text "b.m4a"; file_size = 70 }

abbrev sizes : Text → Option ℕ
sizes path = some (50 + 10 * length path)

abbrev tracks : List ZipTrackEntry
tracks = one ∷ two ∷ []

abbrev parts : List ZipPartPlan
parts =
    number_parts (text "A") (text "B") (text "2020-01-01") (text "alac") none 2 0
      ((one ∷ []) ∷ (two ∷ []) ∷ [])

planned :
    plan_zip_parts_with_codec sizes
      (text "A")
      (text "B")
      (text "2020-01-01")
      tracks
      none
      67172
      (text "alac")
    ≡ ok parts
unfolding plan_zip_parts_with_codec plan_groups split eq_text
planned = refl

plan_zip_parts_with_codec-Packed_example :
    Packed sizes tracks none 67172 (map (λ part. part.tracks) parts)
plan_zip_parts_with_codec-Packed_example =
    plan_zip_parts_with_codec-Packed sizes (text "A") (text "B") (text "2020-01-01") tracks none
      67172 (text "alac") planned

parts_few : length parts ≤ u64_max
unfolding number_parts
parts_few = omega arith

plan_zip_parts_with_codec-HasDistinctNames_example : HasDistinctNames parts
plan_zip_parts_with_codec-HasDistinctNames_example =
    plan_zip_parts_with_codec-HasDistinctNames sizes (text "A") (text "B") (text "2020-01-01")
      tracks none 67172 (text "alac") planned parts_few

second_part : (part : ZipPartPlan) × (get_elem? parts 1 ≡ some part)
unfolding number_parts
second_part = (_, refl)

abbrev bot_album : RipTaskOptions
bot_album = record {
  parsed_items = album ∷ [];
  is_admin = false;
  origin = record { source = telegram_bot; expanded_from_artist = true };
}

abbrev client_track : RipTaskOptions
client_track = record {
  parsed_items = track ∷ [];
  is_admin = false;
  origin = record { source = client; expanded_from_artist = false };
}

tracks-Accepted : Accepted sizes (manifest ∷ []) tracks
unfolding is_valid_entry_name split eq_text
tracks-Accepted =
    let differ : two.archive_filename ≢ one.archive_filename = λ e.
      let k : false ≡ true = (eq_text_iff two.archive_filename one.archive_filename).1 e in cc in
    (refl, (λ e. cc, tt), refl, (refl, (differ, (λ e. cc, tt)), refl, tt))

room : usable_bytes 2 false 0 67172 ≡ ok 100
unfolding usable_bytes
room = refl

plan_zip_parts_with_codec-ok_example :
    (found : List ZipPartPlan) × (plan_zip_parts_with_codec sizes
        (text "A")
        (text "B")
        (text "2020-01-01")
        tracks
        none
        67172
        (text "alac")
      ≡ ok found)
plan_zip_parts_with_codec-ok_example =
    plan_zip_parts_with_codec-ok sizes (text "A") (text "B") (text "2020-01-01") one (two ∷ []) none
      67172 (text "alac") {cover_size = 0} {usable = 100} (omega arith) tracks-Accepted
      (unfold cover_len in refl) room (omega arith, (omega arith, tt)) (omega arith)

abbrev submissions : List Event
submissions = submitted false true true 32768 0 ∷ submitted false true false 32868 10 ∷ []

within : left (run submissions new).workers (length (run submissions new).state.pending) ≤ 7
unfolding run step submit new
within = omega arith

-- The tasks end at different times, the second one with a panic.
abbrev turns : List (ℕ × Result Text Text)
turns =
    (20, ok (text "done"))
    ∷ (25, ok (text "done"))
    ∷ (30, ok (text "done"))
    ∷ (35, ok (text "done"))
    ∷ (40, err (text "panic"))
    ∷ (45, ok (text "done"))
    ∷ (50, ok (text "done"))
    ∷ []

run-rounds_example :
    Drained (run submissions new).state.next_id (run (rounds turns) (run submissions new))
run-rounds_example = run-rounds turns (run submissions new) (run-IsSerial submissions) within
