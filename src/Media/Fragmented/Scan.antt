-- ===== src/Media/Fragmented/Scan.antt =====
-- The scan of crates/media/src/fragmented.rs: the durations in the headers and the ticks of the fragments.
use peerless_server.Prelude.{
  ℕ, zero, suc, ◌+◌, ◌*◌, max, Bool, true, false, ◌||◌, List, [], ◌∷◌, Option, none, some, ltb,
  ◌==◌, if◌then◌else◌, ◌>>◌, checked, length, Text, text,
}
use peerless_server.Media.Fragmented.{
  File, saturated, BoxHeader, body, box_end, is, time_prefix, duration_offset, FragmentScan,
  default, duration_secs, number_at, u8_at, u32_at, u64_at, children, flags_at, has, full_box,
}

unfoldable pub scan_full_header : File → BoxHeader → Bool → FragmentScan → FragmentScan
unfolding full_box number_at time_prefix duration_offset
scan_full_header file h is_media scan = elim (full_box file h) [
  | none ↦ scan
  | some full ↦ elim (u32_at file (full.payload + time_prefix full)) [
    | none ↦ scan
    | some timescale ↦ record {
      fragments = scan.fragments;
      timescale = if is_media || scan.timescale == 0 then timescale else scan.timescale;
      end_ticks = scan.end_ticks;
      sum_ticks = scan.sum_ticks;
      trex_default = scan.trex_default;
      mvhd = if is_media then scan.mvhd else some (duration_offset full h);
      mdhd = if is_media then some (duration_offset full h) else scan.mdhd;
    }
  ]
]

-- The boxes of a kind among these.
abbrev pub of_kind : Text → List BoxHeader → List BoxHeader
of_kind kind [] = []
of_kind kind (h ∷ hs) = if is h kind then h ∷ of_kind kind hs else of_kind kind hs

unfoldable pub scan_headers : File → List BoxHeader → FragmentScan → FragmentScan
unfolding scan_full_header
scan_headers file [] scan = scan
scan_headers file (h ∷ hs) scan = scan_headers file hs (scan_full_header file h true scan)

unfoldable pub scan_mdia : File → List BoxHeader → FragmentScan → FragmentScan
unfolding scan_headers children
scan_mdia file [] scan = scan
scan_mdia file (mdia ∷ hs) scan =
    scan_mdia file hs
      (scan_headers file (of_kind (text "mdhd") (children file (body mdia) (box_end mdia))) scan)

unfoldable pub scan_trex : File → List BoxHeader → FragmentScan → FragmentScan
unfolding number_at
scan_trex file [] scan = scan
scan_trex file (trex ∷ hs) scan = scan_trex file hs (record {
  fragments = scan.fragments;
  timescale = scan.timescale;
  end_ticks = scan.end_ticks;
  sum_ticks = scan.sum_ticks;
  trex_default = u32_at file (body trex + 12);
  mvhd = scan.mvhd;
  mdhd = scan.mdhd;
})

unfoldable pub scan_moov_child : File → BoxHeader → FragmentScan → FragmentScan
unfolding scan_full_header scan_mdia scan_trex children
scan_moov_child file child scan =
    let inner = children file (body child) (box_end child) in
    if is child (text "mvhd")
    then scan_full_header file child false scan
    else if is child (text "trak")
    then scan_mdia file (of_kind (text "mdia") inner) scan
    else if is child (text "mvex")
    then scan_trex file (of_kind (text "trex") inner) scan
    else scan

unfoldable pub scan_moov : File → List BoxHeader → FragmentScan → FragmentScan
unfolding scan_moov_child
scan_moov file [] scan = scan
scan_moov file (child ∷ hs) scan = scan_moov file hs (scan_moov_child file child scan)

abbrev pub first : List BoxHeader → Option BoxHeader
first [] = none
first (h ∷ hs) = some h

unfoldable pub tfhd_default_duration : File → BoxHeader → Option ℕ
unfolding flags_at number_at
tfhd_default_duration file h = flags_at file (body h) >> (λ flags.
    if has flags 8
    then u32_at file (body h + 8 + (if has flags 1 then 8 else 0) + (if has flags 2 then 4 else 0))
    else none)

-- The loop of `run_ticks` over the samples, `count` of which are left from `index` on.
unfoldable pub sample_ticks : File → ℕ → ℕ → ℕ → ℕ → ℕ → Option ℕ
unfolding number_at
sample_ticks file offset stride index total zero = some total
sample_ticks file offset stride index total (suc count) = checked (index * stride) >> (λ far.
    checked (offset + far) >> (λ at. u32_at file at >> (λ ticks.
      checked (total + ticks) >> (λ more. sample_ticks file offset stride (index + 1) more count))))

unfoldable pub sample_stride : ℕ → ℕ → ℕ
sample_stride flags version =
    (if has flags 0x100 then 4 else 0)
    + (if has flags 0x200 then 4 else 0)
    + (if has flags 0x400 then 4 else 0)
    + (if has flags 0x800 then (if version == 1 then 8 else 4) else 0)

unfoldable pub run_ticks : File → BoxHeader → Option ℕ → Option ℕ
unfolding flags_at number_at sample_ticks sample_stride
run_ticks file h default_duration = flags_at file (body h) >> (λ flags.
    u32_at file (body h + 4) >> (λ count. u8_at file (body h) >> (λ version.
      if has flags 0x100
      then sample_ticks file
          (body h + 8 + (if has flags 1 then 4 else 0) + (if has flags 4 then 4 else 0))
          (sample_stride flags version) 0 0 count
      else default_duration >> (λ duration. checked (count * duration)))))

-- The loop over the runs of a `traf`; the total is `none` until a run is resolved.
unfoldable pub add_runs : File → Option ℕ → List BoxHeader → Option ℕ → Option (Option ℕ)
unfolding run_ticks
add_runs file default_duration [] total = some total
add_runs file default_duration (trun ∷ hs) total = run_ticks file trun default_duration >> (λ ticks.
    checked ((elim total [ none ↦ 0 | some n ↦ n ]) + ticks)
    >> (λ sum. add_runs file default_duration hs (some sum)))

abbrev pub or_else {ℓ} : {A : Type ℓ} → Option A → Option A → Option A
or_else none b = b
or_else (some a) b = some a

abbrev pub positive : Option ℕ → Option ℕ
positive o = o >> (λ n. if ltb 0 n then some n else none)

unfoldable pub traf_default : File → BoxHeader → Option ℕ → Option ℕ
unfolding tfhd_default_duration children
traf_default file traf trex_default =
    or_else
      (first (of_kind (text "tfhd") (children file (body traf) (box_end traf)))
        >> tfhd_default_duration file)
      (positive trex_default)

unfoldable pub add_trafs : File → Option ℕ → List BoxHeader → Option ℕ → Option (Option ℕ)
unfolding add_runs traf_default children
add_trafs file trex_default [] total = some total
add_trafs file trex_default (traf ∷ hs) total =
    add_runs file (traf_default file traf trex_default)
      (of_kind (text "trun") (children file (body traf) (box_end traf))) total
    >> (λ sum. add_trafs file trex_default hs sum)

unfoldable pub fragment_ticks : File → BoxHeader → Option ℕ → Option ℕ
unfolding add_trafs children
fragment_ticks file moof trex_default =
    add_trafs file trex_default (of_kind (text "traf") (children file (body moof) (box_end moof)))
      none
    >> (λ total. total)

unfoldable pub decode_time : File → BoxHeader → Option ℕ
unfolding number_at
decode_time file tfdt = u8_at file (body tfdt) >> (λ version.
    if version == 1 then u64_at file (body tfdt + 4) else u32_at file (body tfdt + 4))

-- The first `tfdt` of the fragments decides, whether it can be read or not.
unfoldable pub base_decode_time : File → List BoxHeader → Option ℕ
unfolding decode_time children
base_decode_time file [] = none
base_decode_time file (traf ∷ trafs) =
    let rest = base_decode_time file trafs in
    elim (first (of_kind (text "tfdt") (children file (body traf) (box_end traf)))) [
      | none ↦ rest
      | some tfdt ↦ decode_time file tfdt
    ]

unfoldable pub scan_moof : File → BoxHeader → FragmentScan → FragmentScan
unfolding fragment_ticks base_decode_time children
scan_moof file moof scan =
    let ticks = fragment_ticks file moof scan.trex_default in
    let base =
      base_decode_time file (of_kind (text "traf") (children file (body moof) (box_end moof))) in
    record {
      fragments = scan.fragments + 1;
      timescale = scan.timescale;
      end_ticks = elim ticks [
        | none ↦ scan.end_ticks
        | some n ↦ elim base [
          | none ↦ scan.end_ticks
          | some b ↦ max scan.end_ticks (saturated (b + n))
        ]
      ];
      sum_ticks = elim ticks [ none ↦ scan.sum_ticks | some n ↦ saturated (scan.sum_ticks + n) ];
      trex_default = scan.trex_default;
      mvhd = scan.mvhd;
      mdhd = scan.mdhd;
    }

unfoldable pub scan_boxes : File → List BoxHeader → FragmentScan → FragmentScan
unfolding scan_moov scan_moof children
scan_boxes file [] scan = scan
scan_boxes file (h ∷ hs) scan =
    let moov = scan_moov file (children file (body h) (box_end h)) scan in
    let moof = scan_moof file h scan in
    scan_boxes file hs
      (if is h (text "moov") then moov else if is h (text "moof") then moof else scan)

unfoldable pub scan : File → FragmentScan
unfolding scan_boxes children default
scan file = scan_boxes file (children file 0 (length file)) default

unfoldable pub fragmented_duration_secs : File → Option (ℕ × ℕ)
unfolding scan duration_secs
fragmented_duration_secs file = duration_secs (scan file)
