-- ===== src/Mp4/Tests.antt =====
-- The demuxer on concrete tracks and files.
use byron0416_mp.FileSystem.InMemory.{in_memory, in_memory-IsRegularFile}
use byron0416_mp.Prelude.OrderedMap.{find, place, assign}
use byron0416_mp.Prelude.{
  ℕ, ◌+◌, ◌%◌, ◌^◌, ◌≤◌, ◌≡◌, ◌≢◌, ◌⊎◌, inl, inr, refl, List, [], ◌∷◌, ◌++◌, none, some, arith,
  take, drop, length, get_elem?, All, be_value, le_value, replicate,
}
use byron0416_mp.Rtp.{RtpPacket, empty_sample}
use byron0416_mp.Mp4.State.{
  Sample, Track, new_track, Demuxer, ok, stuck, found, require, must, read_fd, read_exact, read16be,
  read32be, seek_set, seek_cur,
}
use byron0416_mp.Mp4.Track.{to_ms, advance, build_loop, build_samples, seek}
use byron0416_mp.Mp4.Track.Chunks.{span, build_samples-offset}
use byron0416_mp.Mp4.Track.Times.{sum, build_samples-Times}
use byron0416_mp.Mp4.Track.Seeking.{IsLast, seek-IsLast}
use byron0416_mp.Mp4.Walk.{parse, kind_of}
use byron0416_mp.Mp4.Walk.Fuel.{Headers, parse-ne-stuck}
use byron0416_mp.Mp4.Track.Keys.{key_at, IsLastKey, seek-IsLastKey}
use byron0416_mp.Mp4.Hint.{
  copy_into, packet_entry, read_pad, finish_immediate, immediate, immediate_entry, one_entry,
  entries, skip_extra, one_packet, packet_loop, next_sample, read_sample, get_rtp_sample,
}
use byron0416_mp.Prelude.{get_last_or, true}
use byron0416_mp.Mp4.Boxes.{add_capacity}
use byron0416_mp.Mp4.Boxes.Capacities.{add_capacity_lem}
use byron0416_mp.Mp4.Hint.Packets.{IsRtpPacket, get_rtp_sample-IsRtpPacket}

-- Two chunks of two samples.
abbrev video : Track
video = record (new_track 7) {
  id = 1;
  timescale = 1000;
  chunk_offset = 100 ∷ 200 ∷ [];
  chunk_capacity = 2 ∷ 2 ∷ [];
  sample_dur = 10 ∷ 10 ∷ 10 ∷ 10 ∷ [];
  sample_size = 5 ∷ 6 ∷ 7 ∷ 8 ∷ [];
}

abbrev sample : ℕ → ℕ → ℕ → Sample
sample t o l = record { timestamp = t; duration = 10; offset = o; len = l }

abbrev built : List Sample
built = sample 0 100 5 ∷ sample 10 105 6 ∷ sample 20 200 7 ∷ sample 30 207 8 ∷ []

build_samples-video : build_samples video ≡ some built
unfolding build_samples build_loop advance
build_samples-video = refl

build_samples-offset_example : 207 ≡ (200 + sum (take 1 (drop 2 (5 ∷ 6 ∷ 7 ∷ 8 ∷ [])))) % 2 ^ 64
unfolding span
build_samples-offset_example =
    build_samples-offset video built 1 1 200 (sample 30 207 8) build_samples-video
      ((omega arith, omega arith), ((omega arith, omega arith), tt)) refl (omega arith) refl

build_samples-Times_example :
    (length built ≡ 4)
    × (30 ≡ sum (take 3 (10 ∷ 10 ∷ 10 ∷ 10 ∷ [])) % 2 ^ 64)
    × (get_elem? video.sample_dur 3 ≡ some 10)
    × (get_elem? video.sample_size 3 ≡ some 8)
build_samples-Times_example =
    build_samples-Times video built 3 (sample 30 207 8) build_samples-video refl

abbrev built_video : Track
built_video = record video { samples = built }

seek-IsLast_example :
    (k : ℕ) × (seek built_video 25 ≡ some (record built_video { sample_readed = k }))
    × IsLast built 1000 25 4 k
seek-IsLast_example = seek-IsLast built_video 25 1 refl (omega arith) (omega arith) (omega arith)

-- A movie box with a header box of version 0.
abbrev movie : List ℕ
movie =
    0 ∷ 0 ∷ 0 ∷ 20 ∷ b'm' ∷ b'o' ∷ b'o' ∷ b'v' ∷ 0 ∷ 0 ∷ 0 ∷ 12 ∷ b'm' ∷ b'v' ∷ b'h' ∷ b'd' ∷ 0 ∷ 0
    ∷ 0 ∷ 0 ∷ []

abbrev closed : Demuxer ℕ
closed = record { world = 0; fd = none; duration = 0; tracks = []; track = none }

abbrev AtHeader : ℕ → Type 0
AtHeader p = (p ≡ 0) ⊎ (p ≡ 8) ⊎ (20 ≤ p)

movie-Headers : Headers movie AtHeader
unfolding be_value le_value kind_of
movie-Headers = record {
  sized = λ p h fits. elim h [
    | inl e ↦ rw e (omega arith)
    | inr (inl e) ↦ rw e (omega arith)
    | inr (inr le) ↦ absurd (omega arith)
  ];
  inner = λ p h goes. elim h [
    | inl e ↦ inr (inl (omega (arith, e)))
    | inr (inl e) ↦ absurd (cc (rw e at goes))
    | inr (inr le) ↦ inr (inr (omega arith))
  ];
  next = λ p h. elim h [
    | inl e ↦ rw e (inr (inr (omega arith)))
    | inr (inl e) ↦ rw e (inr (inr (omega arith)))
    | inr (inr le) ↦ inr (inr (omega arith))
  ];
}

parse-ne-stuck_example : parse (in_memory movie) 21 [] closed ≢ stuck
parse-ne-stuck_example =
    parse-ne-stuck (in_memory movie) (some 3) (in_memory-IsRegularFile movie) AtHeader [] 21 closed
      movie-Headers (inl refl) (omega arith) (omega arith) refl refl

-- A box of type free whose size is zero.
abbrev zero_box : List ℕ
zero_box = 0 ∷ 0 ∷ 0 ∷ 0 ∷ b'f' ∷ b'r' ∷ b'e' ∷ b'e' ∷ []

abbrev opened : Demuxer ℕ
opened = record { world = 0; fd = some 3; duration = 0; tracks = []; track = none }

-- A hint sample of one packet, which has one entry of two bytes.
abbrev hint_sample : List ℕ
hint_sample =
    (0 ∷ 1 ∷ 0 ∷ 0 ∷ [])
    ++ (0 ∷ 0 ∷ 0 ∷ 0 ∷ 0x80 ∷ 0xe0 ∷ 0 ∷ 7 ∷ 0 ∷ 0 ∷ 0 ∷ 1 ∷ [])
    ++ (1 ∷ 2 ∷ 0xaa ∷ 0xbb ∷ replicate 12 0)

abbrev hint : Track
hint = record (new_track 0x01020304) { id = 1; timescale = 1000; samples = sample 40 0 32 ∷ [] }

abbrev ready : Demuxer ℕ
ready = record opened { tracks = (1, hint) ∷ [] }

abbrev cut : RtpPacket
cut = 0x80 ∷ 0xe0 ∷ 0 ∷ 7 ∷ 0 ∷ 0 ∷ 0 ∷ 40 ∷ 4 ∷ 3 ∷ 2 ∷ 1 ∷ 0xaa ∷ 0xbb ∷ []

abbrev behind : Demuxer ℕ
behind = record opened { world = 32; tracks = (1, record hint { sample_readed = 1 }) ∷ [] }

get_rtp_sample-hint :
    get_rtp_sample (in_memory hint_sample) 1 empty_sample ready
    ≡ ok (record { timestamp = 40; packets = cut ∷ [] }) behind
unfolding get_rtp_sample read_sample next_sample packet_loop one_packet skip_extra entries one_entry
    immediate_entry immediate finish_immediate read_pad copy_into packet_entry found require must
    read_fd read_exact read16be read32be seek_set seek_cur find assign place be_value le_value
get_rtp_sample-hint = refl

get_rtp_sample-IsRtpPacket_example :
    (to_ms 1000 40 ≡ some 40)
    × (fresh : List RtpPacket) × (cut ∷ [] ≡ [] ++ fresh)
    × All (IsRtpPacket 40 0x01020304) fresh
unfolding find
get_rtp_sample-IsRtpPacket_example =
    get_rtp_sample-IsRtpPacket (in_memory hint_sample) 1 hint (sample 40 0 32) empty_sample
      (record { timestamp = 40; packets = cut ∷ [] }) ready behind refl refl get_rtp_sample-hint

-- Chunks 1 to 2 hold three samples each, chunks 3 and 4 as many, and chunk 5 one.
add_capacity_lem_example :
    (length (add_capacity (3 ∷ 3 ∷ []) 5 1) ≡ 5)
    × (get_elem? (add_capacity (3 ∷ 3 ∷ []) 5 1) 0 ≡ get_elem? (3 ∷ 3 ∷ []) 0)
    × (get_elem? (add_capacity (3 ∷ 3 ∷ []) 5 1) 3 ≡ some (get_last_or 0 (3 ∷ 3 ∷ [])))
    × (get_elem? (add_capacity (3 ∷ 3 ∷ []) 5 1) 4 ≡ some 1)
add_capacity_lem_example =
    add_capacity_lem (3 ∷ 3 ∷ []) 5 1 0 3 (omega arith) (omega arith) (omega arith) (omega arith)
      (omega arith)

abbrev keyed_video : Track
keyed_video = record built_video { key = true; keys = 0 ∷ 2 ∷ [] }

seek-IsLastKey_example :
    (k : ℕ) × (seek keyed_video 25
      ≡ some (record keyed_video { sample_readed = key_at (0 ∷ 2 ∷ []) k }))
    × IsLastKey built (0 ∷ 2 ∷ []) 1000 25 2 k
seek-IsLastKey_example =
    seek-IsLastKey keyed_video 25 1 refl (omega arith) (omega arith, (omega arith, tt))
      (omega arith) (omega arith)
