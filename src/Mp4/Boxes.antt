-- ===== src/Mp4/Boxes.antt =====
-- Mp4.cpp, the functions that read the payload of one box each: ParseFtyp to ParseSdp.
pub mod Capacities
use byron0416_mp.FileSystem.{FileSystem}
use byron0416_mp.Prelude.{
  ℕ, zero, suc, ◌-◌, ◌/◌, ◌^◌, true, List, [], ◌∷◌, ◌++◌, Option, none, some, length, replicate,
  get_last_or, ltb, ◌==◌, if◌then◌else◌, le_value, sub32, mul32,
}
use byron0416_mp.Mp4.State.{
  mktype, ok, fault, ◌>>=◌, ◌>>◌, done, require, crash, when◌run◌otherwise◌, Dm, read_fd,
  read_exact, read32be, on_track, bytes_of,
}

-- The part of a C string before its terminator; none if there is none within the buffer.
unfoldable pub c_string : List ℕ → Option (List ℕ)
c_string [] = none
c_string (b ∷ bs) =
    if b == 0 then some [] else elim (c_string bs) [ none ↦ none | some s ↦ some (b ∷ s) ]

-- The entries that one row of stsc adds to m_ChunkCapacity.
unfoldable pub add_capacity : List ℕ → ℕ → ℕ → List ℕ
add_capacity [] first_chunk per_chunk = per_chunk ∷ []
add_capacity (c ∷ cs) first_chunk per_chunk =
    let fill = replicate (sub32 first_chunk 1 - length (c ∷ cs)) (get_last_or c cs) in
    ((c ∷ cs) ++ fill) ++ (per_chunk ∷ [])

module _ (fs : FileSystem) where
  unfoldable pub parse_ftyp : Dm fs (Unit {0})
  parse_ftyp = do bs ← read_exact fs 4; require (le_value bs == mktype b'm' b'p' b'4' b'2')

  -- m_Duration = duration * 1000 / timescale, all in unsigned int.
  unfoldable pub set_duration : ℕ → ℕ → Dm fs (Unit {0})
  set_duration duration timescale s =
      if timescale == 0
      then fault
      else ok tt (record s { duration = mul32 duration 1000 / timescale })

  unfoldable pub parse_mvhd_zero : Dm fs (Unit {0})
  parse_mvhd_zero = do
    create ← read32be fs
    modify ← read32be fs
    timescale ← read32be fs
    duration ← read32be fs
    set_duration duration timescale

  unfoldable pub parse_mvhd_rest : ℕ → Dm fs (Unit {0})
  parse_mvhd_rest version =
      when version == 1 run crash otherwise (when version == 0 run parse_mvhd_zero otherwise done)

  unfoldable pub parse_mvhd : Dm fs (Unit {0})
  parse_mvhd = do version ← read32be fs; parse_mvhd_rest (version / 2 ^ 24)

  -- The creation and modification times; what the reads return is not looked at.
  unfoldable pub skip_times : ℕ → Dm fs (Unit {0})
  skip_times version =
      when version == 1
      run (read_fd fs 8 >> (read_fd fs 8 >> done))
      otherwise (read_fd fs 4 >> (read_fd fs 4 >> done))

  unfoldable pub parse_tkhd : Dm fs (Unit {0})
  parse_tkhd = do
    version ← read32be fs
    skip_times (version / 2 ^ 24)
    id ← read32be fs
    on_track fs (λ t. record t { id = id })

  unfoldable pub parse_mdhd : Dm fs (Unit {0})
  parse_mdhd = do
    version ← read32be fs
    skip_times (version / 2 ^ 24)
    scale ← read32be fs
    on_track fs (λ t. record t { timescale = scale })

  unfoldable pub parse_hdlr : Dm fs (Unit {0})
  parse_hdlr = do
    version ← read_exact fs 4
    predefined ← read_exact fs 4
    bs ← read_exact fs 4
    on_track fs (λ t. record t { type = le_value bs })

  -- for(j=0; j<n; j++) track->m_SampleDur.push_back(delta);
  unfoldable pub push_durs : ℕ → ℕ → Dm fs (Unit {0})
  push_durs n delta =
      when n == 0
      run done
      otherwise (on_track fs (λ t. record t { sample_dur = t.sample_dur ++ replicate n delta }))

  unfoldable pub stts_rows : ℕ → Dm fs (Unit {0})
  stts_rows zero = done
  stts_rows (suc count) = do
    n ← read32be fs
    delta ← read32be fs
    push_durs n delta
    stts_rows count

  unfoldable pub parse_stts : Dm fs (Unit {0})
  parse_stts = do version ← read32be fs; count ← read32be fs; stts_rows count

  unfoldable pub push_sizes : ℕ → ℕ → Dm fs (Unit {0})
  push_sizes n size =
      when n == 0
      run done
      otherwise (on_track fs (λ t. record t { sample_size = t.sample_size ++ replicate n size }))

  unfoldable pub stsz_rows : ℕ → Dm fs (Unit {0})
  stsz_rows zero = done
  stsz_rows (suc count) = do
    size ← read32be fs
    on_track fs (λ t. record t { sample_size = t.sample_size ++ (size ∷ []) })
    stsz_rows count

  unfoldable pub parse_stsz : Dm fs (Unit {0})
  parse_stsz = do
    version ← read32be fs
    size ← read32be fs
    count ← read32be fs
    when size == 0 run stsz_rows count otherwise push_sizes count size

  unfoldable pub stsc_rows : ℕ → Dm fs (Unit {0})
  stsc_rows zero = done
  stsc_rows (suc count) = do
    first ← read32be fs
    per ← read32be fs
    description ← read32be fs
    on_track fs (λ t. record t { chunk_capacity = add_capacity t.chunk_capacity first per })
    stsc_rows count

  unfoldable pub parse_stsc : Dm fs (Unit {0})
  parse_stsc = do version ← read32be fs; count ← read32be fs; stsc_rows count

  unfoldable pub stco_rows : ℕ → Dm fs (Unit {0})
  stco_rows zero = done
  stco_rows (suc count) = do
    offset ← read32be fs
    on_track fs (λ t. record t { chunk_offset = t.chunk_offset ++ (offset ∷ []) })
    stco_rows count

  unfoldable pub parse_stco : Dm fs (Unit {0})
  parse_stco = do version ← read32be fs; count ← read32be fs; stco_rows count

  unfoldable pub stss_rows : ℕ → Dm fs (Unit {0})
  stss_rows zero = done
  stss_rows (suc count) = do
    num ← read32be fs
    on_track fs (λ t. record t { keys = t.keys ++ (sub32 num 1 ∷ []) })
    stss_rows count

  unfoldable pub parse_stss : Dm fs (Unit {0})
  parse_stss = do
    version ← read32be fs
    count ← read32be fs
    stss_rows count
    on_track fs (λ t. record t { key = true })

  unfoldable pub parse_hint : Dm fs (Unit {0})
  parse_hint = do refer ← read32be fs; on_track fs (λ t. record t { refer = refer })

  -- m_Sdp = buf, where buf holds what was read and zeros behind it up to its 2048 bytes.
  unfoldable pub set_sdp : List ℕ → Dm fs (Unit {0})
  set_sdp bs = elim (c_string (bs ++ replicate (2048 - length bs) 0)) [
    | none ↦ crash
    | some text ↦ on_track fs (λ t. record t { sdp = text })
  ]

  unfoldable pub parse_sdp : Dm fs (Unit {0})
  parse_sdp = do r ← read_fd fs 2048; require (ltb 0 (length (bytes_of r))); set_sdp (bytes_of r)
