-- ===== src/Mp4/Walk/Fuel/Handlers.antt =====
-- The functions that read one box: their fuel, and the descriptor.
use byron0416_mp.FileSystem.{FileSystem}
use byron0416_mp.Prelude.{
  ℕ, zero, suc, ◌^◌, ◌/◌, ◌≡◌, refl, inl, inr, Bool, true, false, List, Option, ◌==◌, length,
  Bool-cases, Option-cases, be_value, ◌≢◌, replicate, ◌++◌, ◌-◌,
}
use byron0416_mp.Mp4.State.{
  Atom, Track, Demuxer, pure, crash, Dm, ◌>>=◌, ◌>>◌, require, when◌run◌otherwise◌, read_fd,
  read_exact, read32be, on_track, has_count, bytes_of,
}
use byron0416_mp.Mp4.State.Rules.{Ends, ends, by_fail, by_fault, Ends-bind, Ends-when}
use byron0416_mp.Mp4.Boxes.{
  parse_ftyp, set_duration, parse_mvhd_zero, parse_mvhd_rest, parse_mvhd, skip_times, parse_tkhd,
  parse_mdhd, parse_hdlr, push_durs, stts_rows, parse_stts, push_sizes, stsz_rows, parse_stsz,
  stsc_rows, parse_stsc, stco_rows, parse_stco, stss_rows, parse_stss, parse_hint, set_sdp,
  parse_sdp, c_string,
}
use byron0416_mp.Mp4.Walk.{
  Kind, container, trak, ftyp, mvhd, tkhd, mdhd, hdlr, stts, stsz, stsc, stco, stss, hint, sdp,
  ignored, parse_kind,
}

module _ (fs : FileSystem) (fd : Option ℕ) where
  -- From a state with this descriptor the run ends, with the same descriptor if it returns true.
  abbrev pub EndsWell : {A : Type 0} → Dm fs A → Type 0
  EndsWell m = (s : Demuxer fs.World) → s.fd ≡ fd → Ends (λ _ t. t.fd ≡ fd) (m s)

  bind :
      {A B : Type 0} (m : Dm fs A) {k : A → Dm fs B}
      → EndsWell m
      → ((a : A) → EndsWell (k a))
      → EndsWell (m >>= k)
  bind m h g s e = Ends-bind (h s e) (λ a t p. g a t p)

  then_ends :
      {A B : Type 0} (m : Dm fs A) {n : Dm fs B} → EndsWell m → EndsWell n → EndsWell (m >> n)
  then_ends m h g s e = Ends-bind (h s e) (λ a t p. g t p)

  done_ends : {A : Type 0} (a : A) → EndsWell (pure a)
  done_ends a s e = ends e

  crash_ends : {A : Type 0} → EndsWell (crash {A = A})
  crash_ends s e = by_fault

  when_ends :
      {A : Type 0} (b : Bool) (m n : Dm fs A)
      → EndsWell m
      → EndsWell n
      → EndsWell (when b run m otherwise n)
  when_ends b m n h g s e = Ends-when b m n s (λ _. h s e) (λ _. g s e)

  read_fd-EndsWell : (n : ℕ) → EndsWell (read_fd fs n)
  unfolding read_fd
  read_fd-EndsWell n s e = ends e

  require-EndsWell : (b : Bool) → EndsWell (require b)
  unfolding require
  require-EndsWell true s e = ends e
  require-EndsWell false s e = by_fail

  read_exact-EndsWell : (n : ℕ) → EndsWell (read_exact fs n)
  unfolding read_exact
  read_exact-EndsWell n = bind (read_fd fs n) (read_fd-EndsWell n) λ r.
      then_ends (require (has_count r n)) (require-EndsWell (has_count r n))
        (done_ends (bytes_of r))

  pub read32be-EndsWell : EndsWell (read32be fs)
  unfolding read32be
  read32be-EndsWell = bind (read_exact fs 4) (read_exact-EndsWell 4) λ bs. done_ends (be_value 0 bs)

  on_track-EndsWell : (f : Track → Track) → EndsWell (on_track fs f)
  unfolding on_track
  on_track-EndsWell f s e = elim (Option-cases s.track) [
    | inl p ↦ rw (p, on_track) by_fault
    | inr (t, p) ↦ rw (p, on_track) (ends e)
  ]

  -- A word is read, and the rest follows.
  word : {B : Type 0} {k : ℕ → Dm fs B} → ((a : ℕ) → EndsWell (k a)) → EndsWell (read32be fs >>= k)
  word g = bind (read32be fs) read32be-EndsWell g

  parse_ftyp-EndsWell : EndsWell (parse_ftyp fs)
  unfolding parse_ftyp
  parse_ftyp-EndsWell = bind (read_exact fs 4) (read_exact-EndsWell 4) λ bs. require-EndsWell _

  set_duration-EndsWell : (d t : ℕ) → EndsWell (set_duration fs d t)
  unfolding set_duration
  set_duration-EndsWell d t s e = elim (Bool-cases (t == 0)) [
    | inl p ↦ rw (p, set_duration) by_fault
    | inr p ↦ rw (p, set_duration) (ends e)
  ]

  parse_mvhd-EndsWell : EndsWell (parse_mvhd fs)
  unfolding parse_mvhd parse_mvhd_rest parse_mvhd_zero
  parse_mvhd-EndsWell = word λ v. when_ends _ _ _ crash_ends (
      when_ends _ _ _ (word λ _. word λ _. word λ t. word λ d. set_duration-EndsWell d t)
        (done_ends tt))

  skip_times-EndsWell : (v : ℕ) → EndsWell (skip_times fs v)
  unfolding skip_times
  skip_times-EndsWell v =
      when_ends (v == 1) _ _
        (then_ends (read_fd fs 8) (read_fd-EndsWell 8)
          (then_ends (read_fd fs 8) (read_fd-EndsWell 8) (done_ends tt)))
        (then_ends (read_fd fs 4) (read_fd-EndsWell 4)
          (then_ends (read_fd fs 4) (read_fd-EndsWell 4) (done_ends tt)))

  parse_tkhd-EndsWell : EndsWell (parse_tkhd fs)
  unfolding parse_tkhd
  parse_tkhd-EndsWell = word λ v.
      then_ends (skip_times fs (v / 2 ^ 24)) (skip_times-EndsWell _)
        (word λ id. on_track-EndsWell _)

  parse_mdhd-EndsWell : EndsWell (parse_mdhd fs)
  unfolding parse_mdhd
  parse_mdhd-EndsWell = word λ v.
      then_ends (skip_times fs (v / 2 ^ 24)) (skip_times-EndsWell _)
        (word λ id. on_track-EndsWell _)

  parse_hdlr-EndsWell : EndsWell (parse_hdlr fs)
  unfolding parse_hdlr
  parse_hdlr-EndsWell = bind (read_exact fs 4) (read_exact-EndsWell 4) λ _.
      bind (read_exact fs 4) (read_exact-EndsWell 4)
        λ _. bind (read_exact fs 4) (read_exact-EndsWell 4) λ _. on_track-EndsWell _

  push_durs-EndsWell : (n d : ℕ) → EndsWell (push_durs fs n d)
  unfolding push_durs
  push_durs-EndsWell n d = when_ends (n == 0) _ _ (done_ends tt) (on_track-EndsWell _)

  stts_rows-EndsWell : (n : ℕ) → EndsWell (stts_rows fs n)
  unfolding stts_rows
  stts_rows-EndsWell zero = done_ends tt
  stts_rows-EndsWell (suc n) =
      word
        λ k. word λ d. then_ends (push_durs fs k d) (push_durs-EndsWell k d) (stts_rows-EndsWell n)

  parse_stts-EndsWell : EndsWell (parse_stts fs)
  unfolding parse_stts
  parse_stts-EndsWell = word λ _. word λ n. stts_rows-EndsWell n

  stsz_rows-EndsWell : (n : ℕ) → EndsWell (stsz_rows fs n)
  unfolding stsz_rows
  stsz_rows-EndsWell zero = done_ends tt
  stsz_rows-EndsWell (suc n) =
      word λ d. then_ends (on_track fs _) (on_track-EndsWell _) (stsz_rows-EndsWell n)

  push_sizes-EndsWell : (n d : ℕ) → EndsWell (push_sizes fs n d)
  unfolding push_sizes
  push_sizes-EndsWell n d = when_ends (n == 0) _ _ (done_ends tt) (on_track-EndsWell _)

  parse_stsz-EndsWell : EndsWell (parse_stsz fs)
  unfolding parse_stsz
  parse_stsz-EndsWell = word λ _. word λ size.
      word λ n. when_ends (size == 0) _ _ (stsz_rows-EndsWell n) (push_sizes-EndsWell n size)

  stsc_rows-EndsWell : (n : ℕ) → EndsWell (stsc_rows fs n)
  unfolding stsc_rows
  stsc_rows-EndsWell zero = done_ends tt
  stsc_rows-EndsWell (suc n) = word λ _.
      word λ _. word λ _. then_ends (on_track fs _) (on_track-EndsWell _) (stsc_rows-EndsWell n)

  parse_stsc-EndsWell : EndsWell (parse_stsc fs)
  unfolding parse_stsc
  parse_stsc-EndsWell = word λ _. word λ n. stsc_rows-EndsWell n

  stco_rows-EndsWell : (n : ℕ) → EndsWell (stco_rows fs n)
  unfolding stco_rows
  stco_rows-EndsWell zero = done_ends tt
  stco_rows-EndsWell (suc n) =
      word λ _. then_ends (on_track fs _) (on_track-EndsWell _) (stco_rows-EndsWell n)

  parse_stco-EndsWell : EndsWell (parse_stco fs)
  unfolding parse_stco
  parse_stco-EndsWell = word λ _. word λ n. stco_rows-EndsWell n

  stss_rows-EndsWell : (n : ℕ) → EndsWell (stss_rows fs n)
  unfolding stss_rows
  stss_rows-EndsWell zero = done_ends tt
  stss_rows-EndsWell (suc n) =
      word λ _. then_ends (on_track fs _) (on_track-EndsWell _) (stss_rows-EndsWell n)

  parse_stss-EndsWell : EndsWell (parse_stss fs)
  unfolding parse_stss
  parse_stss-EndsWell =
      word λ _. word λ n. then_ends (stss_rows fs n) (stss_rows-EndsWell n) (on_track-EndsWell _)

  parse_hint-EndsWell : EndsWell (parse_hint fs)
  unfolding parse_hint
  parse_hint-EndsWell = word λ _. on_track-EndsWell _

  set_sdp-EndsWell : (bs : List ℕ) → EndsWell (set_sdp fs bs)
  unfolding set_sdp
  set_sdp-EndsWell bs s e = elim (Option-cases (c_string (bs ++ replicate (2048 - length bs) 0))) [
    | inl p ↦ rw (p, set_sdp) by_fault
    | inr (t, p) ↦ rw (p, set_sdp) (on_track-EndsWell _ s e)
  ]

  parse_sdp-EndsWell : EndsWell (parse_sdp fs)
  unfolding parse_sdp
  parse_sdp-EndsWell =
      bind (read_fd fs 2048) (read_fd-EndsWell 2048)
        λ r. then_ends (require _) (require-EndsWell _) (set_sdp-EndsWell _)

  -- The functions that the switch of ParseAtom calls, those that go on walking left out.
  pub leaf-EndsWell :
      (walk : Atom → Dm fs (Unit {0})) (k : Kind) (a : Atom)
      → k ≢ Kind.container
      → k ≢ Kind.trak
      → EndsWell (parse_kind fs walk k a)
  unfolding parse_kind
  leaf-EndsWell walk container a h g = absurd (h refl)
  leaf-EndsWell walk trak a h g = absurd (g refl)
  leaf-EndsWell walk ftyp a h g = parse_ftyp-EndsWell
  leaf-EndsWell walk mvhd a h g = parse_mvhd-EndsWell
  leaf-EndsWell walk tkhd a h g = parse_tkhd-EndsWell
  leaf-EndsWell walk mdhd a h g = parse_mdhd-EndsWell
  leaf-EndsWell walk hdlr a h g = parse_hdlr-EndsWell
  leaf-EndsWell walk stts a h g = parse_stts-EndsWell
  leaf-EndsWell walk stsz a h g = parse_stsz-EndsWell
  leaf-EndsWell walk stsc a h g = parse_stsc-EndsWell
  leaf-EndsWell walk stco a h g = parse_stco-EndsWell
  leaf-EndsWell walk stss a h g = parse_stss-EndsWell
  leaf-EndsWell walk hint a h g = parse_hint-EndsWell
  leaf-EndsWell walk sdp a h g = parse_sdp-EndsWell
  leaf-EndsWell walk ignored a h g = done_ends tt
