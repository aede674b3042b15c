-- ===== src/Mp4/Walk/Endless.antt =====
-- ParseDefault at a box whose header gives the size 0.
use byron0416_mp.FileSystem.{FileSystem, IsRegularFile}
use byron0416_mp.Prelude.{
  ℕ, zero, suc, ◌+◌, ◌^◌, ◌<◌, ◌≤◌, ◌≡◌, refl, ap, ◌∙◌, true, Option, some, arith, ==_iff, lt→ltb,
  length, take, drop, length-take, length-drop, le_value, add64, sub64,
}
use byron0416_mp.Mp4.State.{
  Atom, Demuxer, ok, stuck, require, read_fd, read_exact, read32be, seek_set,
}
use byron0416_mp.Mp4.Walk.{ignored, kind_of, parse_kind, parse_atom, parse_child, walk_loop}
use byron0416_mp.Mp4.Walk.Fuel.{word_at, At}

module _ (fs : FileSystem) (fd : Option ℕ) (file : IsRegularFile fs fd) where
  open file use {bytes, offset}

  -- The state behind a read, and the read's result.
  read_exact-ok :
      (n p : ℕ) (s : Demuxer fs.World)
      → n ≤ 2048
      → p + n ≤ length bytes
      → At fs fd file p s
      → (t : Demuxer fs.World) × (read_exact fs n s ≡ ok (take n (drop p bytes)) t)
        × At fs fd file (p + n) t
  unfolding read_exact read_fd require
  read_exact-ok n p s small fits at =
      let r = fs.read s.fd n s.world in
      let bs = take n (drop p bytes) in
      let got : r.0 ≡ some bs =
        ap (λ d. (fs.read d n s.world).0) at.0
        ∙ file.read_bytes n s.world small
        ∙ ap (λ q. some (take n (drop q bytes))) at.1 in
      let full : length bs ≡ n =
        omega (arith, length-take n (drop p bytes), length-drop p bytes, fits) in
      let moved : offset r.1 ≡ p + n =
        ap (λ d. offset (fs.read d n s.world).1) at.0
        ∙ file.read_moves n s.world small
        ∙ ap (λ q. q + length (take n (drop q bytes))) at.1
        ∙ ap (λ l. p + l) full in
      (record s { world = r.1 }, rw (got, (==_iff _ n).1 full) refl, (at.0, moved))

  read32be-ok :
      (p : ℕ) (s : Demuxer fs.World)
      → p + 4 ≤ length bytes
      → At fs fd file p s
      → (t : Demuxer fs.World) × (read32be fs s ≡ ok (word_at bytes p) t) × At fs fd file (p + 4) t
  unfolding read32be
  read32be-ok p s fits at =
      let (t, run, at') = read_exact-ok 4 p s (omega arith) fits at in (t, rw run refl, at')

  seek_set-ok :
      (p : ℕ) (s : Demuxer fs.World)
      → s.fd ≡ fd
      → (t : Demuxer fs.World) × (seek_set fs p s ≡ ok tt t) × At fs fd file p t
  unfolding seek_set
  seek_set-ok p s e =
      let good : (fs.lseek_set s.fd p s.world).0 ≡ true =
        ap (λ d. (fs.lseek_set d p s.world).0) e ∙ file.seeks p s.world in
      (
        record s { world = (fs.lseek_set s.fd p s.world).1 },
        rw (good, seek_set) refl,
        (e, ap (λ d. offset (fs.lseek_set d p s.world).1) e ∙ file.seek_moves p s.world),
      )

  -- One round of the loop at such a box comes back to where it began.
  round :
      (fuel : ℕ) (a : Atom) (readed p : ℕ) (s : Demuxer fs.World)
      → readed < a.size
      → readed < 2 ^ 64
      → add64 a.offset readed ≡ p
      → p + 8 ≤ length bytes
      → word_at bytes p ≡ 0
      → kind_of (le_value (take 4 (drop (p + 4) bytes))) ≡ ignored
      → At fs fd file p s
      → (t : Demuxer fs.World) × (walk_loop fs (suc fuel) a readed s ≡ walk_loop fs fuel a readed t)
        × At fs fd file p t
  unfolding walk_loop parse_child parse_atom parse_kind require
  round fuel a readed p s lt word place fits size kind at =
      let (s₁, run₁, at₁) = read32be-ok p s (omega (arith, fits)) at in
      let (s₂, run₂, at₂) = read_exact-ok 4 (p + 4) s₁ (omega arith) (omega (arith, fits)) at₁ in
      let zero_read : read32be fs s ≡ ok 0 s₁ = run₁ ∙ ap (λ v. ok v s₁) size in
      let again : add64 (add64 readed 8) (sub64 0 8) ≡ readed = omega (arith, word) in
      let (s₃, run₃, at₃) = seek_set-ok (add64 a.offset readed) s₂ at₂.0 in
      (
        s₃,
        rw (lt→ltb readed a.size lt, zero_read) (rw (run₂, kind, again, run₃) refl),
        (at₃.0, at₃.1 ∙ place),
      )

  -- A box of size 0 whose type the demuxer skips keeps ParseDefault in its loop: whatever the fuel,
  -- it is used up, since each round seeks back to the header that it has just read.
  pub zero_size-stuck :
      (fuel : ℕ) (a : Atom) (readed p : ℕ) (s : Demuxer fs.World)
      → readed < a.size
      → readed < 2 ^ 64
      → add64 a.offset readed ≡ p
      → p + 8 ≤ length bytes
      → word_at bytes p ≡ 0
      → kind_of (le_value (take 4 (drop (p + 4) bytes))) ≡ ignored
      → At fs fd file p s
      → walk_loop fs fuel a readed s ≡ stuck
  zero_size-stuck zero a readed p s lt word place fits size kind at = unfold walk_loop in refl
  zero_size-stuck (suc fuel) a readed p s lt word place fits size kind at =
      let (t, run, at') = round fuel a readed p s lt word place fits size kind at in
      run ∙ zero_size-stuck fuel a readed p t lt word place fits size kind at'
