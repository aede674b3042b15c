-- ===== src/Mp4/Walk/Fuel.antt =====
-- How much fuel the walk over the boxes needs. The headers at the places that the walk can come to
-- are described by a set of offsets.
pub mod Handlers
use byron0416_mp.FileSystem.{FileSystem, IsRegularFile}
use native.Mathlib.Decide.{ℕ_discrete}
use byron0416_mp.Prelude.{
  ℕ, zero, suc, ◌+◌, ◌-◌, ◌%◌, ◌^◌, ◌<◌, ◌≤◌, ◌≡◌, ◌≢◌, ◌⊎◌, refl, sym, ap, subst, ◌∙◌, inl, inr,
  Bool, true, false, not, List, [], ◌∷◌, Option, none, some, arith, ◌==◌, ==_iff, ltb, length, take,
  drop, length-take, length-drop, Bool-cases, Option-cases, be_value, le_value, add64, sub64,
}
use byron0416_mp.Mp4.State.{
  Atom, Track, Demuxer, Run, ok, fail, fault, stuck, M, Dm, and_then, ◌>>=◌, ◌>>◌, require, read_fd,
  read_exact, read32be, seek_set, get_track, has_count, bytes_of,
}
use byron0416_mp.Mp4.State.Rules.{
  Ends, ends, by_fail, by_fault, Ends-bind, Ends-mono, Ends-require, Ends-when, Ends-ne-stuck,
}
use byron0416_mp.Mp4.Track.{build_samples}
use byron0416_mp.Mp4.Walk.{
  Kind, container, trak, ignored, kind_of, with_new_track, insert_track, finish_track, parse_trak,
  parse_kind, parse_atom, child, parse_child, walk_loop, parse_default, parse,
}
use Handlers.{EndsWell, leaf-EndsWell}

-- The number that stands at an offset of the file, in network order.
abbrev pub word_at : List ℕ → ℕ → ℕ
word_at bytes p = be_value 0 (take 4 (drop p bytes))

-- The type behind it, and whether the walk goes on inside a box.
abbrev pub type_at : List ℕ → ℕ → ℕ
type_at bytes p = le_value (take 4 (drop (p + 4) bytes))

abbrev pub walks : Kind → Bool
walks container = true
walks trak = true
walks k = false

-- A set of offsets at which the walk may meet a header: with a header it holds the offset behind
-- its box, and where the box is one that holds boxes also the one behind the header; and the size
-- in each header is at least 8.
pub record Headers (bytes : List ℕ) (P : ℕ → Type 0) : Type 0 where
  pub sized : (p : ℕ) → P p → p + 4 ≤ length bytes → 8 ≤ word_at bytes p
  pub inner : (p : ℕ) → P p → walks (kind_of (type_at bytes p)) ≡ true → P (p + 8)
  pub next : (p : ℕ) → P p → P (p + word_at bytes p)

module _ (fs : FileSystem) (fd : Option ℕ) (file : IsRegularFile fs fd) where
  open file use {bytes, offset}

  -- The descriptor is the file's, and its offset is p.
  abbrev pub At : ℕ → Demuxer fs.World → Type 0
  At p s = (s.fd ≡ fd) × (offset s.world ≡ p)

  read_exact-At :
      (n p : ℕ) (s : Demuxer fs.World)
      → 1 ≤ n
      → n ≤ 2048
      → At p s
      → Ends
          (λ bs t. (bs ≡ take n (drop p bytes)) × (p + n ≤ length bytes) × At (p + n) t)
          (read_exact fs n s)
  unfolding read_exact read_fd
  read_exact-At n p s pos small at =
      let r = fs.read s.fd n s.world in
      let got : r.0 ≡ some (take n (drop p bytes)) =
        ap (λ d. (fs.read d n s.world).0) at.0
        ∙ file.read_bytes n s.world small
        ∙ ap (λ q. some (take n (drop q bytes))) at.1 in
      let moved : offset r.1 ≡ p + length (take n (drop p bytes)) =
        ap (λ d. offset (fs.read d n s.world).1) at.0
        ∙ file.read_moves n s.world small
        ∙ ap (λ q. q + length (take n (drop q bytes))) at.1 in
      Ends-bind (Ends-require (has_count r.0 n) (record s { world = r.1 })) λ _ t (counted, same).
        let full : length (take n (drop p bytes)) ≡ n = (==_iff _ n).0 (rw got at counted) in
        ends (
          ap bytes_of got,
          omega (arith, full, length-take n (drop p bytes), length-drop p bytes),
          (
            ap (λ x. x.fd) same ∙ at.0,
            ap (λ x. offset x.world) same ∙ moved ∙ ap (λ l. p + l) full,
          ),
        )

  read32be-At :
      (p : ℕ) (s : Demuxer fs.World)
      → At p s
      → Ends (λ v t. (v ≡ word_at bytes p) × (p + 4 ≤ length bytes) × At (p + 4) t) (read32be fs s)
  unfolding read32be
  read32be-At p s at =
      Ends-bind (read_exact-At 4 p s (omega arith) (omega arith) at)
        λ bs t (got, fits, at'). ends (ap (be_value 0) got, fits, at')

  seek_set-At : (p : ℕ) (s : Demuxer fs.World) → s.fd ≡ fd → Ends (λ _ t. At p t) (seek_set fs p s)
  unfolding seek_set
  seek_set-At p s e =
      let good : (fs.lseek_set s.fd p s.world).0 ≡ true =
        ap (λ d. (fs.lseek_set d p s.world).0) e ∙ file.seeks p s.world in
      rw (good, seek_set)
        (ends (e, ap (λ d. offset (fs.lseek_set d p s.world).1) e ∙ file.seek_moves p s.world))

  with_new_track-At :
      (p : ℕ) (s : Demuxer fs.World) → At p s → Ends (λ _ t. At p t) (with_new_track fs s)
  unfolding with_new_track
  with_new_track-At p s at = ends (at.0, file.rand_stays s.world ∙ at.1)

  finish_track-fd :
      (outer : Option Track) (t : Track) (s : Demuxer fs.World)
      → s.fd ≡ fd
      → Ends (λ _ u. u.fd ≡ fd) (finish_track fs outer t s)
  unfolding finish_track insert_track
  finish_track-fd outer t s e = elim (Option-cases (build_samples t)) [
    | inl p ↦ rw (p, finish_track) by_fault
    | inr (x, p) ↦ rw (p, finish_track) (ends e)
  ]

  get_track-fd : (s : Demuxer fs.World) → s.fd ≡ fd → Ends (λ _ u. u.fd ≡ fd) (get_track fs s)
  unfolding get_track
  get_track-fd s e = elim (Option-cases s.track) [
    | inl p ↦ rw (p, get_track) by_fault
    | inr (x, p) ↦ rw (p, get_track) (ends e)
  ]

  -- A walk that ends when it begins at p, with the descriptor still the file's.
  abbrev pub WalksFrom : ℕ → Dm fs (Unit {0}) → Type 0
  WalksFrom p m = (s : Demuxer fs.World) → At p s → Ends (λ _ t. t.fd ≡ fd) (m s)

  parse_trak-ends :
      (walk : Atom → Dm fs (Unit {0})) (a : Atom) (p : ℕ)
      → WalksFrom p (walk a)
      → WalksFrom p (parse_trak fs walk a)
  unfolding parse_trak
  parse_trak-ends walk a p h s at = Ends-bind (with_new_track-At p s at) λ _ s₁ at₁.
      Ends-bind (h s₁ at₁)
        λ _ s₂ e₂. Ends-bind (get_track-fd s₂ e₂) λ t s₃ e₃. finish_track-fd s.track t s₃ e₃

  parse_kind-ends :
      (walk : Atom → Dm fs (Unit {0})) (k : Kind) (a : Atom) (p : ℕ)
      → (walks k ≡ true → WalksFrom p (walk a))
      → WalksFrom p (parse_kind fs walk k a)
  parse_kind-ends walk container a p h s at = unfold parse_kind in h refl s at
  parse_kind-ends walk trak a p h s at = unfold parse_kind in parse_trak-ends walk a p (h refl) s at
  parse_kind-ends walk k a p h s at = leaf-EndsWell fs fd walk k a (λ e. cc) (λ e. cc) s at.0

-- A word of four bytes or fewer.
be_value-lt : (bs : List ℕ) → length bs ≤ 4 → be_value 0 bs < 2 ^ 32
unfolding be_value
be_value-lt [] h = omega arith
be_value-lt (a ∷ []) h = omega arith
be_value-lt (a ∷ b ∷ []) h = omega arith
be_value-lt (a ∷ b ∷ c ∷ []) h = omega arith
be_value-lt (a ∷ b ∷ c ∷ d ∷ []) h = omega arith
be_value-lt (a ∷ b ∷ c ∷ d ∷ e ∷ bs) h = absurd (omega arith)

word_at-lt : (bytes : List ℕ) (p : ℕ) → word_at bytes p < 2 ^ 32
word_at-lt bytes p =
    be_value-lt (take 4 (drop p bytes)) (omega (arith, length-take 4 (drop p bytes)))

module _ (fs : FileSystem) (fd : Option ℕ) (file : IsRegularFile fs fd) (P : ℕ → Type 0)
    (headers : Headers file.bytes P) (small : length file.bytes < 2 ^ 62) where
  open file use {bytes, offset}

  parse_child-Ends :
      (walk : Atom → Dm fs (Unit {0})) (next : ℕ → Dm fs (Unit {0})) (a : Atom) (readed size p : ℕ)
      (s : Demuxer fs.World)
      → add64 a.offset readed ≡ p
      → 8 ≤ size
      → size < 2 ^ 32
      → At fs fd file (p + 4) s
      → ((type : ℕ)
          → p + 8 ≤ length bytes
          → type ≡ type_at bytes p
          → walks (kind_of type) ≡ true
          → WalksFrom fs fd file (p + 8) (walk (child a (add64 readed 8) size type)))
      → ((n : ℕ)
          → p + 8 ≤ length bytes
          → add64 a.offset n ≡ p + size
          → WalksFrom fs fd file (p + size) (next n))
      → Ends (λ _ t. t.fd ≡ fd) (parse_child fs walk next a readed size s)
  unfolding parse_child parse_atom
  parse_child-Ends walk next a readed size p s place lo hi at inner later =
      Ends-bind (Ends-require (not (size == 1)) s) λ _ s₂ (_, same).
        Ends-bind
          (read_exact-At fs fd file 4 (p + 4) s₂ (omega arith) (omega arith)
            (ap (λ x. x.fd) same ∙ at.0, ap (λ x. offset x.world) same ∙ at.1))
          λ bs s₃ (got, fits, at₃).
            let room : p + 8 ≤ length bytes = omega (arith, fits) in
            Ends-bind
              (parse_kind-ends fs fd file walk (kind_of (le_value bs)) _ (p + 8)
                (inner (le_value bs) room (ap le_value got)) s₃ (at₃.0, at₃.1 ∙ omega arith))
              λ _ s₄ e₄.
                let target : add64 a.offset (add64 (add64 readed 8) (sub64 size 8)) ≡ p + size =
                  omega (arith, place, room, small) in
                Ends-bind
                  (seek_set-At fs fd file (add64 a.offset (add64 (add64 readed 8) (sub64 size 8)))
                    s₄ e₄)
                  λ _ s₅ at₅. later _ room target s₅ (at₅.0, at₅.1 ∙ target)

  walk_loop-Ends :
      (fuel : ℕ) (a : Atom) (readed p : ℕ) (s : Demuxer fs.World)
      → P p
      → add64 a.offset readed ≡ p
      → length bytes < p + fuel
      → 1 ≤ fuel
      → At fs fd file p s
      → Ends (λ _ t. t.fd ≡ fd) (walk_loop fs fuel a readed s)
  unfolding walk_loop
  walk_loop-Ends zero a readed p s good place enough some_fuel at = absurd (omega arith)
  walk_loop-Ends (suc fuel) a readed p s good place enough some_fuel at =
      Ends-when (ltb readed a.size) _ _ s
        (λ _. Ends-bind (read32be-At fs fd file p s at) λ size s₁ (is_word, fits, at₁).
          let lo : 8 ≤ size = omega (arith, is_word, headers.sized p good fits) in
          let hi : size < 2 ^ 32 = omega (arith, is_word, word_at-lt bytes p) in
          let on : P (p + size) = subst P (ap (λ n. p + n) (sym is_word)) (headers.next p good) in
          parse_child-Ends (λ b. walk_loop fs fuel b 0) (λ n. walk_loop fs fuel a n) a readed size p
            s₁ place lo hi at₁
            (λ type room is_type goes t at'.
              walk_loop-Ends fuel (child a (add64 readed 8) size type) 0 (p + 8) t
                (headers.inner p good (ap (λ c. walks (kind_of c)) (sym is_type) ∙ goes))
                (omega (arith, place, room, small)) (omega (arith, enough))
                (omega (arith, enough, room)) at')
            (λ n room there t at'.
              walk_loop-Ends fuel a n (p + size) t on there (omega (arith, enough, lo))
                (omega (arith, enough, room)) at'))
        (λ _. ends at.0)

-- Parse always comes to an end on a regular file that has been opened at its beginning, with any
-- fuel above the file's length: it returns true, returns false or faults. Of the file it needs that
-- some set of offsets holds 0 and is closed under the walk, with each header the place behind its box
-- and, for a box that holds boxes, the place behind the header, and that the size in each header
-- there is at least 8. The bodies of the other boxes may hold anything.
pub parse-ne-stuck :
    (fs : FileSystem) (fd : Option ℕ) (file : IsRegularFile fs fd) (P : ℕ → Type 0) (name : List ℕ)
    (fuel : ℕ) (s : Demuxer fs.World)
    → Headers file.bytes P
    → P 0
    → length file.bytes < 2 ^ 62
    → length file.bytes < fuel
    → (fs.open_file name s.world).0 ≡ fd
    → file.offset (fs.open_file name s.world).1 ≡ 0
    → parse fs fuel name s ≢ stuck
unfolding parse parse_default
parse-ne-stuck fs fd file P name fuel s headers start small enough opened at_start =
    let run : Ends (λ _ t. t.fd ≡ fd) (parse fs fuel name s) =
      elim (Option-cases (fs.stat name s.world)) [
        | inl p ↦ rw (p, parse) by_fail
        | inr (size, p) ↦
            rw (p, parse)
              (elim (Option-cases (fs.open_file name s.world).0) [
                | inl q ↦ rw (q, parse) by_fail
                | inr (d, q) ↦
                    rw (q, parse)
                      (walk_loop-Ends fs fd file P headers small fuel _ 0 0 _ start (omega arith)
                        (omega arith) (omega arith) (opened, at_start))
              ])
      ] in
    Ends-ne-stuck run
