-- ===== src/Mp4/Walk.antt =====
-- Mp4.cpp, the walk over the boxes of a file: ParseDefault, ParseAtom, ParseTrak and Parse, and the
-- rest of the demuxer's interface that reads no media data.
-- ParseDefault and ParseAtom call one another; each call and each round of the loop takes one unit
-- of fuel.
pub mod Fuel
pub mod Endless
use byron0416_mp.FileSystem.{FileSystem}
use byron0416_mp.Prelude.OrderedMap.{find, insert, nat_key}
use byron0416_mp.Prelude.{
  ℕ, zero, suc, ◌+◌, Bool, not, List, [], ◌∷◌, ◌++◌, Option, none, some, length, ltb, ◌==◌,
  if◌then◌else◌, le_value, add64, sub64,
}
use byron0416_mp.Mp4.State.{
  M, mktype, Atom, Track, new_track, Demuxer, Run, ok, fail, fault, stuck, ◌>>=◌, ◌>>◌, pure, done,
  require, crash, when◌run◌otherwise◌, Dm, read_exact, read32be, seek_set, get_track,
}
use byron0416_mp.Mp4.Track.{build_samples, seek}
use byron0416_mp.Mp4.Boxes.{
  parse_ftyp, parse_mvhd, parse_tkhd, parse_mdhd, parse_hdlr, parse_stts, parse_stsz, parse_stsc,
  parse_stco, parse_stss, parse_hint, parse_sdp,
}

-- The cases of the switch in ParseAtom, those with the same body under one name.
pub data Kind : Type 0 where
  container trak ftyp mvhd tkhd mdhd hdlr stts stsz stsc stco stss hint sdp ignored : Kind

unfoldable pub kind_of : ℕ → Kind
kind_of t =
    if t == mktype b'f' b't' b'y' b'p'
    then ftyp
    else if t == mktype b'm' b'o' b'o' b'v'
    then container
    else if t == mktype b'm' b'v' b'h' b'd'
    then mvhd
    else if t == mktype b't' b'r' b'a' b'k'
    then trak
    else if t == mktype b't' b'k' b'h' b'd'
    then tkhd
    else if t == mktype b'm' b'd' b'i' b'a'
    then container
    else if t == mktype b'm' b'd' b'h' b'd'
    then mdhd
    else if t == mktype b'h' b'd' b'l' b'r'
    then hdlr
    else if t == mktype b'm' b'i' b'n' b'f'
    then container
    else if t == mktype b'v' b'm' b'h' b'd'
    then ignored
    else if t == mktype b's' b'm' b'h' b'd'
    then ignored
    else if t == mktype b'd' b'i' b'n' b'f'
    then container
    else if t == mktype b'd' b'r' b'e' b'f'
    then ignored
    else if t == mktype b's' b't' b'b' b'l'
    then container
    else if t == mktype b's' b't' b's' b'd'
    then ignored
    else if t == mktype b's' b't' b't' b's'
    then stts
    else if t == mktype b's' b't' b's' b'z'
    then stsz
    else if t == mktype b's' b't' b's' b'c'
    then stsc
    else if t == mktype b's' b't' b'c' b'o'
    then stco
    else if t == mktype b's' b't' b's' b's'
    then stss
    else if t == mktype b'e' b'd' b't' b's'
    then container
    else if t == mktype b'e' b'l' b's' b't'
    then ignored
    else if t == mktype b'h' b'm' b'h' b'd'
    then ignored
    else if t == mktype b't' b'r' b'e' b'f'
    then container
    else if t == mktype b'h' b'i' b'n' b't'
    then hint
    else if t == mktype b'u' b'd' b't' b'a'
    then container
    else if t == mktype b'h' b'n' b't' b'i'
    then container
    else if t == mktype b's' b'd' b'p' b' '
    then sdp
    else if t == mktype b'm' b'e' b't' b'a'
    then ignored
    else if t == mktype b'm' b'd' b'a' b't'
    then ignored
    else if t == mktype b'f' b'r' b'e' b'e'
    then ignored
    else ignored

-- The box behind a header that has been read: readed counts the header already.
abbrev pub child : Atom → ℕ → ℕ → ℕ → Atom
child a readed size type = record {
  type = type;
  offset = add64 a.offset readed;
  size = sub64 size 8;
}

module _ (fs : FileSystem) where
  -- The local variable trk, and the pointer to it that ParseDefault is given.
  unfoldable pub with_new_track : Dm fs (Unit {0})
  with_new_track s =
      let r = fs.rand s.world in ok tt (record s { world = r.1; track = some (new_track r.0) })

  -- m_Tracks.insert, and the return to the caller's pointer.
  unfoldable pub insert_track : Option Track → Track → Dm fs (Unit {0})
  insert_track outer t s = ok tt (record s { tracks = insert t.id t s.tracks; track = outer })

  unfoldable pub finish_track : Option Track → Track → Dm fs (Unit {0})
  finish_track outer t = elim (build_samples t) [
    | none ↦ crash
    | some samples ↦ insert_track outer (record t { samples = samples })
  ]

  -- ParseTrak, over the call of ParseDefault that it makes.
  unfoldable pub parse_trak : (Atom → Dm fs (Unit {0})) → Atom → Dm fs (Unit {0})
  parse_trak walk a s = (do with_new_track; walk a; t ← get_track fs; finish_track s.track t) s

  -- The switch of ParseAtom.
  unfoldable pub parse_kind : (Atom → Dm fs (Unit {0})) → Kind → Atom → Dm fs (Unit {0})
  parse_kind walk container a = walk a
  parse_kind walk trak a = parse_trak walk a
  parse_kind walk ftyp a = parse_ftyp fs
  parse_kind walk mvhd a = parse_mvhd fs
  parse_kind walk tkhd a = parse_tkhd fs
  parse_kind walk mdhd a = parse_mdhd fs
  parse_kind walk hdlr a = parse_hdlr fs
  parse_kind walk stts a = parse_stts fs
  parse_kind walk stsz a = parse_stsz fs
  parse_kind walk stsc a = parse_stsc fs
  parse_kind walk stco a = parse_stco fs
  parse_kind walk stss a = parse_stss fs
  parse_kind walk hint a = parse_hint fs
  parse_kind walk sdp a = parse_sdp fs
  parse_kind walk ignored a = done

  unfoldable pub parse_atom : (Atom → Dm fs (Unit {0})) → Atom → Dm fs (Unit {0})
  parse_atom walk a = parse_kind walk (kind_of a.type) a

  unfoldable pub parse_child :
      (Atom → Dm fs (Unit {0})) → (ℕ → Dm fs (Unit {0})) → Atom → ℕ → ℕ → Dm fs (Unit {0})
  parse_child walk next a readed size = do
    require (not (size == 1))
    bs ← read_exact fs 4
    parse_atom walk (child a (add64 readed 8) size (le_value bs))
    seek_set fs (add64 a.offset (add64 (add64 readed 8) (sub64 size 8)))
    next (add64 (add64 readed 8) (sub64 size 8))

  -- The loop of ParseDefault over readed.
  unfoldable pub walk_loop : ℕ → Atom → ℕ → Dm fs (Unit {0})
  walk_loop zero a readed = λ s. stuck
  walk_loop (suc fuel) a readed =
      let body : Dm fs (Unit {0}) = (do
        size ← read32be fs
        parse_child (λ b. walk_loop fuel b 0) (λ n. walk_loop fuel a n) a readed size) in
      when ltb readed a.size run body otherwise done

  unfoldable pub parse_default : ℕ → Atom → Dm fs (Unit {0})
  parse_default fuel a = walk_loop fuel a 0

  -- Parse, with the track pointer NULL.
  unfoldable pub parse : ℕ → List ℕ → Dm fs (Unit {0})
  parse fuel file s = elim (fs.stat file s.world) [
    | none ↦ fail s
    | some size ↦
        let r = fs.open_file file s.world in
        let t : Demuxer fs.World = record s { world = r.1; fd = r.0; track = none } in
        elim r.0 [
          | none ↦ fail t
          | some _ ↦ parse_default fuel (record { type = 0; offset = 0; size = size }) t
        ]
  ]

  unfoldable pub close_demuxer : Demuxer fs.World → Demuxer fs.World
  close_demuxer s = elim s.fd [
    | none ↦ record s { tracks = [] }
    | some fd ↦ record s { world = fs.close s.fd s.world; fd = none; tracks = [] }
  ]

unfoldable pub is_hint : Track → Bool
is_hint t = t.type == mktype b'h' b'i' b'n' b't'

unfoldable pub hint_ids : List (ℕ × Track) → List ℕ
hint_ids [] = []
hint_ids ((id, t) ∷ ts) = if is_hint t then t.id ∷ hint_ids ts else hint_ids ts

-- The loop of CMp4Demuxer::Seek; none is a fault in a track's seek.
unfoldable pub seek_tracks : List (ℕ × Track) → ℕ → Option (List (ℕ × Track))
seek_tracks [] pos = some []
seek_tracks ((id, t) ∷ ts) pos =
    let rest = seek_tracks ts pos in
    if is_hint t
    then elim (seek t pos) [
      | none ↦ none
      | some u ↦ elim rest [ none ↦ none | some us ↦ some ((id, u) ∷ us) ]
    ]
    else elim rest [ none ↦ none | some us ↦ some ((id, t) ∷ us) ]

module _ {W : Type 0} where
  -- GetTrackID: the vector that it appends to, and the count that it returns.
  unfoldable pub get_track_id : Demuxer W → List ℕ → List ℕ × ℕ
  get_track_id s ids = (ids ++ hint_ids s.tracks, length (ids ++ hint_ids s.tracks))

  unfoldable pub get_sdp : Demuxer W → ℕ → List ℕ
  get_sdp s id = elim (find id s.tracks) [ none ↦ [] | some t ↦ t.sdp ]

  unfoldable pub seek_demuxer : ℕ → M (Demuxer W) (Unit {0})
  seek_demuxer pos s = elim (seek_tracks s.tracks pos) [
    | none ↦ fault
    | some ts ↦ ok tt (record s { tracks = ts })
  ]
