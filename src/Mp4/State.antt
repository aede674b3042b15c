-- ===== src/Mp4/State.antt =====
-- Mp4.h: the demuxer's data, and the effects of its functions.
-- A function of type bool that returns true is `ok`, one that returns false is `fail`; both carry
-- the state that is left. `fault` is what ends the process or has no meaning in C++: a failed
-- assert, an index out of range, a null dereference, a division by zero. `stuck` means that the
-- fuel of a loop ran out.
pub mod Rules
use byron0416_mp.FileSystem.{FileSystem}
use byron0416_mp.Prelude.{
  ℕ, ◌+◌, ◌*◌, Bool, true, false, List, [], Option, none, some, length, ◌==◌, if◌then◌else◌,
  be_value,
}

-- MKTYPE: four characters in the host's byte order.
abbrev pub mktype : ℕ → ℕ → ℕ → ℕ → ℕ
mktype a b c d = a + b * 256 + c * 65536 + d * 16777216

pub record Atom : Type 0 where
  pub type : ℕ
  pub offset : ℕ
  pub size : ℕ

pub record Sample : Type 0 where
  pub timestamp : ℕ
  pub duration : ℕ
  pub offset : ℕ
  pub len : ℕ

pub record Track : Type 0 where
  pub id : ℕ
  pub type : ℕ
  pub timescale : ℕ
  pub key : Bool
  pub refer : ℕ
  pub ssrc : ℕ
  pub sdp : List ℕ
  pub sample_dur : List ℕ
  pub sample_size : List ℕ
  pub chunk_capacity : List ℕ
  pub chunk_offset : List ℕ
  pub keys : List ℕ
  pub samples : List Sample
  pub sample_readed : ℕ

-- CTrack::CTrack, given the number that rand returned.
abbrev pub new_track : ℕ → Track
new_track r = record {
  id = 0;
  type = 0;
  timescale = 0;
  key = false;
  refer = 0;
  ssrc = r;
  sdp = [];
  sample_dur = [];
  sample_size = [];
  chunk_capacity = [];
  chunk_offset = [];
  keys = [];
  samples = [];
  sample_readed = 0;
}

-- The fields of CMp4Demuxer, with the world that its calls change and the track that the pointer
-- argument of the parse functions points to (none for NULL). The map of tracks is a list of entries.
pub record Demuxer (W : Type 0) : Type 0 where
  pub world : W
  pub fd : Option ℕ
  pub duration : ℕ
  pub tracks : List (ℕ × Track)
  pub track : Option Track

pub data Run (S : Type 0) (A : Type 0) : Type 0 where
  ok : A → S → Run S A
  fail : S → Run S A
  fault : Run S A
  stuck : Run S A

abbrev pub M : Type 0 → Type 0 → Type 0
M S A = S → Run S A

module _ {S A B : Type 0} where
  abbrev pub and_then : Run S A → (A → M S B) → Run S B
  and_then (ok a s) k = k a s
  and_then (fail s) k = fail s
  and_then fault k = fault
  and_then stuck k = stuck

  infixl 5 ◌>>=◌ ◌>>◌
  abbrev pub ◌>>=◌ : M S A → (A → M S B) → M S B
  ◌>>=◌ m k s = and_then (m s) k

  abbrev pub ◌>>◌ : M S A → M S B → M S B
  ◌>>◌ m n s = and_then (m s) (λ _. n)

module _ {S : Type 0} where
  abbrev pub pure : {A : Type 0} → A → M S A
  pure a s = ok a s

  -- return true.
  abbrev pub done : M S (Unit {0})
  done s = ok tt s

  -- return false.
  abbrev pub give_up : {A : Type 0} → M S A
  give_up s = fail s

  abbrev pub crash : {A : Type 0} → M S A
  crash s = fault

  -- An iterator that find returned, where the end makes the function return false.
  unfoldable pub found : {A : Type 0} → Option A → M S A
  found none s = fail s
  found (some a) s = ok a s

  -- if-then-else between two runs.
  infix 1 when◌run◌otherwise◌
  abbrev pub when◌run◌otherwise◌ : {A : Type 0} → Bool → M S A → M S A → M S A
  when◌run◌otherwise◌ true m n s = m s
  when◌run◌otherwise◌ false m n s = n s

  -- if(false == b) return false;
  unfoldable pub require : Bool → M S (Unit {0})
  require true s = ok tt s
  require false s = fail s

  -- The run goes on only if b holds; what it does otherwise has no meaning.
  unfoldable pub must : Bool → M S (Unit {0})
  must true s = ok tt s
  must false s = fault

  -- An index of a vector, a fault when it is out of range.
  abbrev pub index : {A : Type 0} → Option A → M S A
  index none s = fault
  index (some a) s = ok a s

-- Whether a read's result is the count n, and the bytes that it delivered.
abbrev pub has_count : Option (List ℕ) → ℕ → Bool
has_count none n = false
has_count (some bs) n = length bs == n

abbrev pub bytes_of : Option (List ℕ) → List ℕ
bytes_of none = []
bytes_of (some bs) = bs

module _ (fs : FileSystem) where
  abbrev pub Dm : Type 0 → Type 0
  Dm A = M (Demuxer fs.World) A

  -- The bytes that a read delivers; none is the result -1.
  unfoldable pub read_fd : ℕ → Dm (Option (List ℕ))
  read_fd n s = let r = fs.read s.fd n s.world in ok r.0 (record s { world = r.1 })

  unfoldable pub pread_fd : ℕ → ℕ → Dm (Option (List ℕ))
  pread_fd n off s = ok (fs.pread s.fd n off s.world) s

  -- if(n != read(m_Fd, buf, n)) return false;
  unfoldable pub read_exact : ℕ → Dm (List ℕ)
  read_exact n = do r ← read_fd n; require (has_count r n); pure (bytes_of r)

  unfoldable pub read16be : Dm ℕ
  read16be = do bs ← read_exact 2; pure (be_value 0 bs)

  unfoldable pub read32be : Dm ℕ
  read32be = do bs ← read_exact 4; pure (be_value 0 bs)

  -- if(-1 == lseek(m_Fd, p, SEEK_SET)) return false;
  unfoldable pub seek_set : ℕ → Dm (Unit {0})
  seek_set p s =
      let r = fs.lseek_set s.fd p s.world in
      if r.0 then ok tt (record s { world = r.1 }) else fail (record s { world = r.1 })

  unfoldable pub seek_cur : ℕ → Dm (Unit {0})
  seek_cur p s =
      let r = fs.lseek_cur s.fd p s.world in
      if r.0 then ok tt (record s { world = r.1 }) else fail (record s { world = r.1 })

  -- A write through the track pointer.
  unfoldable pub on_track : (Track → Track) → Dm (Unit {0})
  on_track f s = elim s.track [ none ↦ fault | some t ↦ ok tt (record s { track = some (f t) }) ]

  unfoldable pub get_track : Dm Track
  get_track s = elim s.track [ none ↦ fault | some t ↦ ok t s ]
