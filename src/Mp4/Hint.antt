-- ===== src/Mp4/Hint.antt =====
-- Mp4.cpp, CMp4Demuxer::GetRtpSample: the packets of the next sample of a hint track, put together
-- from the entries of the hint sample.
pub mod Packets
use byron0416_mp.FileSystem.{FileSystem}
use byron0416_mp.Rtp.{rtp_mtu, RtpPacket, RtpSample}
use byron0416_mp.Prelude.OrderedMap.{find, assign, nat_key}
use byron0416_mp.Prelude.{
  ℕ, zero, suc, ◌+◌, ◌-◌, ◌*◌, ◌/◌, ◌%◌, ◌^◌, Bool, true, false, List, [], ◌∷◌, ◌++◌, Option, none,
  some, length, get_elem?, take, drop, ltb, leb, ◌==◌, if◌then◌else◌, be_value, le_value, be32,
  le32, add32, sub32, sub64, mul64,
}
use byron0416_mp.Mp4.State.{
  Track, Sample, Demuxer, Run, ok, fail, M, must, require, found, pread_fd, fault, stuck, ◌>>=◌,
  ◌>>◌, pure, done, give_up, crash, when◌run◌otherwise◌, index, Dm, read_fd, read_exact, read16be,
  read32be, seek_set, seek_cur, bytes_of,
}
use byron0416_mp.Mp4.Track.{to_ms}

abbrev pub byte_at : List ℕ → ℕ → ℕ
byte_at bs i = elim (get_elem? bs i) [ none ↦ 0 | some b ↦ b % 256 ]

-- A char as a 64-bit word, sign and all, and the ssize_t that a read returns.
abbrev pub sign_extend : ℕ → ℕ
sign_extend c = if ltb c 128 then c else 2 ^ 64 - 256 + c

abbrev pub result_word : Option (List ℕ) → ℕ
result_word none = 2 ^ 64 - 1
result_word (some bs) = length bs

-- The twelve bytes of struct CPacketEntry. m_Flags stays in the host's byte order.
pub record PacketEntry : Type 0 where
  pub header : List ℕ
  pub flags : ℕ
  pub count : ℕ

-- The header's first byte is replaced where it is not 0x80.
unfoldable pub packet_entry : List ℕ → PacketEntry
packet_entry bs = record {
  header = 0x80 ∷ byte_at bs 5 ∷ byte_at bs 6 ∷ byte_at bs 7 ∷ [];
  flags = le_value (byte_at bs 8 ∷ byte_at bs 9 ∷ []);
  count = be_value 0 (byte_at bs 10 ∷ byte_at bs 11 ∷ []);
}

-- entry.m_Flags & 0x00000004.
abbrev pub has_extra : PacketEntry → Bool
has_extra e = (e.flags / 4) % 2 == 1

-- The first twelve bytes of a packet.
abbrev pub rtp_header : PacketEntry → ℕ → ℕ → List ℕ
rtp_header e timestamp ssrc = e.header ++ (be32 timestamp ++ le32 ssrc)

-- The bytes that are copied into a packet behind those that it has. The source checks no bound here:
-- a packet of the model grows on, also past the 1460 bytes of m_Packet.
module _ {S : Type 0} where
  unfoldable pub copy_into : RtpPacket → Option (List ℕ) → M S RtpPacket
  copy_into packet r = pure (packet ++ bytes_of r)

module _ (fs : FileSystem) where
  -- read(m_Fd, pad, n) into an array of fourteen bytes.
  unfoldable pub read_pad : ℕ → Dm fs (Option (List ℕ))
  read_pad n = do r ← read_fd fs n; must (leb (length (bytes_of r)) 14); pure r

  -- if(14-cn != read(m_Fd, pad, 14-cn)) return false;
  unfoldable pub finish_immediate : RtpPacket → ℕ → Dm fs RtpPacket
  finish_immediate packet cn = do
    pad ← read_pad (sub64 14 cn)
    require (result_word pad == sub64 14 cn)
    pure packet

  -- Entries of type 1: up to fourteen bytes that stand in the entry itself.
  unfoldable pub immediate : RtpPacket → ℕ → Dm fs RtpPacket
  immediate packet cn = do
    r ← read_fd fs cn
    packet' ← copy_into packet r
    require (result_word r == cn)
    finish_immediate packet' cn

  unfoldable pub immediate_entry : RtpPacket → Dm fs RtpPacket
  immediate_entry packet = do bs ← read_exact fs 1; immediate packet (sign_extend (byte_at bs 0))

  -- The track whose sample an entry of type 2 points to.
  unfoldable pub source_track : Track → ℕ → Demuxer fs.World → Option Track
  source_track t i s = if i == 0 then find t.refer s.tracks else some t

  unfoldable pub sample_bytes : Track → RtpPacket → ℕ → ℕ → ℕ → ℕ → Dm fs RtpPacket
  sample_bytes t packet i len num off s =
      (do
        u ← found (source_track t i s)
        sample ← index (get_elem? u.samples (sub32 num 1))
        r ← pread_fd fs len (add32 off sample.offset)
        packet' ← copy_into packet r
        require (result_word r == len)
        pure packet')
        s

  unfoldable pub sample_entry : Track → RtpPacket → Dm fs RtpPacket
  sample_entry t packet = do
    i ← read_exact fs 1
    len ← read16be fs
    num ← read32be fs
    off ← read32be fs
    skip ← read32be fs
    sample_bytes t packet (byte_at i 0) len num off

  unfoldable pub one_entry : Track → RtpPacket → ℕ → Dm fs RtpPacket
  one_entry t packet type =
      when type == 1
      run immediate_entry packet
      otherwise (when type == 2 run sample_entry t packet otherwise crash)

  -- for(n=0; n<entry.m_Count; n++)
  unfoldable pub entries : Track → ℕ → RtpPacket → Dm fs RtpPacket
  entries t zero packet = pure packet
  entries t (suc n) packet = do
    bs ← read_exact fs 1
    packet' ← one_entry t packet (byte_at bs 0)
    entries t n packet'

  unfoldable pub skip_extra : PacketEntry → Dm fs (Unit {0})
  skip_extra e =
      when has_extra e run (do len ← read32be fs; seek_cur fs (sub32 len 4)) otherwise done

  unfoldable pub one_packet : Track → Sample → Dm fs RtpPacket
  one_packet t sample = do
    bs ← read_exact fs 12
    skip_extra (packet_entry bs)
    entries t (packet_entry bs).count (rtp_header (packet_entry bs) sample.timestamp t.ssrc)

  -- for(i=0; i<count; i++), with the packets pushed so far.
  unfoldable pub packet_loop : Track → Sample → ℕ → List RtpPacket → Dm fs (List RtpPacket)
  packet_loop t sample zero packets = pure packets
  packet_loop t sample (suc n) packets = do
    packet ← one_packet t sample
    packet_loop t sample n (packets ++ (packet ∷ []))

  -- trk.m_SampleReaded ++
  unfoldable pub next_sample : ℕ → Track → Dm fs (Unit {0})
  next_sample id t s =
      ok tt (record s {
        tracks = assign id (record t { sample_readed = t.sample_readed + 1 }) s.tracks;
      })

  unfoldable pub read_sample : ℕ → Track → Sample → RtpSample → Dm fs RtpSample
  read_sample id t sample rtp = do
    ms ← index (to_ms t.timescale sample.timestamp)
    seek_set fs sample.offset
    count ← read16be fs
    reserved ← read16be fs
    packets ← packet_loop t sample count rtp.packets
    next_sample id t
    pure (record { timestamp = ms; packets = packets })

  unfoldable pub get_rtp_sample : ℕ → RtpSample → Dm fs RtpSample
  get_rtp_sample id rtp s = elim (find id s.tracks) [
    | none ↦ fail s
    | some t ↦ elim (get_elem? t.samples t.sample_readed) [
      | none ↦ ok rtp s
      | some sample ↦ read_sample id t sample rtp s
    ]
  ]
