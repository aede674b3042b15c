-- ===== src/Mp4/Hint/Packets.antt =====
-- What GetRtpSample delivers: the form of each packet.
use mathlib.Core.List.{append_assoc, append-nil}
use byron0416_mp.FileSystem.{FileSystem}
use byron0416_mp.Rtp.{RtpPacket, RtpSample}
use byron0416_mp.Prelude.OrderedMap.{find, nat_key}
use byron0416_mp.Prelude.{
  ℕ, zero, suc, ◌≡◌, refl, sym, ap, ◌∙◌, inl, inr, List, [], ◌∷◌, ◌++◌, Option, some, length,
  get_elem?, ◌==◌, All, Bool-cases, be32, le32, sub64, sub32, add32,
}
use byron0416_mp.Mp4.State.{
  Track, Sample, Demuxer, Run, ok, read_fd, read_exact, read16be, read32be, seek_set, bytes_of,
  found, index, pread_fd,
}
use byron0416_mp.Mp4.State.Rules.{
  Returns, returns, on_fail, on_fault, on_stuck, Returns-bind, Returns-ok, Returns-require,
  Returns-mono, Returns-index,
}
use byron0416_mp.Mp4.Track.{to_ms}
use byron0416_mp.Mp4.Hint.{
  copy_into, read_pad, finish_immediate, immediate, immediate_entry, source_track, sample_bytes,
  result_word, byte_at, sample_entry, one_entry, entries, skip_extra, one_packet, packet_loop,
  next_sample, read_sample, get_rtp_sample, packet_entry, rtp_header,
}

-- The packet q begins with p.
pub record Extends (p q : RtpPacket) : Type 0 where
  pub rest : List ℕ
  pub splits : q ≡ p ++ rest

-- An RTP packet of version 2 with no padding, no extension and no contributing source, whose
-- timestamp and source are the given ones.
pub record IsRtpPacket (timestamp ssrc : ℕ) (p : RtpPacket) : Type 0 where
  pub marker : ℕ
  pub sequence_high : ℕ
  pub sequence_low : ℕ
  pub payload : List ℕ
  pub splits :
      p
      ≡ (0x80 ∷ marker ∷ sequence_high ∷ sequence_low ∷ [])
        ++ (be32 timestamp ++ (le32 ssrc ++ payload))

Extends-trans : {p q r : RtpPacket} → Extends p q → Extends q r → Extends p r
Extends-trans {p} e f = record {
  rest = e.rest ++ f.rest;
  splits = f.splits ∙ ap (λ x. x ++ f.rest) e.splits ∙ append_assoc p e.rest f.rest;
}

module _ (fs : FileSystem) where
  abbrev S : Type 0
  S = Demuxer fs.World

  anything : {A : Type 0} (r : Run S A) → Returns (λ _ _. Unit {0}) r
  anything (Run.ok a s) = returns tt
  anything (Run.fail s) = on_fail
  anything Run.fault = on_fault
  anything Run.stuck = on_stuck

  copy_into-Extends :
      (p : RtpPacket) (r : Option (List ℕ)) (s : S) → Returns (λ q _. Extends p q) (copy_into p r s)
  unfolding copy_into
  copy_into-Extends p r s = returns (record { rest = bytes_of r; splits = refl })

  finish_immediate-Extends :
      (p q : RtpPacket) (cn : ℕ) (s : S)
      → Extends p q
      → Returns (λ r _. Extends p r) (finish_immediate fs q cn s)
  unfolding finish_immediate
  finish_immediate-Extends p q cn s e =
      Returns-bind (anything (read_pad fs (sub64 14 cn) s)) λ pad t _.
        Returns-bind (Returns-require (result_word pad == sub64 14 cn) t) λ _ _ _. returns e

  immediate-Extends :
      (p : RtpPacket) (cn : ℕ) (s : S) → Returns (λ q _. Extends p q) (immediate fs p cn s)
  unfolding immediate
  immediate-Extends p cn s = Returns-bind (anything (read_fd fs cn s)) λ r s₁ _.
      Returns-bind (copy_into-Extends p r s₁) λ q s₂ e.
        Returns-bind (Returns-require (result_word r == cn) s₂)
          λ _ s₃ _. finish_immediate-Extends p q cn s₃ e

  immediate_entry-Extends :
      (p : RtpPacket) (s : S) → Returns (λ q _. Extends p q) (immediate_entry fs p s)
  unfolding immediate_entry
  immediate_entry-Extends p s =
      Returns-bind (anything (read_exact fs 1 s)) λ bs t _. immediate-Extends p _ t

  sample_bytes-Extends :
      (t : Track) (p : RtpPacket) (i len num off : ℕ) (s : S)
      → Returns (λ q _. Extends p q) (sample_bytes fs t p i len num off s)
  unfolding sample_bytes
  sample_bytes-Extends t p i len num off s =
      Returns-bind (anything (found (source_track fs t i s) s)) λ u s₁ _.
        Returns-bind (anything (index (get_elem? u.samples (sub32 num 1)) s₁)) λ sample s₂ _.
          Returns-bind (anything (pread_fd fs len (add32 off sample.offset) s₂)) λ r s₃ _.
            Returns-bind (copy_into-Extends p r s₃)
              λ q s₄ e. Returns-bind (Returns-require (result_word r == len) s₄) λ _ _ _. returns e

  sample_entry-Extends :
      (t : Track) (p : RtpPacket) (s : S) → Returns (λ q _. Extends p q) (sample_entry fs t p s)
  unfolding sample_entry
  sample_entry-Extends t p s = Returns-bind (anything (read_exact fs 1 s)) λ i s₁ _.
      Returns-bind (anything (read16be fs s₁)) λ len s₂ _.
        Returns-bind (anything (read32be fs s₂)) λ num s₃ _.
          Returns-bind (anything (read32be fs s₃)) λ off s₄ _.
            Returns-bind (anything (read32be fs s₄))
              λ skip s₅ _. sample_bytes-Extends t p (byte_at i 0) len num off s₅

  one_entry-Extends :
      (t : Track) (p : RtpPacket) (type : ℕ) (s : S)
      → Returns (λ q _. Extends p q) (one_entry fs t p type s)
  unfolding one_entry
  one_entry-Extends t p type s = elim (Bool-cases (type == 1)) [
    | inl e ↦ rw e (immediate_entry-Extends p s)
    | inr e ↦ rw e (elim (Bool-cases (type == 2)) [
      | inl e₂ ↦ rw e₂ (sample_entry-Extends t p s)
      | inr e₂ ↦ rw e₂ on_fault
    ])
  ]

  entries-Extends :
      (t : Track) (n : ℕ) (p : RtpPacket) (s : S)
      → Returns (λ q _. Extends p q) (entries fs t n p s)
  unfolding entries
  entries-Extends t zero p s = returns (record { rest = []; splits = sym (append-nil p) })
  entries-Extends t (suc n) p s = Returns-bind (anything (read_exact fs 1 s)) λ bs s₁ _.
      Returns-bind (one_entry-Extends t p (byte_at bs 0) s₁)
        λ q s₂ e. Returns-mono (λ r _ f. Extends-trans e f) (entries-Extends t n q s₂)

  one_packet-IsRtpPacket :
      (t : Track) (sample : Sample) (s : S)
      → Returns (λ q _. IsRtpPacket sample.timestamp t.ssrc q) (one_packet fs t sample s)
  unfolding one_packet packet_entry
  one_packet-IsRtpPacket t sample s = Returns-bind (anything (read_exact fs 12 s)) λ bs s₁ _.
      Returns-bind (anything (skip_extra fs (packet_entry bs) s₁)) λ _ s₂ _.
        Returns-mono
          (λ q _ e. record {
            marker = byte_at bs 5;
            sequence_high = byte_at bs 6;
            sequence_low = byte_at bs 7;
            payload = e.rest;
            splits = e.splits;
          })
          (entries-Extends t _ (rtp_header (packet_entry bs) sample.timestamp t.ssrc) s₂)

  -- The packets that a loop of n rounds puts behind those that are there.
  record Adds (t : Track) (sample : Sample) (n : ℕ) (old all : List RtpPacket) : Type 0 where
    fresh : List RtpPacket
    splits : all ≡ old ++ fresh
    number : length fresh ≡ n
    formed : All (IsRtpPacket sample.timestamp t.ssrc) fresh

  packet_loop-Adds :
      (t : Track) (sample : Sample) (n : ℕ) (old : List RtpPacket) (s : S)
      → Returns (λ all _. Adds t sample n old all) (packet_loop fs t sample n old s)
  unfolding packet_loop
  packet_loop-Adds t sample zero old s =
      returns (record { fresh = []; splits = sym (append-nil old); number = refl; formed = tt })
  packet_loop-Adds t sample (suc n) old s =
      Returns-bind (one_packet-IsRtpPacket t sample s) λ p s₁ e.
        Returns-mono
          (λ all _ a. record {
            fresh = p ∷ a.fresh;
            splits = a.splits ∙ append_assoc old (p ∷ []) a.fresh;
            number = ap suc a.number;
            formed = (e, a.formed);
          })
          (packet_loop-Adds t sample n (old ++ (p ∷ [])) s₁)

  read_sample-packets :
      (id : ℕ) (t : Track) (sample : Sample) (rtp : RtpSample) (s : S)
      → Returns
          (λ out _.
            (to_ms t.timescale sample.timestamp ≡ some out.timestamp)
            × (n : ℕ) × Adds t sample n rtp.packets out.packets)
          (read_sample fs id t sample rtp s)
  unfolding read_sample
  read_sample-packets id t sample rtp s =
      Returns-bind (Returns-index (to_ms t.timescale sample.timestamp) s) λ ms s₁ e.
        Returns-bind (anything (seek_set fs sample.offset s₁)) λ _ s₂ _.
          Returns-bind (anything (read16be fs s₂)) λ count s₃ _.
            Returns-bind (anything (read16be fs s₃)) λ reserved s₄ _.
              Returns-bind (packet_loop-Adds t sample count rtp.packets s₄) λ packets s₅ a.
                Returns-bind (anything (next_sample fs id t s₅)) λ _ _ _. returns (e, count, a)

  -- When GetRtpSample returns true for a track that still has a sample, the time that it hands out
  -- is that of the sample in milliseconds, the packets that were in the argument stay in front, and
  -- each packet behind them begins with the header of an RTP packet that carries the sample's
  -- timestamp and the track's source.
  pub get_rtp_sample-IsRtpPacket :
      (id : ℕ) (t : Track) (sample : Sample) (rtp out : RtpSample) (s s' : S)
      → find id s.tracks ≡ some t
      → get_elem? t.samples t.sample_readed ≡ some sample
      → get_rtp_sample fs id rtp s ≡ ok out s'
      → (to_ms t.timescale sample.timestamp ≡ some out.timestamp)
        × (fresh : List RtpPacket) × (out.packets ≡ rtp.packets ++ fresh)
        × All (IsRtpPacket sample.timestamp t.ssrc) fresh
  unfolding get_rtp_sample
  get_rtp_sample-IsRtpPacket id t sample rtp out s s' known at_sample run =
      let (ms, n, a) =
        Returns-ok (read_sample-packets id t sample rtp s)
          (rw (known, get_rtp_sample, at_sample, get_rtp_sample) at run) in
      (ms, a.fresh, a.splits, a.formed)
