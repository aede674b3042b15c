-- ===== src/Rtp.antt =====
-- Rtp.h: the sources of RTP data, and the packets that they hand to the players.
use byron0416_mp.Prelude.{ℕ, Bool, List, [], Option}

-- RTP_MTU, the size of CRtpPacket::m_Packet.
abbrev pub rtp_mtu : ℕ
rtp_mtu = 1460

-- A packet is the part of its buffer that m_Len counts.
abbrev pub RtpPacket : Type 0
RtpPacket = List ℕ

pub record RtpSample : Type 0 where
  pub timestamp : ℕ
  pub packets : List RtpPacket

abbrev pub empty_sample : RtpSample
empty_sample = record { timestamp = 0; packets = [] }

-- CRtpSource, with Parse and Close of its one implementation. get_rtp_sample is given the sample that
-- it fills in, and its inner none is the result false; the outer none is a fault.
pub record RtpSource : Type 1 where
  pub State : Type 0
  pub parse : List ℕ → State → Option (Bool × State)
  pub get_duration : State → ℕ
  pub get_track_id : State → List ℕ
  pub get_sdp : ℕ → State → List ℕ
  pub seek : ℕ → State → Option (Bool × State)
  pub get_rtp_sample : ℕ → RtpSample → State → Option (Option RtpSample × State)
  pub close : State → State
