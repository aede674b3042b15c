-- ===== src/Player.antt =====
-- Rtp.h: CRtpPlayer, the interface through which a session drives its players. none is a fault, such
-- as a failed assert. Descriptors are none for -1.
use byron0416_mp.Prelude.{ℕ, Bool, Option}
use byron0416_mp.Text.{Text}

pub record RtpPlayer : Type 1 where
  pub State : Type 0
  pub setup : Text → State → Option (Bool × State)
  pub get_sdp : State → Text
  pub set_interleaved : ℕ → ℕ → State → Option (Bool × State)
  pub seek : ℕ → State → Option (Bool × State)
  pub play : Option ℕ → State → Option (Bool × State)
  pub current_pos : State → ℕ
  pub pause : State → Option (Bool × State)
  pub teardown : State → State
