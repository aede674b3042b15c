-- ===== src/Disk/Aligned.antt =====
-- io/Disk.cpp: the arithmetic of an aligned read.
use byron0416_mp.Prelude.{ℕ, ◌+◌, ◌%◌, ◌^◌, ◌≤◌, ◌<◌, ◌≡◌, arith}
use byron0416_mp.Disk.{wanted, window, finish_len}

-- The window that AsyncRead asks for starts and ends at multiples of 512, as direct reads need,
-- covers all that the caller wants, is less than 1024 bytes longer than that, and m_Offset is the
-- place of the wanted part in it.
pub window_lem :
    (offset len size : ℕ)
    → offset + size + 512 < 2 ^ 63
    → ((window offset len size).start % 512 ≡ 0)
      × ((window offset len size).span % 512 ≡ 0)
      × ((window offset len size).start + (window offset len size).inner ≡ offset)
      × ((window offset len size).inner + wanted len size ≤ (window offset len size).span)
      × ((window offset len size).span < wanted len size + 1024)
      × ((window offset len size).len ≡ wanted len size)
unfolding window
window_lem offset len size small = ground arith

-- When the kernel gave at least the bytes in front of the wanted part, what the reader is told to
-- be in the buffer is wanted and was read.
pub finish_len_lem :
    (offset len size res : ℕ)
    → offset + size + 512 < 2 ^ 63
    → (window offset len size).inner ≤ res
    → res < 2 ^ 63
    → (finish_len (wanted len size) res (window offset len size).inner ≤ wanted len size)
      × ((window offset len size).inner
            + finish_len (wanted len size) res (window offset len size).inner
          ≤ res)
unfolding finish_len
finish_len_lem offset len size res small enough hi = (ground arith, ground arith)

-- When the kernel gave fewer bytes than lie in front of the wanted part, the difference wraps: the
-- reader is told that all it wanted is in the buffer, though none of it was read.
pub finish_len-wraps :
    (offset len size res : ℕ)
    → offset + size + 512 < 2 ^ 63
    → res < (window offset len size).inner
    → finish_len (wanted len size) res (window offset len size).inner ≡ wanted len size
unfolding finish_len window
finish_len-wraps offset len size res small short = ground arith
