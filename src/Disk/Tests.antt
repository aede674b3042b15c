-- ===== src/Disk/Tests.antt =====
-- A read of a small file.
use byron0416_mp.Prelude.{◌+◌, ◌%◌, ◌≤◌, ◌<◌, ◌≡◌, refl, true, [], ◌∷◌, none, some, arith}
use byron0416_mp.Disk.{
  Calls, Disk, descriptor, new_buffer, wanted, window, get_file_path, async_read,
}
use byron0416_mp.Disk.Aligned.{window_lem}
use byron0416_mp.Disk.Settled.{IsSettled, async_read-IsSettled}

abbrev calls : Calls
calls = record {
  stat = λ path. some 2000;
  open_file = λ path. descriptor 5;
  memalign = λ len. some [];
  eventfd = some 6;
  io_setup = true;
  io_submit = λ w. true;
  register = true;
}

abbrev idle : Disk
idle = record { fd = none; event_fd = none; offset = 0; len = 0; buffer = new_buffer }

window-lines : window 700 100 2000 ≡ record { start = 512; span = 512; inner = 188; len = 100 }
unfolding window
window-lines = refl

window_lem_example :
    ((window 700 100 2000).start % 512 ≡ 0)
    × ((window 700 100 2000).span % 512 ≡ 0)
    × ((window 700 100 2000).start + (window 700 100 2000).inner ≡ 700)
    × ((window 700 100 2000).inner + wanted 100 2000 ≤ (window 700 100 2000).span)
    × ((window 700 100 2000).span < wanted 100 2000 + 1024)
    × ((window 700 100 2000).len ≡ wanted 100 2000)
window_lem_example = window_lem 700 100 2000 (omega arith)

async_read-IsSettled_example :
    IsSettled true
      (window 700 100 (get_file_path calls.stat ((b'/' ∷ []) ∷ []) (b'a' ∷ [])).0)
      (async_read calls ((b'/' ∷ []) ∷ []) (b'a' ∷ []) 700 100 idle)
async_read-IsSettled_example =
    async_read-IsSettled calls ((b'/' ∷ []) ∷ []) (b'a' ∷ []) 700 100 idle refl refl
