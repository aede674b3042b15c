-- ===== src/FileSystem/InMemory.antt =====
-- A file system with one file, for concrete runs: its world is the offset of the descriptor.
use byron0416_mp.FileSystem.{FileSystem, IsRegularFile}
use byron0416_mp.Prelude.{ℕ, ◌+◌, refl, true, List, some, length, take, drop}

abbrev pub in_memory : List ℕ → FileSystem
in_memory bytes = record {
  World = ℕ;
  stat = λ name w. some (length bytes);
  open_file = λ name w. (some 3, 0);
  read = λ fd n w. (some (take n (drop w bytes)), w + length (take n (drop w bytes)));
  lseek_set = λ fd p w. (true, p);
  lseek_cur = λ fd p w. (true, w + p);
  pread = λ fd n p w. some (take n (drop p bytes));
  close = λ fd w. w;
  rand = λ w. (0x1234, w);
}

abbrev pub in_memory-IsRegularFile : (bytes : List ℕ) → IsRegularFile (in_memory bytes) (some 3)
in_memory-IsRegularFile bytes = record {
  bytes = bytes;
  offset = λ w. w;
  read_bytes = λ n w h. refl;
  read_moves = λ n w h. refl;
  seeks = λ p w. refl;
  seek_moves = λ p w. refl;
  rand_stays = λ w. refl;
}
