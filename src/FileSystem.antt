-- ===== src/FileSystem.antt =====
-- The system calls that the demuxer makes on its file: stat, open, read, lseek, pread and close, and
-- the C library's rand. They are not part of the program, so they are a parameter of the model.
-- A descriptor is `some fd` when the number is positive, and `none` for the -1 of a closed one; a
-- call on `none` is passed on to the system as it is. `none` as the result of a read is its -1.
pub mod InMemory
use byron0416_mp.Prelude.{ℕ, ◌+◌, ◌≤◌, ◌≡◌, Bool, true, List, Option, some, length, take, drop}

pub record FileSystem : Type 1 where
  pub World : Type 0
  pub stat : List ℕ → World → Option ℕ
  pub open_file : List ℕ → World → Option ℕ × World
  pub read : Option ℕ → ℕ → World → Option (List ℕ) × World
  pub lseek_set : Option ℕ → ℕ → World → Bool × World
  pub lseek_cur : Option ℕ → ℕ → World → Bool × World
  pub pread : Option ℕ → ℕ → ℕ → World → Option (List ℕ)
  pub close : Option ℕ → World → World
  pub rand : World → ℕ × World

-- What POSIX says of a regular file that is open for reading: a read takes the bytes that lie at
-- the file offset, as many as there are up to the count, and moves the offset behind them; seeking
-- sets the offset. The file's bytes do not change, and rand leaves the descriptor alone.
pub record IsRegularFile (fs : FileSystem) (fd : Option ℕ) : Type 0 where
  pub bytes : List ℕ
  pub offset : fs.World → ℕ
  pub read_bytes :
      (n : ℕ) (w : fs.World) → n ≤ 2048 → (fs.read fd n w).0 ≡ some (take n (drop (offset w) bytes))
  pub read_moves :
      (n : ℕ) (w : fs.World)
      → n ≤ 2048
      → offset (fs.read fd n w).1 ≡ offset w + length (take n (drop (offset w) bytes))
  pub seeks : (p : ℕ) (w : fs.World) → (fs.lseek_set fd p w).0 ≡ true
  pub seek_moves : (p : ℕ) (w : fs.World) → offset (fs.lseek_set fd p w).1 ≡ p
  pub rand_stays : (w : fs.World) → offset (fs.rand w).1 ≡ offset w
