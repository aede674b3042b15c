-- ===== src/Disk.antt =====
-- io/IO.h, io/IO.cpp, io/Disk.h and io/Disk.cpp: the buffer of a reader (CBuffer), and the
-- asynchronous read of a part of a file (CDiskIO). Calls of the system are arguments; a read ends in
-- an outcome: the code that ReturnEvent hands to the reader, or that the kernel has still to answer.
pub mod Aligned
pub mod Settled
mod Tests
use byron0416_mp.Error.{ErrorCode, e_ok, e_forbidden, e_notfound, e_error}
use byron0416_mp.Prelude.{
  ℕ, ◌+◌, ◌*◌, ◌/◌, Bool, true, false, List, [], ◌∷◌, ◌++◌, Option, none, some, ltb, leb, ◌==◌,
  if◌then◌else◌, ◌||◌, length, drop, take, replicate, add64, sub64, mul64,
}

-- m_Buf (none for NULL) with what it holds, m_Len, m_Offset and m_Used.
pub record Buffer : Type 0 where
  pub memory : Option (List ℕ)
  pub len : ℕ
  pub offset : ℕ
  pub used : ℕ

abbrev pub new_buffer : Buffer
new_buffer = record { memory = none; len = 0; offset = 0; used = 0 }

-- posix_memalign, which gives a block or fails, and memset over the block.
unfoldable pub alloc_new : (ℕ → Option (List ℕ)) → ℕ → Buffer → Bool × Buffer
alloc_new memalign len b = elim (memalign len) [
  | none ↦ (false, b)
  | some block ↦ (true, record b { memory = some (replicate len 0); len = len })
]

-- CBuffer::Alloc.
unfoldable pub alloc : (ℕ → Option (List ℕ)) → ℕ → Buffer → Bool × Buffer
alloc memalign len b =
    let b' : Buffer = record b { offset = 0; used = 0 } in
    elim b.memory [
      | none ↦ alloc_new memalign len b'
      | some old ↦
          if leb len b.len
          then (true, record b' { memory = some (replicate len 0 ++ drop len old) })
          else alloc_new memalign len (record b' { memory = none; len = 0 })
    ]

-- CBuffer::GetData: the length that it hands back, and the bytes at the pointer that it returns.
unfoldable pub get_data : Buffer → ℕ × Option (List ℕ)
get_data b = (b.used, elim b.memory [ none ↦ none | some bytes ↦ some (drop b.offset bytes) ])

abbrev pub align_size : ℕ
align_size = 512

-- The part of the file that AsyncRead asks the kernel for, from the offset and the length that the
-- caller wants and the size of the file: where it starts, its length, and m_Offset and m_Len.
pub record Window : Type 0 where
  pub start : ℕ
  pub span : ℕ
  pub inner : ℕ
  pub len : ℕ

abbrev pub wanted : ℕ → ℕ → ℕ
wanted len size = if (len == 0) || ltb size len then size else len

unfoldable pub window : ℕ → ℕ → ℕ → Window
window offset len size =
    let len' = wanted len size in
    let start = mul64 (offset / align_size) align_size in
    record {
      start = start;
      span =
          sub64 (mul64 (sub64 (add64 (add64 offset len') align_size) 1 / align_size) align_size)
            start;
      inner = sub64 offset start;
      len = len';
    }

-- m_Len after a read of which the kernel says that it gave res bytes.
unfoldable pub finish_len : ℕ → ℕ → ℕ → ℕ
finish_len len res offset = if ltb len (sub64 res offset) then len else sub64 res offset

-- GetFilePath: the first of the paths under which stat finds the file, and its size; 0 if none.
unfoldable pub get_file_path : (List ℕ → Option ℕ) → List (List ℕ) → List ℕ → ℕ × List ℕ
get_file_path stat [] path = (0, path)
get_file_path stat (p ∷ ps) path =
    let rest = get_file_path stat ps path in
    elim (stat (p ++ path)) [ none ↦ rest | some size ↦ (size, p ++ path) ]

-- What open gives: a descriptor, EACCES, or another error.
pub data Opened : Type 0 where
  descriptor : ℕ → Opened
  no_access no_file : Opened

-- The results of the calls that one AsyncRead makes, RegisterRD included.
pub record Calls : Type 0 where
  pub stat : List ℕ → Option ℕ
  pub open_file : List ℕ → Opened
  pub memalign : ℕ → Option (List ℕ)
  pub eventfd : Option ℕ
  pub io_setup : Bool
  pub io_submit : Window → Bool
  pub register : Bool

-- m_Fd and m_EventFd (none for -1), m_Offset and m_Len, and the buffer that m_Buf points to.
pub record Disk : Type 0 where
  pub fd : Option ℕ
  pub event_fd : Option ℕ
  pub offset : ℕ
  pub len : ℕ
  pub buffer : Buffer

-- What a call leaves: the reader, the codes that ReturnEvent was called with, and what was submitted.
pub record Outcome : Type 0 where
  pub disk : Disk
  pub returned : List ErrorCode
  pub submitted : Option Window

-- Close. The reader's buffer keeps what it holds.
abbrev pub close : Disk → Disk
close d = record d { fd = none; event_fd = none; offset = 0; len = 0 }

-- Close, and ReturnEvent, with what has been submitted before.
abbrev pub give_back : ErrorCode → Option Window → Disk → Outcome
give_back code submitted d = record { disk = close d; returned = code ∷ []; submitted = submitted }

unfoldable pub start_read : Calls → Window → Disk → Outcome
start_read calls w d = elim calls.eventfd [
  | none ↦ give_back e_error none d
  | some event_fd ↦
      let d' = record d { event_fd = some event_fd } in
      if calls.io_setup
      then (if calls.io_submit w
          then (if calls.register
              then record { disk = d'; returned = []; submitted = some w }
              else give_back e_error (some w) d')
          else give_back e_error none d')
      else give_back e_error none d'
]

unfoldable pub prepare : Calls → Window → Disk → Outcome
prepare calls w d =
    let d' = record d { offset = w.inner; len = w.len } in
    let r = alloc calls.memalign w.span d.buffer in
    if r.0
    then start_read calls w (record d' { buffer = record r.1 { offset = w.inner } })
    else give_back e_error none (record d' { buffer = r.1 })

-- AsyncRead behind the call of open, with the end of Open.
unfoldable pub after_open : Calls → Window → Disk → Opened → Outcome
after_open calls w d (descriptor fd) = prepare calls w (record d { fd = some fd })
after_open calls w d no_access = record {
  disk = record d { fd = none };
  returned = e_forbidden ∷ [];
  submitted = none;
}
after_open calls w d no_file = record {
  disk = record d { fd = none };
  returned = e_error ∷ [];
  submitted = none;
}

-- AsyncRead, with Open.
unfoldable pub async_read : Calls → List (List ℕ) → List ℕ → ℕ → ℕ → Disk → Outcome
async_read calls paths path offset len d =
    let found = get_file_path calls.stat paths path in
    if found.0 == 0
    then record { disk = d; returned = e_notfound ∷ []; submitted = none }
    else after_open calls (window offset len found.0) d (calls.open_file found.1)

-- OnRead, for one eventfd read that gives the count of finished reads; io_getevents gives the bytes
-- that the kernel read, or none where it does not give one event.
unfoldable pub on_read : ℕ → Option ℕ → Disk → Outcome
on_read finish event d =
    if finish == 1
    then elim event [
      | none ↦ give_back e_error none d
      | some res ↦
          give_back e_ok none
            (record d { buffer = record d.buffer { used = finish_len d.len res d.offset } })
    ]
    else give_back e_error none d
