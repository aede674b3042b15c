-- ===== src/Disk/Settled.antt =====
-- io/Disk.cpp: how CDiskIO::AsyncRead ends.
use byron0416_mp.Error.{ErrorCode}
use byron0416_mp.Prelude.{
  ℕ, ◌≡◌, ◌⊎◌, inl, inr, List, [], ◌∷◌, none, some, Bool, false, refl, ◌==◌, Bool-cases,
  Option-cases,
}
use byron0416_mp.Disk.{
  Calls, Disk, Outcome, Window, Opened, descriptor, no_access, no_file, window, get_file_path,
  alloc, start_read, prepare, after_open, async_read,
}

-- Either the reader has got one code and both descriptors are closed, with nothing submitted unless
-- the registering failed behind it; or it has got none yet, the descriptors are open, and the given
-- part of the file was submitted.
abbrev pub IsSettled : Bool → Window → Outcome → Type 0
IsSettled registers w o =
    ((code : ErrorCode) × (o.returned ≡ code ∷ []))
      × (o.disk.fd ≡ none)
      × (o.disk.event_fd ≡ none)
      × ((o.submitted ≡ none) ⊎ (o.submitted ≡ some w) × (registers ≡ false))
    ⊎ (o.returned ≡ [])
      × ((fd : ℕ) × (o.disk.fd ≡ some fd))
      × ((event_fd : ℕ) × (o.disk.event_fd ≡ some event_fd))
      × (o.submitted ≡ some w)
      × (o.disk.offset ≡ w.inner)
      × (o.disk.len ≡ w.len)
      × (o.disk.buffer.offset ≡ w.inner)

-- What start_read makes of a reader that is prepared.
start_read-IsSettled :
    (calls : Calls) (w : Window) (d : Disk) (fd : ℕ)
    → d.fd ≡ some fd
    → d.offset ≡ w.inner
    → d.len ≡ w.len
    → d.buffer.offset ≡ w.inner
    → IsSettled calls.register w (start_read calls w d)
unfolding start_read
start_read-IsSettled calls w d fd at_fd at_offset at_len at_buffer =
    elim (Option-cases calls.eventfd) [
      | inl fails ↦ rw fails (inl ((_, refl), refl, refl, inl refl))
      | inr (event_fd, opens) ↦ rw opens (elim (Bool-cases calls.io_setup) [
        | inr fails ↦ rw fails (inl ((_, refl), refl, refl, inl refl))
        | inl sets ↦ rw sets (elim (Bool-cases (calls.io_submit w)) [
          | inr fails ↦ rw fails (inl ((_, refl), refl, refl, inl refl))
          | inl submits ↦ rw submits (elim (Bool-cases calls.register) [
            | inr fails ↦ rw fails (inl ((_, refl), refl, refl, inr (refl, refl)))
            | inl registers ↦
                rw registers
                  (inr (refl, (fd, at_fd), (event_fd, refl), refl, at_offset, at_len, at_buffer))
          ])
        ])
      ])
    ]

prepare-IsSettled :
    (calls : Calls) (w : Window) (d : Disk) (fd : ℕ)
    → d.fd ≡ some fd
    → IsSettled calls.register w (prepare calls w d)
unfolding prepare
prepare-IsSettled calls w d fd at_fd = elim (Bool-cases (alloc calls.memalign w.span d.buffer).0) [
  | inr fails ↦ rw fails (inl ((_, refl), refl, refl, inl refl))
  | inl fits ↦ rw fits (start_read-IsSettled calls w _ fd at_fd refl refl refl)
]

after_open-IsSettled :
    (calls : Calls) (w : Window) (d : Disk) (o : Opened)
    → d.event_fd ≡ none
    → IsSettled calls.register w (after_open calls w d o)
unfolding after_open
after_open-IsSettled calls w d (descriptor fd) no_event = prepare-IsSettled calls w _ fd refl
after_open-IsSettled calls w d no_access no_event = inl ((_, refl), refl, no_event, inl refl)
after_open-IsSettled calls w d no_file no_event = inl ((_, refl), refl, no_event, inl refl)

-- AsyncRead on an idle reader answers once: either it has returned exactly one code and closed both
-- descriptors, and then it has submitted nothing, or the aligned part of the file where RegisterRD
-- failed behind the submission; or it has returned nothing yet, keeps both open and has
-- submitted the aligned part of the file, with the wanted place in it stored for later.
pub async_read-IsSettled :
    (calls : Calls) (paths : List (List ℕ)) (path : List ℕ) (offset len : ℕ) (d : Disk)
    → d.fd ≡ none
    → d.event_fd ≡ none
    → IsSettled calls.register
        (window offset len (get_file_path calls.stat paths path).0)
        (async_read calls paths path offset len d)
unfolding async_read
async_read-IsSettled calls paths path offset len d no_fd no_event =
    let found = get_file_path calls.stat paths path in
    elim (Bool-cases (found.0 == 0)) [
      | inl absent ↦ rw absent (inl ((_, refl), no_fd, no_event, inl refl))
      | inr present ↦ rw present (after_open-IsSettled calls _ d (calls.open_file found.1) no_event)
    ]
