-- ===== src/Socket/Line.antt =====
-- The system's calls of Socket.h where a connection takes all that it is given.
use byron0416_mp.Prelude.{ℕ, ◌≡◌, refl, true, List, ◌++◌, Option, none, some, length}
use byron0416_mp.Socket.{Net, refused}
use byron0416_mp.Text.{Text}

-- A connection that takes all that it is given, in order; wire is what it has been given.
pub record TakesAll (net : Net) (wire : net.World → Text) : Type 0 where
  pub takes : (fd : Option ℕ) (bs : Text) (w : net.World) → (net.send fd bs w).0 ≡ some (length bs)
  pub delivers :
      (fd : Option ℕ) (bs : Text) (w : net.World) → wire (net.send fd bs w).1 ≡ wire w ++ bs

-- Such a system; the world is what has been sent.
abbrev pub line : Net
line = record {
  World = List ℕ;
  inet_addr = λ ip. none;
  socket = λ kind w. (some 8, w);
  set_non_block = λ fd w. (true, w);
  setsockopt = λ fd o w. (true, w);
  bind = λ fd ip port w. (true, w);
  listen = λ fd n w. (true, w);
  accept = λ fd w. (none, w);
  connect = λ fd ip port w. (refused, w);
  send = λ fd bs w. (some (length bs), w ++ bs);
  recv = λ fd n w. (none, w);
  close = λ fd w. w;
}

abbrev pub wire : List ℕ → Text
wire w = w

pub line-TakesAll : TakesAll line wire
line-TakesAll = record { takes = λ fd bs w. refl; delivers = λ fd bs w. refl }
