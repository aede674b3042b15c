-- ===== src/Main.antt =====
-- Main.cpp: the options of the program, its log directory, and its configuration file; with
-- CDiskIO::AddPath (io/Disk.cpp) and CLog::SetRootLevel (core/Log.cpp), which take what the file says.
-- What getopt and stat return and the text of the file are arguments, and so is what the keeper
-- (CDaemon) does. none as the result of a step is behaviour that C++ leaves undefined: the last byte
-- of an empty string, and a product that no int holds.
pub mod Config
pub mod Entries
mod Tests
use byron0416_mp.Prelude.{
  ℕ, ◌+◌, ◌-◌, ◌*◌, ◌^◌, ◌≤◌, Bool, true, false, ◌&&◌, ◌||◌, List, [], ◌∷◌, ◌++◌, Option, none,
  some, ltb, leb, ◌==◌, if◌then◌else◌, length, take, get_last_or,
}
use byron0416_mp.Text.{
  Text, text, find_text, rfind_byte, before_pos, behind_pos, lines_of, c_prefix,
}
use byron0416_mp.Text.Numbers.{skip_space, is_digit, read_digits}

-- An int: whether it is below zero, and its size.
abbrev pub Signed : Type 0
Signed = Bool × ℕ

-- m_Paths of CDiskIO, m_Path and m_IP of CLiveChannels, and the root level of the log, where one is
-- set.
pub record Settings : Type 0 where
  pub media : List Text
  pub live_path : Text
  pub live_ip : Text
  pub level : Option Signed

abbrev pub no_settings : Settings
no_settings = record { media = []; live_path = []; live_ip = []; level = none }

-- What getopt returned, up to -1: whether the program becomes a daemon; none is exit(0).
unfoldable pub options : List ℕ → Bool → Option Bool
options [] daemon = some daemon
options (ch ∷ chs) daemon = if ch == b'd' then options chs false else none

-- What stat says of the log directory, and the calls that follow.
pub data Stat : Type 0 where
  missing directory other : Stat

pub data Call : Type 0 where
  unlink make_dir : Text → Call

unfoldable pub make_log_dir : Text → Stat → List Call
make_log_dir path missing = make_dir path ∷ []
make_log_dir path directory = []
make_log_dir path other = unlink path ∷ make_dir path ∷ []

-- The directory of the program, as argv[0] names it.
abbrev pub base_dir : Text → Text
base_dir argv0 = before_pos (rfind_byte b'/' argv0) argv0

abbrev pub log_path : Text → Text
log_path argv0 = base_dir argv0 ++ text "/log/"

-- The strings that getline(buffer, 256) leaves in the buffer. A longer line is cut and sets failbit,
-- so that it is the last; behind the last line the loop goes round once more with an empty buffer.
unfoldable pub params : List Text → List Text
params [] = [] ∷ []
params (l ∷ ls) = if ltb 255 (length l) then c_prefix (take 255 l) ∷ [] else c_prefix l ∷ params ls

-- path[path.size()-1], which needs a byte.
unfoldable pub last_byte : Text → Option ℕ
last_byte [] = none
last_byte (c ∷ cs) = some (get_last_or c cs)

-- if(path[path.size()-1] != '/') path += "/";
unfoldable pub with_slash : Text → Option Text
with_slash path = elim (last_byte path) [
  | none ↦ none
  | some c ↦ some (if c == b'/' then path else path ++ text "/")
]

-- CDiskIO::AddPath.
unfoldable pub add_path : Text → List Text → Option (List Text)
add_path path paths = elim (with_slash path) [ none ↦ none | some p ↦ some (paths ++ (p ∷ [])) ]

-- The digits of an int behind its sign; what does not fit is cut to the largest or the smallest int.
abbrev pub int_digits : Bool → Text → Signed
int_digits negative s =
    let n = read_digits 0 s in
    let bound = if negative then 2 ^ 31 else 2 ^ 31 - 1 in
    (negative, if ltb bound n then bound else n)

-- stream >> level for an int that is 0, which stays 0 where no number stands there.
unfoldable pub read_int : Text → Signed
read_int s = elim (skip_space s) [
  | [] ↦ (false, 0)
  | c ∷ cs ↦
      if c == b'-'
      then int_digits true cs
      else (if c == b'+' then int_digits false cs else int_digits false (c ∷ cs))
]

-- level*10000 in an int.
unfoldable pub times_10000 : Signed → Option Signed
times_10000 (negative, n) =
    let bound = if negative then 2 ^ 31 else 2 ^ 31 - 1 in
    if leb (n * 10000) bound then some (negative, n * 10000) else none

-- param.substr(param.find("=")+1, npos)
abbrev pub value_of : Text → Text
value_of param = behind_pos (find_text (text "=") param) param

abbrev pub has : Text → Text → Bool
has name param = elim (find_text name param) [ none ↦ false | some _ ↦ true ]

abbrev pub is_comment : Text → Bool
is_comment [] = false
is_comment (c ∷ cs) = c == b'#'

unfoldable pub set_media : Text → Settings → Option Settings
set_media value s = elim (with_slash value) [
  | none ↦ none
  | some path ↦ elim (add_path path s.media) [
    | none ↦ none
    | some paths ↦ some (record s { media = paths })
  ]
]

unfoldable pub set_live_path : Text → Settings → Option Settings
set_live_path value s = elim (with_slash value) [
  | none ↦ none
  | some path ↦ some (record s { live_path = path })
]

unfoldable pub set_level : Text → Settings → Option Settings
set_level value s = elim (times_10000 (read_int value)) [
  | none ↦ none
  | some level ↦ some (record s { level = some level })
]

-- The body of the loop, for a string of the file.
unfoldable pub take_param : Text → Settings → Option Settings
take_param param s =
    if is_comment param
    then some s
    else (if has (text "media_dir=") param
        then set_media (value_of param) s
        else (if has (text "live_dir=") param
            then set_live_path (value_of param) s
            else (if has (text "live_ip=") param
                then some (record s { live_ip = value_of param })
                else (if has (text "log_level=") param
                    then set_level (value_of param) s
                    else some s))))

unfoldable pub take_params : List Text → Settings → Option Settings
take_params [] s = some s
take_params (p ∷ ps) s = elim (take_param p s) [ none ↦ none | some t ↦ take_params ps t ]

-- The loop over the file; none stands for a file that cannot be opened.
unfoldable pub read_config : Option Text → Settings → Option Settings
read_config none s = some s
read_config (some file) s = take_params (params (lines_of file)) s

-- How main ends: exit(0) for an option, undefined behaviour, or what the keeper returns.
pub data Ending : Type 0 where
  exits_0 undefined : Ending
  returns : List Call → ℕ → Ending

unfoldable pub main : (Text → Bool → Settings → ℕ) → Text → List ℕ → Stat → Option Text → Ending
main keeper argv0 chosen stat file = elim (options chosen true) [
  | none ↦ exits_0
  | some daemon ↦ elim (read_config file no_settings) [
    | none ↦ undefined
    | some s ↦ returns (make_log_dir (log_path argv0) stat) (keeper (log_path argv0) daemon s)
  ]
]
