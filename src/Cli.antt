-- ===== src/Cli.antt =====
-- app/cli.h, app/cli.cpp: the options, and the tests on their values.
pub mod Parse
pub mod Checks
pub mod Accepted
mod Tests
use rasync.Prelude.{
  ℕ, zero, suc, ◌+◌, ◌-◌, ◌*◌, ◌%◌, ◌^◌, ◌≤◌, min, Bool, true, false, not, ◌&&◌, ◌||◌, List, [],
  ◌∷◌,
}
use rasync.Prelude.{Option, none, some, length, leb, ltb, ◌==◌, if◌then◌else◌}
use rasync.Prelude.Int.{ℤ, pos, negsuc}
use rasync.Codec.Writer.{Bytes}
use rasync.Reconcile.{SyncMode, ConflictPolicy}

pub record FolderOptions : Type 0 where
  pub directory : Bytes
  pub name : Bytes
  pub mode : SyncMode
  pub source : Bool
  pub replica : Bool
  pub conflict : ConflictPolicy
  pub no_delete : Bool
  pub no_delta : Bool
  pub follow_symlinks : Bool
  pub ignores : List Bytes
  pub ignore_file : Bytes

pub record Options : Type 0 where
  pub folders : List FolderOptions
  pub port : ℕ
  pub peers : List Bytes
  pub key : Bytes
  pub allow : List Bytes
  pub discover : Bool
  pub lan_only : Bool
  pub interval : ℤ
  pub once : Bool
  pub data_dir : Bytes
  pub no_color : Bool
  pub verbosity : ℕ

-- The defaults of the two structs.
abbrev pub folder_defaults : FolderOptions
folder_defaults = record {
  directory = [];
  name = [];
  mode = SyncMode.two_way;
  source = false;
  replica = false;
  conflict = ConflictPolicy.newer;
  no_delete = false;
  no_delta = false;
  follow_symlinks = false;
  ignores = [];
  ignore_file = [];
}

abbrev pub option_defaults : Options
option_defaults = record {
  folders = [];
  port = 0;
  peers = [];
  key = [];
  allow = [];
  discover = false;
  lan_only = false;
  interval = pos 3;
  once = false;
  data_dir = [];
  no_color = false;
  verbosity = 1;
}

-- `isspace`, `isdigit` and `isxdigit` of the C locale.
abbrev pub is_space : ℕ → Bool
is_space c = c == b' ' || leb 9 c && leb c 13

abbrev pub is_digit : ℕ → Bool
is_digit c = leb b'0' c && leb c b'9'

abbrev pub is_xdigit : ℕ → Bool
is_xdigit c = is_digit c || leb b'a' c && leb c b'f' || leb b'A' c && leb c b'F'

unfoldable pub skip_space : Bytes → Bytes
skip_space [] = []
skip_space (c ∷ cs) = let rest = skip_space cs in if is_space c then rest else c ∷ cs

-- The number that digits write, where there is nothing else.
unfoldable pub digits_value : ℕ → Bytes → Option ℕ
digits_value n [] = some n
digits_value n (c ∷ cs) =
    let rest = digits_value (n * 10 + (c - b'0')) cs in if is_digit c then rest else none

-- What `strtoul` makes of the digits behind a sign: it saturates, and negates in 64 bits.
abbrev pub signed_value : Bool → ℕ → ℕ
signed_value negative n =
    if leb (2 ^ 64) n then 2 ^ 64 - 1 else if negative then (2 ^ 64 - n) % 2 ^ 64 else n

unfoldable pub unsigned_digits : Bool → Bytes → Option ℕ
unfolding digits_value
unsigned_digits negative [] = none
unsigned_digits negative (c ∷ cs) = elim (digits_value 0 (c ∷ cs)) [
  | none ↦ none
  | some n ↦ some (signed_value negative n)
]

-- `parse_uint`, where `strtoul` reads a whole text: spaces, a sign, and a digit at least.
unfoldable pub parse_uint : Bytes → Option ℕ
unfolding skip_space unsigned_digits
parse_uint s = elim (skip_space s) [
  | [] ↦ none
  | c ∷ cs ↦
      if c == b'-'
      then unsigned_digits true cs
      else if c == b'+'
      then unsigned_digits false cs
      else unsigned_digits false (c ∷ cs)
]

-- `static_cast<int>`
abbrev pub to_int : ℕ → ℤ
to_int n = let m = n % 2 ^ 32 in if ltb m (2 ^ 31) then pos m else negsuc (2 ^ 32 - 1 - m)

unfoldable pub all_xdigit : Bytes → Bool
all_xdigit [] = true
all_xdigit (c ∷ cs) = is_xdigit c && all_xdigit cs

unfoldable pub is_peer_id : Bytes → Bool
unfolding all_xdigit
is_peer_id s = length s == 64 && all_xdigit s

unfoldable pub no_control : Bytes → Bool
no_control [] = true
no_control (c ∷ cs) = not (ltb c 32 || c == 127) && no_control cs

abbrev pub back : ℕ → Bytes → ℕ
back c [] = c
back c (d ∷ ds) = back d ds

-- `valid_folder_name`, without the text that says why.
unfoldable pub valid_folder_name : Bytes → Bool
unfolding no_control
valid_folder_name [] = false
valid_folder_name (c ∷ cs) =
    if ltb 255 (length (c ∷ cs))
    then false
    else if not (no_control (c ∷ cs))
    then false
    else not (c == b' ' || back c cs == b' ')
