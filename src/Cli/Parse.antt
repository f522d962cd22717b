-- ===== src/Cli/Parse.antt =====
-- app/cli.cpp: `parse_args`.
use rasync.Prelude.{
  ℕ, Bool, true, false, not, ◌&&◌, ◌||◌, List, [], ◌∷◌, ◌++◌, Option, none, some, ◌==◌, ltb,
}
use rasync.Prelude.{if◌then◌else◌}
use rasync.Prelude.Equality.{bytes_eq}
use rasync.Prelude.Text.{text}
use rasync.Codec.Writer.{Bytes}
use rasync.Reconcile.{SyncMode, ConflictPolicy}
use rasync.Service.{listed}
use rasync.Cli.{
  FolderOptions, Options, folder_defaults, option_defaults, parse_uint, to_int, is_peer_id,
  valid_folder_name,
}

pub data Flag : Type 0 where
  help version port peer key allow discover lan name mirror source replica conflict : Flag
  no_delete no_delta follow_symlinks ignore ignore_file interval once data_dir : Flag
  no_color verbose quiet unknown directory : Flag

-- The first name that fits, in the order of the source.
unfoldable pub first_flag : List (Bytes × Flag) → Bytes → Flag
first_flag [] arg = elim arg [
  | [] ↦ Flag.directory
  | c ∷ cs ↦ if c == b'-' then Flag.unknown else Flag.directory
]
first_flag ((label, flag) ∷ rest) arg =
    let later = first_flag rest arg in if bytes_eq arg label then flag else later

abbrev pub flags : List (Bytes × Flag)
flags =
    (text "-h", Flag.help)
    ∷ (text "--help", Flag.help)
    ∷ (text "--version", Flag.version)
    ∷ (text "-p", Flag.port)
    ∷ (text "--port", Flag.port)
    ∷ (text "--peer", Flag.peer)
    ∷ (text "--key", Flag.key)
    ∷ (text "--allow", Flag.allow)
    ∷ (text "--discover", Flag.discover)
    ∷ (text "--lan", Flag.lan)
    ∷ (text "--name", Flag.name)
    ∷ (text "--mirror", Flag.mirror)
    ∷ (text "--source", Flag.source)
    ∷ (text "--replica", Flag.replica)
    ∷ (text "--conflict", Flag.conflict)
    ∷ (text "--no-delete", Flag.no_delete)
    ∷ (text "--no-delta", Flag.no_delta)
    ∷ (text "--follow-symlinks", Flag.follow_symlinks)
    ∷ (text "--ignore", Flag.ignore)
    ∷ (text "--ignore-file", Flag.ignore_file)
    ∷ (text "--interval", Flag.interval)
    ∷ (text "--once", Flag.once)
    ∷ (text "--data-dir", Flag.data_dir)
    ∷ (text "--no-color", Flag.no_color)
    ∷ (text "-v", Flag.verbose)
    ∷ (text "--verbose", Flag.verbose)
    ∷ (text "-q", Flag.quiet)
    ∷ (text "--quiet", Flag.quiet)
    ∷ []

-- The options that call `next`.
abbrev pub takes_value : Flag → Bool
takes_value Flag.port = true
takes_value Flag.peer = true
takes_value Flag.key = true
takes_value Flag.allow = true
takes_value Flag.name = true
takes_value Flag.conflict = true
takes_value Flag.ignore = true
takes_value Flag.ignore_file = true
takes_value Flag.interval = true
takes_value Flag.data_dir = true
takes_value _ = false

-- The text up to the first '=', and what follows it.
unfoldable pub split_eq : Bytes → Bytes × Option Bytes
split_eq [] = ([], none)
split_eq (c ∷ cs) =
    let (before, after) = split_eq cs in if c == b'=' then ([], some cs) else (c ∷ before, after)

abbrev pub is_long : Bytes → Bool
is_long (a ∷ b ∷ cs) = a == b'-' && b == b'-'
is_long _ = false

-- `--opt=value`
unfoldable pub split_option : Bytes → Bytes × Option Bytes
unfolding split_eq
split_option arg = if is_long arg then split_eq arg else (arg, none)

-- What a run that ends early has found.
pub data Reason : Type 0 where
  missing_value bad_port bad_interval bad_peer_id name_without_folder bad_name bad_policy : Reason
  unknown_option no_directory no_role two_roles role_without_mirror same_name : Reason

pub data Parse : Type 0 where
  accepted : Options → Parse
  asked_help asked_version : Parse
  failed : Reason → Parse

-- The options so far, and the defaults of a folder.
pub record Progress : Type 0 where
  pub options : Options
  pub defaults : FolderOptions

pub data Turn : Type 0 where
  stopped : Parse → Turn
  going : Progress → Turn

-- The last directory on the line, if there is one.
unfoldable pub over_last : (FolderOptions → FolderOptions) → List FolderOptions → List FolderOptions
over_last f [] = []
over_last f (x ∷ []) = f x ∷ []
over_last f (x ∷ y ∷ xs) = x ∷ over_last f (y ∷ xs)

abbrev pub no_folders : List FolderOptions → Bool
no_folders [] = true
no_folders (_ ∷ _) = false

-- `current()`: the last directory, or the defaults.
unfoldable pub over_current : (FolderOptions → FolderOptions) → Progress → Turn
unfolding over_last
over_current f st =
    if no_folders st.options.folders
    then going (record st { defaults = f st.defaults })
    else going
        (record st { options = record st.options { folders = over_last f st.options.folders } })

abbrev pub over_options : (Options → Options) → Progress → Turn
over_options f st = going (record st { options = f st.options })

unfoldable pub policy_of : Bytes → Option ConflictPolicy
policy_of c =
    if bytes_eq c (text "newer")
    then some ConflictPolicy.newer
    else if bytes_eq c (text "larger")
    then some ConflictPolicy.larger
    else if bytes_eq c (text "local")
    then some ConflictPolicy.prefer_local
    else if bytes_eq c (text "remote")
    then some ConflictPolicy.prefer_remote
    else none

unfoldable pub set_port : Option ℕ → Progress → Turn
set_port none st = stopped (failed Reason.bad_port)
set_port (some p) st =
    if ltb 65535 p
    then stopped (failed Reason.bad_port)
    else over_options (λ o. record o { port = p }) st

unfoldable pub set_interval : Option ℕ → Progress → Turn
set_interval none st = stopped (failed Reason.bad_interval)
set_interval (some n) st =
    if n == 0
    then stopped (failed Reason.bad_interval)
    else over_options (λ o. record o { interval = to_int n }) st

unfoldable pub set_name : Bytes → Progress → Turn
unfolding over_current
set_name v st =
    if no_folders st.options.folders
    then stopped (failed Reason.name_without_folder)
    else if not (valid_folder_name v)
    then stopped (failed Reason.bad_name)
    else over_current (λ f. record f { name = v }) st

unfoldable pub set_policy : Option ConflictPolicy → Progress → Turn
unfolding over_current
set_policy none st = stopped (failed Reason.bad_policy)
set_policy (some c) st = over_current (λ f. record f { conflict = c }) st

-- One option, with its value where it takes one; a directory is its own value.
unfoldable pub apply : Flag → Bytes → Progress → Turn
unfolding over_current set_port set_interval set_name set_policy
apply Flag.help v st = stopped asked_help
apply Flag.version v st = stopped asked_version
apply Flag.port v st = set_port (parse_uint v) st
apply Flag.peer v st = over_options (λ o. record o { peers = o.peers ++ v ∷ [] }) st
apply Flag.key v st = over_options (λ o. record o { key = v; discover = true }) st
apply Flag.allow v st =
    if is_peer_id v
    then over_options (λ o. record o { allow = o.allow ++ v ∷ [] }) st
    else stopped (failed Reason.bad_peer_id)
apply Flag.discover v st = over_options (λ o. record o { discover = true }) st
apply Flag.lan v st = over_options (λ o. record o { lan_only = true; discover = true }) st
apply Flag.name v st = set_name v st
apply Flag.mirror v st = over_current (λ f. record f { mode = SyncMode.mirror }) st
apply Flag.source v st = over_current (λ f. record f { source = true }) st
apply Flag.replica v st = over_current (λ f. record f { replica = true }) st
apply Flag.conflict v st = set_policy (policy_of v) st
apply Flag.no_delete v st = over_current (λ f. record f { no_delete = true }) st
apply Flag.no_delta v st = over_current (λ f. record f { no_delta = true }) st
apply Flag.follow_symlinks v st = over_current (λ f. record f { follow_symlinks = true }) st
apply Flag.ignore v st = over_current (λ f. record f { ignores = f.ignores ++ v ∷ [] }) st
apply Flag.ignore_file v st = over_current (λ f. record f { ignore_file = v }) st
apply Flag.interval v st = set_interval (parse_uint v) st
apply Flag.once v st = over_options (λ o. record o { once = true }) st
apply Flag.data_dir v st = over_options (λ o. record o { data_dir = v }) st
apply Flag.no_color v st = over_options (λ o. record o { no_color = true }) st
apply Flag.verbose v st = over_options (λ o. record o { verbosity = 2 }) st
apply Flag.quiet v st = over_options (λ o. record o { verbosity = 0 }) st
apply Flag.unknown v st = stopped (failed Reason.unknown_option)
apply Flag.directory v st =
    let f : FolderOptions = record st.defaults { directory = v } in
    over_options (λ o. record o { folders = o.folders ++ f ∷ [] }) st

-- An option that wants a value at the end of the line gets an empty one, and is refused.
abbrev pub no_value : Flag → Reason
no_value Flag.port = Reason.bad_port
no_value Flag.conflict = Reason.bad_policy
no_value Flag.interval = Reason.bad_interval
no_value _ = Reason.missing_value

abbrev pub is_mirror : SyncMode → Bool
is_mirror SyncMode.two_way = false
is_mirror SyncMode.mirror = true

-- The loop over `o.folders` that checks the roles.
unfoldable pub check_roles : List FolderOptions → Option Reason
check_roles [] = none
check_roles (f ∷ fs) =
    let rest = check_roles fs in
    if is_mirror f.mode && (not f.source && not f.replica)
    then some Reason.no_role
    else if f.source && f.replica
    then some Reason.two_roles
    else if not (is_mirror f.mode) && (f.source || f.replica)
    then some Reason.role_without_mirror
    else rest

abbrev pub is_named : Bytes → Bool
is_named [] = false
is_named (_ ∷ _) = true

-- The loop that collects the names, those found so far first.
unfoldable pub check_names : List Bytes → List FolderOptions → Option Reason
unfolding listed
check_names named [] = none
check_names named (f ∷ fs) =
    let skip = check_names named fs in
    let add = check_names (f.name ∷ named) fs in
    if not (is_named f.name)
    then skip
    else if listed f.name named
    then some Reason.same_name
    else add

-- What follows the loop over the arguments.
unfoldable pub finish : Options → Parse
unfolding check_roles check_names
finish o =
    if no_folders o.folders then failed Reason.no_directory else elim (check_roles o.folders) [
      | some r ↦ failed r
      | none ↦ elim (check_names [] o.folders) [ some r ↦ failed r | none ↦ accepted o ]
    ]

-- The loop over the arguments: an option that waits for its value stands for the call of `next`.
unfoldable pub parse_loop : Option Flag → List Bytes → Progress → Parse
unfolding apply finish split_option first_flag
parse_loop none [] st = finish st.options
parse_loop (some flag) [] st = failed (no_value flag)
parse_loop (some flag) (v ∷ args) st = elim (apply flag v st) [
  | stopped p ↦ p
  | going st' ↦ parse_loop none args st'
]
parse_loop none (arg ∷ args) st =
    let (label, inline) = split_option arg in
    let flag = first_flag flags label in
    elim inline [
      | some v ↦ elim (apply flag (if takes_value flag then v else label) st) [
        | stopped p ↦ p
        | going st' ↦ parse_loop none args st'
      ]
      | none ↦ elim (takes_value flag) [
        | true ↦ parse_loop (some flag) args st
        | false ↦ elim (apply flag label st) [
          | stopped p ↦ p
          | going st' ↦ parse_loop none args st'
        ]
      ]
    ]

-- `parse_args`, on the arguments behind the program's name.
unfoldable pub parse_args : List Bytes → Parse
unfolding parse_loop
parse_args args =
    parse_loop none args (record { options = option_defaults; defaults = folder_defaults })
