-- ===== src/Cli/Accepted.antt =====
-- app/cli.cpp: what holds of a command line that is accepted.
use rasync.Prelude.{ℕ, ◌≤◌, ◌≡◌, refl, sym, ◌∙◌, ap, subst, arith, true, false, ◌⊎◌, inl, inr}
use rasync.Prelude.{
  List, [], ◌∷◌, ◌++◌, Option, none, some, Bool-cases, Option-cases, ltb, ◌==◌, if◌then◌else◌,
}
use rasync.Codec.Writer.{Bytes}
use rasync.Reconcile.{SyncMode, ConflictPolicy}
use rasync.Cli.{
  FolderOptions, folder_defaults, option_defaults, parse_uint, to_int, is_peer_id,
  valid_folder_name,
}
use rasync.Cli.Parse.{
  Flag, Parse, Progress, Turn, accepted, asked_help, asked_version, failed, stopped, going,
  over_last, over_current, no_folders, policy_of, set_port, set_interval, set_name, set_policy,
  apply, check_roles, check_names, finish, parse_loop, parse_args, flags, first_flag, split_option,
  takes_value,
}
use rasync.Cli.Checks.{NameOk, NamesOk, IdsOk, Accepted, check_roles-RolesOk, check_names-Distinct}

record Sound (st : Progress) : Type 0 where
  port_fits : st.options.port ≤ 65535
  ids : IdsOk st.options.allow
  names : NamesOk st.options.folders
  unnamed : st.defaults.name ≡ []

-- What ends the loop early accepts nothing.
abbrev Kept : Turn → Type 0
Kept (stopped (accepted o)) = false ≡ true
Kept (stopped asked_help) = Unit {0}
Kept (stopped asked_version) = Unit {0}
Kept (stopped (failed r)) = Unit {0}
Kept (going st) = Sound st

finish-Accepted : (st : Progress) → Sound st → Accepted (finish st.options)
unfolding finish
finish-Accepted st s = elim (Bool-cases (no_folders st.options.folders)) [
  | inl e ↦ rw (e, finish) tt
  | inr e ↦ elim (Option-cases (check_roles st.options.folders)) [
    | inr (r, c) ↦ rw (e, c, finish) tt
    | inl c ↦ elim (Option-cases (check_names [] st.options.folders)) [
      | inr (r, d) ↦ rw (e, c, d, finish) tt
      | inl d ↦
          rw (e, c, d, finish)
            (record {
              some_folder = e;
              port_fits = s.port_fits;
              ids = s.ids;
              names = s.names;
              distinct = check_names-Distinct [] st.options.folders d;
              roles = check_roles-RolesOk st.options.folders c;
            })
    ]
  ]
]

over_last-NamesOk :
    (f : FolderOptions → FolderOptions) (fs : List FolderOptions)
    → ((x : FolderOptions) → NameOk x → NameOk (f x))
    → NamesOk fs
    → NamesOk (over_last f fs)
unfolding over_last
over_last-NamesOk f [] h n = tt
over_last-NamesOk f (x ∷ []) h n = (h x n.0, tt)
over_last-NamesOk f (x ∷ y ∷ fs) h n = (n.0, over_last-NamesOk f (y ∷ fs) h n.1)

-- An option that leaves the names alone.
over_current-Kept :
    (f : FolderOptions → FolderOptions) (st : Progress)
    → ((x : FolderOptions) → (f x).name ≡ x.name)
    → Sound st
    → Kept (over_current f st)
unfolding over_current
over_current-Kept f st h s = elim (Bool-cases (no_folders st.options.folders)) [
  | inl e ↦
      rw (e, over_current)
        (record {
          port_fits = s.port_fits;
          ids = s.ids;
          names = s.names;
          unnamed = h st.defaults ∙ s.unnamed;
        })
  | inr e ↦
      rw (e, over_current)
        (record {
          port_fits = s.port_fits;
          ids = s.ids;
          names =
              over_last-NamesOk f st.options.folders
                (λ x n. subst (λ m. (m ≡ []) ⊎ (valid_folder_name m ≡ true)) (sym (h x)) n) s.names;
          unnamed = s.unnamed;
        })
]

-- Nothing that the invariant speaks of has changed.
same_parts :
    (st st' : Progress)
    → st'.options.port ≡ st.options.port
    → st'.options.allow ≡ st.options.allow
    → st'.options.folders ≡ st.options.folders
    → st'.defaults ≡ st.defaults
    → Sound st
    → Sound st'
same_parts st st' p a f d s = record {
  port_fits = omega (arith, p, s.port_fits);
  ids = subst IdsOk (sym a) s.ids;
  names = subst NamesOk (sym f) s.names;
  unnamed = ap (λ (x : FolderOptions). x.name) d ∙ s.unnamed;
}

IdsOk-append :
    (ids : List Bytes) (id : Bytes) → is_peer_id id ≡ true → IdsOk ids → IdsOk (ids ++ id ∷ [])
IdsOk-append [] id h k = (h, tt)
IdsOk-append (x ∷ ids) id h k = (k.0, IdsOk-append ids id h k.1)

NamesOk-append :
    (fs : List FolderOptions) (f : FolderOptions) → NameOk f → NamesOk fs → NamesOk (fs ++ f ∷ [])
NamesOk-append [] f h k = (h, tt)
NamesOk-append (x ∷ fs) f h k = (k.0, NamesOk-append fs f h k.1)

set_port-Kept : (p : Option ℕ) (st : Progress) → Sound st → Kept (set_port p st)
unfolding set_port
set_port-Kept none st s = tt
set_port-Kept (some p) st s = elim (Bool-cases (ltb 65535 p)) [
  | inl e ↦ rw (e, set_port) tt
  | inr e ↦
      rw (e, set_port)
        (record {
          port_fits = ground (arith, e);
          ids = s.ids;
          names = s.names;
          unnamed = s.unnamed;
        })
]

set_interval-Kept : (n : Option ℕ) (st : Progress) → Sound st → Kept (set_interval n st)
unfolding set_interval
set_interval-Kept none st s = tt
set_interval-Kept (some n) st s = elim (Bool-cases (n == 0)) [
  | inl e ↦ rw (e, set_interval) tt
  | inr e ↦
      rw (e, set_interval)
        (same_parts st (record st { options = record st.options { interval = to_int n } }) refl refl
          refl refl s)
]

allow-Kept : (v : Bytes) (st : Progress) → Sound st → Kept (apply Flag.allow v st)
unfolding apply
allow-Kept v st s = elim (Bool-cases (is_peer_id v)) [
  | inr e ↦ rw (e, apply) tt
  | inl e ↦
      rw (e, apply)
        (record {
          port_fits = s.port_fits;
          ids = IdsOk-append st.options.allow v e s.ids;
          names = s.names;
          unnamed = s.unnamed;
        })
]

set_name-Kept : (v : Bytes) (st : Progress) → Sound st → Kept (set_name v st)
unfolding set_name over_current
set_name-Kept v st s = elim (Bool-cases (no_folders st.options.folders)) [
  | inl e ↦ rw (e, set_name) tt
  | inr e ↦ elim (Bool-cases (valid_folder_name v)) [
    | inr n ↦ rw (e, n, set_name) tt
    | inl n ↦
        rw (e, n, set_name, over_current)
          (record {
            port_fits = s.port_fits;
            ids = s.ids;
            names =
                over_last-NamesOk (λ f. record f { name = v }) st.options.folders (λ x k. inr n)
                  s.names;
            unnamed = s.unnamed;
          })
  ]
]

set_policy-Kept : (c : Option ConflictPolicy) (st : Progress) → Sound st → Kept (set_policy c st)
unfolding set_policy
set_policy-Kept none st s = tt
set_policy-Kept (some c) st s = over_current-Kept (λ f. record f { conflict = c }) st (λ x. refl) s

apply-Kept : (flag : Flag) (v : Bytes) (st : Progress) → Sound st → Kept (apply flag v st)
unfolding apply
apply-Kept Flag.help v st s = tt
apply-Kept Flag.version v st s = tt
apply-Kept Flag.port v st s = set_port-Kept (parse_uint v) st s
apply-Kept Flag.peer v st s =
    same_parts st (record st { options = record st.options { peers = st.options.peers ++ v ∷ [] } })
      refl refl refl refl s
apply-Kept Flag.key v st s =
    same_parts st (record st { options = record st.options { key = v; discover = true } }) refl refl
      refl refl s
apply-Kept Flag.allow v st s = allow-Kept v st s
apply-Kept Flag.discover v st s =
    same_parts st (record st { options = record st.options { discover = true } }) refl refl refl
      refl s
apply-Kept Flag.lan v st s =
    same_parts st (record st { options = record st.options { lan_only = true; discover = true } })
      refl refl refl refl s
apply-Kept Flag.name v st s = set_name-Kept v st s
apply-Kept Flag.mirror v st s =
    over_current-Kept (λ f. record f { mode = SyncMode.mirror }) st (λ x. refl) s
apply-Kept Flag.source v st s = over_current-Kept (λ f. record f { source = true }) st (λ x. refl) s
apply-Kept Flag.replica v st s =
    over_current-Kept (λ f. record f { replica = true }) st (λ x. refl) s
apply-Kept Flag.conflict v st s = set_policy-Kept (policy_of v) st s
apply-Kept Flag.no_delete v st s =
    over_current-Kept (λ f. record f { no_delete = true }) st (λ x. refl) s
apply-Kept Flag.no_delta v st s =
    over_current-Kept (λ f. record f { no_delta = true }) st (λ x. refl) s
apply-Kept Flag.follow_symlinks v st s =
    over_current-Kept (λ f. record f { follow_symlinks = true }) st (λ x. refl) s
apply-Kept Flag.ignore v st s =
    over_current-Kept (λ f. record f { ignores = f.ignores ++ v ∷ [] }) st (λ x. refl) s
apply-Kept Flag.ignore_file v st s =
    over_current-Kept (λ f. record f { ignore_file = v }) st (λ x. refl) s
apply-Kept Flag.interval v st s = set_interval-Kept (parse_uint v) st s
apply-Kept Flag.once v st s =
    same_parts st (record st { options = record st.options { once = true } }) refl refl refl refl s
apply-Kept Flag.data_dir v st s =
    same_parts st (record st { options = record st.options { data_dir = v } }) refl refl refl refl s
apply-Kept Flag.no_color v st s =
    same_parts st (record st { options = record st.options { no_color = true } }) refl refl refl
      refl s
apply-Kept Flag.verbose v st s =
    same_parts st (record st { options = record st.options { verbosity = 2 } }) refl refl refl refl
      s
apply-Kept Flag.quiet v st s =
    same_parts st (record st { options = record st.options { verbosity = 0 } }) refl refl refl refl
      s
apply-Kept Flag.unknown v st s = tt
apply-Kept Flag.directory v st s = record {
  port_fits = s.port_fits;
  ids = s.ids;
  names =
      NamesOk-append st.options.folders (record st.defaults { directory = v }) (inl s.unnamed)
        s.names;
  unnamed = s.unnamed;
}

-- A turn that is kept, and what follows it.
turn-Accepted :
    (t : Turn) (rest : Progress → Parse)
    → Kept t
    → ((st : Progress) → Sound st → Accepted (rest st))
    → Accepted (elim t [ stopped p ↦ p | going st ↦ rest st ])
turn-Accepted (stopped (accepted o)) rest k h = let n : false ≡ true = k in cc
turn-Accepted (stopped asked_help) rest k h = tt
turn-Accepted (stopped asked_version) rest k h = tt
turn-Accepted (stopped (failed r)) rest k h = tt
turn-Accepted (going st) rest k h = h st k

parse_loop-Accepted :
    (waiting : Option Flag) (args : List Bytes) (st : Progress)
    → Sound st
    → Accepted (parse_loop waiting args st)
unfolding parse_loop
parse_loop-Accepted none [] st s = finish-Accepted st s
parse_loop-Accepted (some flag) [] st s = tt
parse_loop-Accepted (some flag) (v ∷ args) st s =
    turn-Accepted (apply flag v st) (parse_loop none args) (apply-Kept flag v st s)
      (λ st' s'. parse_loop-Accepted none args st' s')
parse_loop-Accepted none (arg ∷ args) st s =
    let label = (split_option arg).0 in
    let flag = first_flag flags label in
    elim (Option-cases (split_option arg).1) [
      | inr (v, e) ↦
          rw (e, parse_loop)
            (turn-Accepted (apply flag (if takes_value flag then v else label) st)
              (parse_loop none args) (apply-Kept flag (if takes_value flag then v else label) st s)
              (λ st' s'. parse_loop-Accepted none args st' s'))
      | inl e ↦ elim (Bool-cases (takes_value flag)) [
        | inl t ↦ rw (e, t, parse_loop) (parse_loop-Accepted (some flag) args st s)
        | inr t ↦
            rw (e, t, parse_loop)
              (turn-Accepted (apply flag label st) (parse_loop none args)
                (apply-Kept flag label st s) (λ st' s'. parse_loop-Accepted none args st' s'))
      ]
    ]

-- Whatever the arguments: a command line that is accepted names a directory, a port of 16 bits and
-- peer ids of 64 hexadecimal digits only; every folder name given is valid and given once; and a
-- mirror has exactly one role, a two-way folder none.
pub parse_args-Accepted : (args : List Bytes) → Accepted (parse_args args)
unfolding parse_args
parse_args-Accepted args =
    parse_loop-Accepted none args (record { options = option_defaults; defaults = folder_defaults })
      (record { port_fits = omega arith; ids = tt; names = tt; unnamed = refl })
