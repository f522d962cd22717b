-- ===== src/Cli/Checks.antt =====
-- app/cli.cpp: the checks of the roles and of the names.
use rasync.Prelude.{
  ◌≤◌, ◌≡◌, refl, sym, ◌∙◌, subst, Bool, true, false, not, ◌&&◌, ◌||◌, ◌⊎◌, inl, inr,
}
use rasync.Prelude.{List, [], ◌∷◌, Option, none, some, Bool-cases, if◌then◌else◌}
use rasync.Prelude.Equality.{bytes_eq, bytes_eq→eq, bytes_eq_refl}
use rasync.Codec.Writer.{Bytes}
use rasync.Service.{listed}
use rasync.Cli.{FolderOptions, Options, is_peer_id, valid_folder_name}
use rasync.Cli.Parse.{
  Reason, Parse, accepted, asked_help, asked_version, failed, no_folders, is_mirror, is_named,
  check_roles, check_names,
}

-- A mirror has one role, and a two-way folder has none.
abbrev pub RolesOk : List FolderOptions → Type 0
RolesOk [] = Unit {0}
RolesOk (f ∷ fs) =
    (is_mirror f.mode ≡ (f.source || f.replica)) × ((f.source && f.replica) ≡ false) × RolesOk fs

abbrev pub NameOk : FolderOptions → Type 0
NameOk f = (f.name ≡ []) ⊎ (valid_folder_name f.name ≡ true)

abbrev pub NamesOk : List FolderOptions → Type 0
NamesOk [] = Unit {0}
NamesOk (f ∷ fs) = ((f.name ≡ []) ⊎ (valid_folder_name f.name ≡ true)) × NamesOk fs

abbrev pub NotAmong : Bytes → List FolderOptions → Type 0
NotAmong n [] = Unit {0}
NotAmong n (f ∷ fs) = (bytes_eq n f.name ≡ false) × NotAmong n fs

-- No name is given twice.
abbrev pub Distinct : List FolderOptions → Type 0
Distinct [] = Unit {0}
Distinct (f ∷ fs) = ((is_named f.name ≡ false) ⊎ NotAmong f.name fs) × Distinct fs

abbrev pub IdsOk : List Bytes → Type 0
IdsOk [] = Unit {0}
IdsOk (id ∷ ids) = (is_peer_id id ≡ true) × IdsOk ids

pub record WellFormed (o : Options) : Type 0 where
  pub some_folder : no_folders o.folders ≡ false
  pub port_fits : o.port ≤ 65535
  pub ids : IdsOk o.allow
  pub names : NamesOk o.folders
  pub distinct : Distinct o.folders
  pub roles : RolesOk o.folders

abbrev pub Accepted : Parse → Type 0
Accepted (accepted o) = WellFormed o
Accepted asked_help = Unit {0}
Accepted asked_version = Unit {0}
Accepted (failed r) = Unit {0}

-- The three tests of a folder's roles, on whether it is a mirror, a source and a replica.
role_tests :
    (m s r : Bool) (rest : Option Reason)
    → (if m && (not s && not r)
        then some Reason.no_role
        else if s && r
        then some Reason.two_roles
        else if not m && (s || r)
        then some Reason.role_without_mirror
        else rest)
      ≡ none
    → (m ≡ (s || r)) × ((s && r) ≡ false) × (rest ≡ none)
role_tests true true true rest h = let c : some Reason.two_roles ≡ none = h in cc
role_tests true true false rest h = (refl, refl, h)
role_tests true false true rest h = (refl, refl, h)
role_tests true false false rest h = let c : some Reason.no_role ≡ none = h in cc
role_tests false true true rest h = let c : some Reason.two_roles ≡ none = h in cc
role_tests false true false rest h = let c : some Reason.role_without_mirror ≡ none = h in cc
role_tests false false true rest h = let c : some Reason.role_without_mirror ≡ none = h in cc
role_tests false false false rest h = (refl, refl, h)

pub check_roles-RolesOk : (fs : List FolderOptions) → check_roles fs ≡ none → RolesOk fs
unfolding check_roles
check_roles-RolesOk [] h = tt
check_roles-RolesOk (f ∷ fs) h =
    let (m, one, rest) = role_tests (is_mirror f.mode) f.source f.replica (check_roles fs) h in
    (m, one, check_roles-RolesOk fs rest)

unnamed_differs : (n m : Bytes) → is_named n ≡ true → is_named m ≡ false → bytes_eq n m ≡ false
unnamed_differs [] m h k = cc
unnamed_differs (x ∷ xs) [] h k = refl
unnamed_differs (x ∷ xs) (y ∷ ys) h k = cc

-- A name that was found before is not found again.
check_names-NotAmong :
    (n : Bytes) (named : List Bytes) (fs : List FolderOptions)
    → check_names named fs ≡ none
    → listed n named ≡ true
    → is_named n ≡ true
    → NotAmong n fs
unfolding check_names listed
check_names-NotAmong n named [] h l k = tt
check_names-NotAmong n named (f ∷ fs) h l k = elim (Bool-cases (is_named f.name)) [
  | inr e ↦
      (unnamed_differs n f.name k e, check_names-NotAmong n named fs (rw (e, check_names) at h) l k)
  | inl e ↦ elim (Bool-cases (listed f.name named)) [
    | inl t ↦ let c : some Reason.same_name ≡ none = (rw (e, t, check_names) at h) in cc
    | inr t ↦ elim (Bool-cases (bytes_eq n f.name)) [
      | inl s ↦
          let c : false ≡ true =
            sym t ∙ subst (λ m. listed m named ≡ true) (bytes_eq→eq n f.name s) l in
          cc
      | inr s ↦
          (s, check_names-NotAmong n (f.name ∷ named) fs (rw (e, t, check_names) at h) (rw s l) k)
    ]
  ]
]

pub check_names-Distinct :
    (named : List Bytes) (fs : List FolderOptions) → check_names named fs ≡ none → Distinct fs
unfolding check_names listed
check_names-Distinct named [] h = tt
check_names-Distinct named (f ∷ fs) h = elim (Bool-cases (is_named f.name)) [
  | inr e ↦ (inl e, check_names-Distinct named fs (rw (e, check_names) at h))
  | inl e ↦ elim (Bool-cases (listed f.name named)) [
    | inl t ↦ let c : some Reason.same_name ≡ none = (rw (e, t, check_names) at h) in cc
    | inr t ↦
        let rest = (rw (e, t, check_names) at h) in
        (
          inr (
              check_names-NotAmong f.name (f.name ∷ named) fs rest (rw (bytes_eq_refl f.name) refl)
                e),
          check_names-Distinct (f.name ∷ named) fs rest,
        )
  ]
]
