-- ===== src/Router/Table.antt =====
-- net/sync_router.cpp: folders are found by the tags they were added under.
use rasync.Prelude.{ℕ, ◌≡◌, sym, ◌∙◌, arith, true, false, List, [], ◌∷◌, ◌==◌, none, some}
use rasync.Prelude.{Bool-cases, Option-cases, inl, inr}
use rasync.Router.{Folder, Router, find_tag, folder_for, add_folder}

-- Adding folders one after the other.
abbrev pub add_all : List Folder → Router → Router
add_all [] r = r
add_all (f ∷ fs) r = add_all fs (add_folder f r).1

past :
    (f : Folder) (tag : ℕ) (g : Folder) (r : Router)
    → folder_for tag r ≡ some g
    → find_tag f.tag r.by_tag ≡ none
    → find_tag tag ((f.tag, f) ∷ r.by_tag) ≡ some g
unfolding folder_for find_tag
past f tag g r h e = elim (Bool-cases (f.tag == tag)) [
  | inl t ↦
      let same : f.tag ≡ tag = ground arith in let n : none ≡ some g = sym (rw same at e) ∙ h in cc
  | inr t ↦ rw (t, find_tag) h
]

first : (f : Folder) (r : Router) → find_tag f.tag ((f.tag, f) ∷ r.by_tag) ≡ some f
unfolding find_tag
first f r = ground arith

add_folder_keeps :
    (f g : Folder) (tag : ℕ) (r : Router)
    → folder_for tag r ≡ some g
    → folder_for tag (add_folder f r).1 ≡ some g
unfolding folder_for add_folder find_tag
add_folder_keeps f g tag r h = elim (Bool-cases r.attached) [
  | inl a ↦ rw (a, add_folder) h
  | inr a ↦ elim (Option-cases (find_tag f.tag r.by_tag)) [
    | inl e ↦ rw (a, e, add_folder) (past f tag g r h e)
    | inr (k, e) ↦ rw (a, e, add_folder) h
  ]
]

add_all_keeps :
    (fs : List Folder) (g : Folder) (tag : ℕ) (r : Router)
    → folder_for tag r ≡ some g
    → folder_for tag (add_all fs r) ≡ some g
add_all_keeps [] g tag r h = h
add_all_keeps (f ∷ fs) g tag r h =
    add_all_keeps fs g tag (add_folder f r).1 (add_folder_keeps f g tag r h)

add_folder_found :
    (f : Folder) (r : Router)
    → (add_folder f r).0 ≡ true
    → folder_for f.tag (add_folder f r).1 ≡ some f
unfolding folder_for add_folder find_tag
add_folder_found f r h = elim (Bool-cases r.attached) [
  | inl a ↦ let n : false ≡ true = (rw (a, add_folder) at h) in cc
  | inr a ↦ elim (Option-cases (find_tag f.tag r.by_tag)) [
    | inl e ↦ rw (a, e, add_folder) (first f r)
    | inr (k, e) ↦ let n : false ≡ true = (rw (a, e, add_folder) at h) in cc
  ]
]

-- A folder that was accepted is found by its tag, whatever is offered to the table after it.
pub folder_for-add_folder :
    (f : Folder) (r : Router) (later : List Folder)
    → (add_folder f r).0 ≡ true
    → folder_for f.tag (add_all later (add_folder f r).1) ≡ some f
folder_for-add_folder f r later h =
    add_all_keeps later f f.tag (add_folder f r).1 (add_folder_found f r h)
