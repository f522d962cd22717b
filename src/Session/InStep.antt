-- ===== src/Session/InStep.antt =====
-- net/sync_session.cpp: what a peer knows of our tree, as the tree changes and is advertised.
use rasync.Prelude.{
  ℕ, ◌+◌, ◌%◌, ◌^◌, ◌<◌, ◌≤◌, ◌≡◌, refl, sym, ◌∙◌, arith, Bool, true, false, List, [], ◌∷◌, Option,
}
use rasync.Prelude.{none, some, ◌==◌, ==_iff, if◌then◌else◌, subst, ap, Bool-cases, inl, inr}
use rasync.Prelude.Order.{bytes_order}
use rasync.SortedMap.{IsSorted}
use rasync.SortedMap.Laws.{set-IsSorted, erase-IsSorted}
use rasync.Manifest.{Manifest, ManifestPatch, apply, diff_manifests, is_empty}
use rasync.Manifest.Patch.{apply-IsSorted}
use rasync.Manifest.Diff.{apply-diff_manifests, diff_manifests_empty}
use rasync.Service.{
  Store, load_baseline, set_base_manifest, note_local_set, note_local_removed, set_local_manifest,
  apply_local_patch,
}
use rasync.Service.Versions.{
  Change, change, change_version, Ahead-lt, loaded, based, received, removed, scanned, patched,
}
use rasync.Session.{View}
use rasync.Session.Chunks.{send_update}
use rasync.Session.Wire.{Sendable, receive_update, receive_update-send_update}
use rasync.Session.Tidy.{Tidy, Tidy-none, diff_manifests-Sendable, whole_tree-Sendable}
use rasync.Session.Advert.{Advert, Update, advertise_locked, whole_tree, first_advert}

-- One side's manifests and advertisement state, and the other side's view.
pub record Link : Type 0 where
  pub store : Store
  pub advert : Advert
  pub peer : View

-- The peer handles the messages of an update, in order.
abbrev pub deliver : ℕ → Option Update → View → View
deliver cap none v = v
deliver cap (some (reset, p)) v =
    (receive_update reset (send_update cap p).0 (send_update cap p).1 v).1

-- A session before its first advertisement.
abbrev pub linked : Store → View → Link
linked s v = record { store = s; advert = first_advert; peer = v }

pub data Event : Type 0 where
  changed : Change → Event
  advertised : Event

unfoldable pub step : ℕ → Event → Link → Link
unfolding advertise_locked
step cap (changed c) l = record l { store = change c l.store }
step cap advertised l =
    let r = advertise_locked l.store l.advert in
    record l { advert = r.1; peer = deliver cap r.0 l.peer }

abbrev pub run : ℕ → List Event → Link → Link
run cap [] l = l
run cap (e ∷ es) l = run cap es (step cap e l)

-- The manifests that come from elsewhere are sorted.
abbrev pub SortedChange : Change → Type 0
SortedChange (loaded m) = Unit {0}
SortedChange (based saves m) = Unit {0}
SortedChange (received path m) = Unit {0}
SortedChange (removed path) = Unit {0}
SortedChange (scanned m) = IsSorted m
SortedChange (patched p) = Unit {0}

abbrev pub SortedEvents : List Event → Type 0
SortedEvents [] = Unit {0}
SortedEvents (changed c ∷ es) = SortedChange c × SortedEvents es
SortedEvents (advertised ∷ es) = SortedEvents es

-- The tree is tidy at each advertisement, and at the end.
abbrev pub TidyEvents : List Event → Store → Type 0
TidyEvents [] s = Tidy s.local
TidyEvents (changed c ∷ es) s = TidyEvents es (change c s)
TidyEvents (advertised ∷ es) s = Tidy s.local × TidyEvents es s

abbrev pub changes : List Event → ℕ
changes [] = 0
changes (changed c ∷ es) = 1 + changes es
changes (advertised ∷ es) = changes es

change-IsSorted :
    (c : Change) (s : Store) → SortedChange c → IsSorted s.local → IsSorted (change c s).local
unfolding change load_baseline set_base_manifest note_local_set note_local_removed
    set_local_manifest apply_local_patch
change-IsSorted (loaded none) s h k = k
change-IsSorted (loaded (some m)) s h k = k
change-IsSorted (based saves m) s h k = k
change-IsSorted (received path m) s h k = set-IsSorted path m s.local k
change-IsSorted (removed path) s h k = erase-IsSorted path s.local k
change-IsSorted (scanned m) s h k = h
change-IsSorted (patched p) s h k = elim (Bool-cases (is_empty p)) [
  | inl e ↦ rw (e, change, apply_local_patch) k
  | inr e ↦ rw (e, change, apply_local_patch) (apply-IsSorted p s.local k)
]

diff_from_nothing : (m : Manifest) → diff_manifests [] m ≡ whole_tree m
unfolding diff_manifests
diff_from_nothing [] = refl
diff_from_nothing ((path, x) ∷ m) = rw (diff_from_nothing m)

whole_tree_lem : (m : Manifest) → IsSorted m → apply (whole_tree m) [] ≡ m
whole_tree_lem m s =
    ap (λ p. apply p []) (sym (diff_from_nothing m)) ∙ apply-diff_manifests [] m tt s

-- `k` changes since the tree was sent, and without one it is the tree that was sent.
abbrev Since : ℕ → Store → Advert → Type 0
Since k s a = (s.version ≡ (a.last_sent_version + k) % 2 ^ 64) × (k ≡ 0 → a.last_sent ≡ s.local)

-- The peer knows what was sent last, `n` changes ago at most.
record InStep (n : ℕ) (s : Store) (a : Advert) (v : View) : Type 0 where
  local_sorted : IsSorted s.local
  sent_sorted : IsSorted a.last_sent
  sent_tidy : Tidy a.last_sent
  whole : v.staging_active ≡ false
  known : a.last_sent_valid ≡ true → v.remote ≡ a.last_sent
  version_fits : s.version < 2 ^ 64
  sent_fits : a.last_sent_version < 2 ^ 64
  since : a.last_sent_valid ≡ true → (k : ℕ) × (k ≤ n) × Since k s a

change-InStep :
    (n : ℕ) (c : Change) (s : Store) (a : Advert) (v : View)
    → SortedChange c
    → InStep n s a v
    → InStep (1 + n) (change c s) a v
change-InStep n c s a v h i =
    let (j, j_le, ahead) = change_version c s i.version_fits in
    record {
      local_sorted = change-IsSorted c s h i.local_sorted;
      sent_sorted = i.sent_sorted;
      sent_tidy = i.sent_tidy;
      whole = i.whole;
      known = i.known;
      version_fits = Ahead-lt j s (change c s) ahead;
      sent_fits = i.sent_fits;
      since = λ t.
          let (k, k_le, (e, same)) = i.since t in
          (
            j + k,
            omega (arith, j_le, k_le),
            (
              omega (arith, ahead.0, e),
              λ z. same (omega (arith, z)) ∙ sym (ahead.1 (omega (arith, z))).0,
            ),
          );
    }

abbrev advert : Manifest → Bool → ℕ → Bool → Advert
advert sent valid ver pending = record {
  last_sent = sent;
  last_sent_valid = valid;
  last_sent_version = ver;
  advertise_pending = pending;
}

-- What an advertisement leaves behind: the two sides in step, and the peer with the whole tree.
abbrev Told : ℕ → ℕ → Store → View → Option Update × Advert → Type 0
Told n cap s v (u, a) = InStep n s a (deliver cap u v) × ((deliver cap u v).remote ≡ s.local)

-- No change since.
just_now :
    (n : ℕ) (s : Store) (a : Advert)
    → s.version < 2 ^ 64
    → a.last_sent_version ≡ s.version
    → a.last_sent ≡ s.local
    → (k : ℕ) × (k ≤ n) × Since k s a
just_now n s a h e l = (0, omega arith, (omega (arith, h, e), λ z. l))

sent-Told :
    (n cap : ℕ) (s : Store) (v : View) (reset : Bool) (p : ManifestPatch) (a : Advert)
    → Sendable p
    → Tidy s.local
    → IsSorted s.local
    → s.version < 2 ^ 64
    → v.staging_active ≡ false
    → apply p (if reset then [] else v.remote) ≡ s.local
    → a.last_sent ≡ s.local
    → a.last_sent_version ≡ s.version
    → Told n cap s v (some (reset, p), a)
sent-Told n cap s v reset p a b y h f w e l m =
    let c = receive_update-send_update cap p reset v b w in
    (
      record {
        local_sorted = h;
        sent_sorted = subst IsSorted (sym l) h;
        sent_tidy = subst Tidy (sym l) y;
        whole = c.3;
        known = λ t. c.1 ∙ e ∙ sym l;
        version_fits = f;
        sent_fits = omega (arith, m, f);
        since = λ t. just_now n s a f m l;
      },
      c.1 ∙ e,
    )

-- A known peer gets a difference, or nothing where there is none.
updated-Told :
    (n cap : ℕ) (s : Store) (sent : Manifest) (ver : ℕ) (pending : Bool) (v : View)
    → s.version == ver ≡ false
    → Tidy s.local
    → InStep n s (advert sent true ver pending) v
    → Told n cap s v (advertise_locked s (advert sent true ver pending))
unfolding advertise_locked
updated-Told n cap s sent ver pending v e y i =
    let h = i.local_sorted in
    let k = i.sent_sorted in
    let r = i.known refl in
    elim (Bool-cases (is_empty (diff_manifests sent s.local))) [
      | inl d ↦
          let same = (diff_manifests_empty sent s.local k h).0 d in
          rw (e, d, advertise_locked)
            (
              record {
                local_sorted = h;
                sent_sorted = k;
                sent_tidy = i.sent_tidy;
                whole = i.whole;
                known = λ t. r;
                version_fits = i.version_fits;
                sent_fits = i.version_fits;
                since =
                    λ t. just_now n s (advert sent true s.version false) i.version_fits refl same;
              },
              r ∙ same,
            )
      | inr d ↦
          rw (e, d, advertise_locked)
            (sent-Told n cap s v false (diff_manifests sent s.local)
              (advert s.local true s.version false)
              (diff_manifests-Sendable sent s.local i.sent_tidy y) y h i.version_fits i.whole
              (rw r (apply-diff_manifests sent s.local k h)) refl refl)
    ]

advertise-Told :
    (n cap : ℕ) (s : Store) (sent : Manifest) (valid : Bool) (ver : ℕ) (pending : Bool) (v : View)
    → n < 2 ^ 64
    → Tidy s.local
    → InStep n s (advert sent valid ver pending) v
    → Told n cap s v (advertise_locked s (advert sent valid ver pending))
unfolding advertise_locked
advertise-Told n cap s sent false ver pending v b y i =
    sent-Told n cap s v true (whole_tree s.local) (advert s.local true s.version false)
      (whole_tree-Sendable s.local y) y i.local_sorted i.version_fits i.whole
      (whole_tree_lem s.local i.local_sorted) refl refl
advertise-Told n cap s sent true ver pending v b y i = elim (Bool-cases (s.version == ver)) [
  | inl e ↦
      let (k, k_le, (c, same)) = i.since refl in
      let here = (==_iff s.version ver).0 e in
      let zero_changes : k ≡ 0 = omega (arith, k_le, b, c, here, i.sent_fits) in
      rw (e, advertise_locked)
        (
          record {
            local_sorted = i.local_sorted;
            sent_sorted = i.sent_sorted;
            sent_tidy = i.sent_tidy;
            whole = i.whole;
            known = i.known;
            version_fits = i.version_fits;
            sent_fits = i.sent_fits;
            since = i.since;
          },
          i.known refl ∙ same zero_changes,
        )
  | inr e ↦ updated-Told n cap s sent ver pending v e y i
]

-- After a run the two sides are in step, and the tree is tidy.
abbrev Kept : Link → Type 0
Kept l = (n : ℕ) × (n < 2 ^ 64) × InStep n l.store l.advert l.peer × Tidy l.store.local

run-Kept :
    (n cap : ℕ) (es : List Event) (l : Link)
    → n + changes es < 2 ^ 64
    → SortedEvents es
    → TidyEvents es l.store
    → InStep n l.store l.advert l.peer
    → Kept (run cap es l)
unfolding step
run-Kept n cap [] l b h y i = (n, omega (arith, b), i, y)
run-Kept n cap (changed c ∷ es) l b h y i =
    run-Kept (1 + n) cap es (step cap (changed c) l) (omega (arith, b)) h.1 y
      (change-InStep n c l.store l.advert l.peer h.0 i)
run-Kept n cap (advertised ∷ es) l b h y i =
    let a = l.advert in
    run-Kept n cap es (step cap advertised l) b h y.1
      (advertise-Told n cap l.store a.last_sent a.last_sent_valid a.last_sent_version
        a.advertise_pending l.peer (omega (arith, b)) y.0 i).0

-- Where the folder's tree is sorted to begin with and after each scan, its version has 64 bits, the
-- peer has no update half assembled, and at each advertisement the tree has fewer than 2^32 files,
-- all with safe paths and fields that fit: after any changes and advertisements, fewer than 2^64
-- changes among them, one more advertisement, whose messages the peer decodes and filters, leaves the
-- peer with exactly the folder's present tree.
pub advertised_tree :
    (cap : ℕ) (s : Store) (v : View) (es : List Event)
    → IsSorted s.local
    → s.version < 2 ^ 64
    → v.staging_active ≡ false
    → changes es < 2 ^ 64
    → SortedEvents es
    → TidyEvents es s
    → (step cap advertised (run cap es (linked s v))).peer.remote
      ≡ (run cap es (linked s v)).store.local
unfolding step
advertised_tree cap s v es h f w b k y =
    let l = run cap es (linked s v) in
    let a = l.advert in
    let first : InStep 0 s first_advert v = record {
      local_sorted = h;
      sent_sorted = tt;
      sent_tidy = Tidy-none;
      whole = w;
      known = λ t. let n : false ≡ true = t in cc;
      version_fits = f;
      sent_fits = omega arith;
      since = λ t. let n : false ≡ true = t in cc;
    } in
    let (n, n_lt, i, last) = run-Kept 0 cap es (linked s v) (omega (arith, b)) k y first in
    (advertise-Told n cap l.store a.last_sent a.last_sent_valid a.last_sent_version
      a.advertise_pending l.peer n_lt last i).1
