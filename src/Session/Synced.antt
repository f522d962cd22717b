-- ===== src/Session/Synced.antt =====
-- net/sync_session.cpp: `maybe_synced`, which notices that both trees agree.
use rasync.Prelude.{
  ℕ, arith, ◌≡◌, refl, sym, ◌∙◌, ap, Bool, true, false, not, ◌&&◌, ◌||◌, List, [], ◌∷◌, Option,
  none, some,
}
use rasync.Prelude.{Bool-cases, inl, inr, ◌⊎◌, subst, ◌==◌, if◌then◌else◌}
use rasync.Prelude.Equality.{bytes_eq}
use rasync.Prelude.Order.{bytes_order}
use rasync.Codec.Writer.{Bytes}
use rasync.SortedMap.{Map, find, IsSorted}
use rasync.Manifest.Fingerprint.{fingerprint}
use rasync.Reconcile.{ReconcileOptions, reconcile, plan_is_empty}
use rasync.Reconcile.Decide.{SameEntry}
use rasync.Reconcile.Plan.{reconcile_empty}
use rasync.Service.{Store, set_base_manifest}
use rasync.Session.{View, is_two_way}
use rasync.Session.Pull.{Pulls}
use rasync.Transfer.{Table}
use rasync.Session.Advert.{Advert, Update, advertise_locked}

-- The tracked manifests, what the sides know of each other, `last_eval_*` and `last_synced_*`.
pub record Tracked : Type 0 where
  pub store : Store
  pub advert : Advert
  pub view : View
  pub last_eval : Option (ℕ × ℕ)
  pub last_synced : Option Bytes

abbrev pub is_empty_map {ℓ κ} : {K : Type ℓ} {V : Type κ} → Map K V → Bool
is_empty_map [] = true
is_empty_map (_ ∷ _) = false

abbrev pub evaluated : Option (ℕ × ℕ) → ℕ → ℕ → Bool
evaluated none local_ver remote_ver = false
evaluated (some (l, r)) local_ver remote_ver = l == local_ver && r == remote_ver

abbrev pub announced : Option Bytes → Bytes → Bool
announced none fp = false
announced (some last) fp = bytes_eq fp last

-- The end of `maybe_synced`, with whether a save of the baseline succeeds, and the fingerprint of the
-- local tree: is an event due?
unfoldable pub announce : ReconcileOptions → Bool → Bytes → Tracked → Bool × Tracked
unfolding set_base_manifest
announce o saves fp t =
    let store : Store =
      if is_two_way o.mode then set_base_manifest saves t.store.local t.store else t.store in
    if announced t.last_synced fp
    then (false, t)
    else (true, record t { last_synced = some fp; store = store })

unfoldable pub is_busy : Pulls → Table → ℕ → Bool
is_busy pulls incoming serves =
    not (is_empty_map pulls.pulling) || not (is_empty_map incoming) || not (serves == 0)

module _ (sha256 : Bytes → Bytes) where
  unfoldable pub evaluate : ReconcileOptions → Bool → Tracked → Bool × Tracked
  unfolding announce
  evaluate o saves t =
      let known : Tracked = record t {
        last_eval = some (t.store.version, t.view.remote_version);
      } in
      if not t.view.have_remote
      then (false, t)
      else if evaluated t.last_eval t.store.version t.view.remote_version
      then (false, t)
      else if not (plan_is_empty (reconcile t.store.base t.store.local t.view.remote o))
      then (false, known)
      else announce o saves (fingerprint sha256 t.store.local) known

  -- `maybe_synced`, with what it advertises, on what is pulled, received and served.
  unfoldable pub maybe_synced :
      ReconcileOptions → Bool → Pulls → Table → ℕ → Tracked → Option Update × (Bool × Tracked)
  unfolding evaluate advertise_locked is_busy
  maybe_synced o saves pulls incoming serves t =
      let (update, advert) = advertise_locked t.store t.advert in
      if is_busy pulls incoming serves
      then (none, (false, record t { last_eval = none }))
      else if t.advert.advertise_pending
      then (update, evaluate o saves (record t { advert = advert }))
      else (none, evaluate o saves t)

-- What an event claims: both trees hold the same content, and a two-way folder has its tree for a
-- baseline, on disk too if the save succeeded, where a mirror keeps the one it had.
pub record Agreed (o : ReconcileOptions) (saves : Bool) (t t' : Tracked) : Type 0 where
  pub same : (k : Bytes) → SameEntry (find k t.store.local) (find k t.view.remote)
  pub kept : t'.store.local ≡ t.store.local
  pub based : t'.store.base ≡ (if is_two_way o.mode then t.store.local else t.store.base)
  pub saved :
      t'.store.saved
      ≡ (if is_two_way o.mode then (if saves then some t.store.local else none) else t.store.saved)

abbrev pub SortedTracked : Tracked → Type 0
SortedTracked t = IsSorted t.store.base × IsSorted t.store.local × IsSorted t.view.remote

announce-Agreed :
    (o : ReconcileOptions) (saves : Bool) (fp : Bytes) (t : Tracked)
    → ((k : Bytes) → SameEntry (find k t.store.local) (find k t.view.remote))
    → (announce o saves fp t).0 ≡ true
    → Agreed o saves t (announce o saves fp t).1
unfolding announce
announce-Agreed o saves fp t h e = elim (Bool-cases (announced t.last_synced fp)) [
  | inl d ↦ let n : false ≡ true = (rw (d, announce) at e) in cc
  | inr d ↦ elim (Bool-cases (is_two_way o.mode)) [
    | inl m ↦
        rw (d, m, announce) (record { same = h; kept = refl; based = rw m refl; saved = rw m refl })
    | inr m ↦
        rw (d, m, announce) (record { same = h; kept = refl; based = rw m refl; saved = rw m refl })
  ]
]

-- Of the tests of `evaluate`, an event has passed them all.
passed :
    (h l p : Bool) (t known : Tracked) (r : Bool × Tracked)
    → let c =
        if not h
        then (false, t)
        else if l
        then (false, t)
        else if not p
        then (false, known)
        else r in
      c.0 ≡ true → (p ≡ true) × (c ≡ r)
passed false l p t known r e = let n : false ≡ true = e in cc
passed true true p t known r e = let n : false ≡ true = e in cc
passed true false false t known r e = let n : false ≡ true = e in cc
passed true false true t known r e = (refl, refl)

-- Of those of `maybe_synced`, nothing is open, and it has evaluated the trees.
went_on :
    (b p : Bool) (u : Option Update) (t : Tracked) (r₁ r₂ : Bool × Tracked)
    → let c : Option Update × (Bool × Tracked) =
        if b then (none, (false, t)) else if p then (u, r₁) else (none, r₂) in
      c.1.0 ≡ true → (b ≡ false) × ((c.1 ≡ r₁) ⊎ (c.1 ≡ r₂))
went_on true p u t r₁ r₂ e = let n : false ≡ true = e in cc
went_on false true u t r₁ r₂ e = (refl, inl refl)
went_on false false u t r₁ r₂ e = (refl, inr refl)

nothing_open :
    (pulling : Map Bytes (Unit {0})) (queue : List Bytes) (incoming : Table) (serves : ℕ)
    → is_busy (record { pulling = pulling; queue = queue }) incoming serves ≡ false
    → (pulling ≡ []) × (incoming ≡ []) × (serves ≡ 0)
unfolding is_busy
nothing_open [] queue [] serves h = (refl, refl, ground (arith, h))
nothing_open [] queue (i ∷ is) serves h = let n : true ≡ false = h in cc
nothing_open (p ∷ ps) queue incoming serves h = let n : true ≡ false = h in cc

module _ (sha256 : Bytes → Bytes) where
  evaluate-Agreed :
      (o : ReconcileOptions) (saves : Bool) (t : Tracked)
      → o.propagate_deletes ≡ true
      → SortedTracked t
      → (evaluate sha256 o saves t).0 ≡ true
      → Agreed o saves t (evaluate sha256 o saves t).1
  unfolding evaluate
  evaluate-Agreed o saves t d (sb, sl, sr) e =
      let known : Tracked = record t {
        last_eval = some (t.store.version, t.view.remote_version);
      } in
      let fp = fingerprint sha256 t.store.local in
      let (p, c) =
        passed t.view.have_remote (evaluated t.last_eval t.store.version t.view.remote_version)
          (plan_is_empty (reconcile t.store.base t.store.local t.view.remote o)) t known
          (announce o saves fp known) e in
      let agree = (reconcile_empty t.store.base t.store.local t.view.remote o sb sl sr d).0 p in
      let a =
        announce-Agreed o saves fp known agree (sym (ap (λ (x : Bool × Tracked). x.0) c) ∙ e) in
      subst (λ (x : Bool × Tracked). Agreed o saves t x.1) (sym c)
        (record { same = a.same; kept = a.kept; based = a.based; saved = a.saved })

  -- Where deletions are propagated and the manifests are sorted: when the session says that it is in
  -- sync, nothing is being pulled, received or served, both trees hold the same paths with the same
  -- content, and a two-way folder has taken its tree for the baseline, on disk too if its save
  -- succeeded.
  pub maybe_synced-Agreed :
      (o : ReconcileOptions) (saves : Bool) (pulls : Pulls) (incoming : Table) (serves : ℕ)
      (t : Tracked)
      → o.propagate_deletes ≡ true
      → SortedTracked t
      → (maybe_synced sha256 o saves pulls incoming serves t).1.0 ≡ true
      → ((pulls.pulling ≡ []) × (incoming ≡ []) × (serves ≡ 0))
        × Agreed o saves t (maybe_synced sha256 o saves pulls incoming serves t).1.1
  unfolding maybe_synced
  maybe_synced-Agreed o saves pulls incoming serves t d s e =
      let told : Tracked = record t { advert = (advertise_locked t.store t.advert).1 } in
      let (b, c) =
        went_on (is_busy pulls incoming serves) t.advert.advertise_pending
          (advertise_locked t.store t.advert).0 (record t { last_eval = none })
          (evaluate sha256 o saves told) (evaluate sha256 o saves t) e in
      (
        nothing_open pulls.pulling pulls.queue incoming serves b,
        elim c [
          | inl k ↦
              let a =
                evaluate-Agreed o saves told d s (sym (ap (λ (x : Bool × Tracked). x.0) k) ∙ e) in
              subst (λ (x : Bool × Tracked). Agreed o saves t x.1) (sym k)
                (record { same = a.same; kept = a.kept; based = a.based; saved = a.saved })
          | inr k ↦
              subst (λ (x : Bool × Tracked). Agreed o saves t x.1) (sym k)
                (evaluate-Agreed o saves t d s (sym (ap (λ (x : Bool × Tracked). x.0) k) ∙ e))
        ],
      )
