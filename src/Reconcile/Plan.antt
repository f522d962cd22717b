-- ===== src/Reconcile/Plan.antt =====
-- core/diff.cpp: a plan is empty exactly when the two trees hold the same content.
use rasync.Prelude.{
  ◌≡◌, ◌≢◌, ◌↔◌, refl, sym, ◌∙◌, ap, subst, arith, Bool, true, false, ◌&&◌, List, [], ◌∷◌, ◌++◌,
  none, some,
}
use rasync.Prelude.{Bool-cases, inl, inr}
use rasync.Prelude.Order.{bytes_order}
use rasync.Codec.Writer.{Bytes}
use rasync.Meta.{same_content_comm}
use rasync.SortedMap.{same, find, Above, IsSorted}
use rasync.SortedMap.Laws.{find_this, find_other, same→eq, same_refl}
use rasync.Manifest.{Manifest}
use rasync.Reconcile.{
  ReconcileOptions, Entry, DecisionKind, Decision, decide_two_way, decide_mirror, KeySet,
  union_keys, is_none, SyncPlan, empty_plan, file_under, note_conflict, plan_loop, reconcile,
  plan_is_empty, no_paths,
}
use rasync.Reconcile.Decide.{SameEntry}
use rasync.Reconcile.Converge.{
  Sound, decide_two_way-Sound, decide_mirror-Sound, decide_two_way_rest,
}
use rasync.Reconcile.Keys.{union_keys-IsSorted, find-union_keys}
use rasync.Reconcile.Symmetry.{Mode-cases, reconcile_two_way, reconcile_mirror}

-- Every path of the set is decided by doing nothing.
abbrev AllIdle : KeySet → (Bytes → Decision) → Type 0
AllIdle [] d = Unit {0}
AllIdle ((path, _) ∷ keys) d = ((d path).kind ≡ DecisionKind.nothing) × AllIdle keys d

no_paths-append : (l : List Bytes) (x : Bytes) → no_paths (l ++ x ∷ []) ≡ false
no_paths-append [] x = refl
no_paths-append (y ∷ l) x = refl

-- What one round does to the test.
step_empty :
    (path : Bytes) (k : DecisionKind) (c : Bool) (p : SyncPlan)
    → plan_is_empty (note_conflict path c (file_under path k p)) ≡ true
    → (k ≡ DecisionKind.nothing) × (plan_is_empty p ≡ true)
unfolding plan_is_empty
step_empty path DecisionKind.nothing c p h = (refl, ground arith)
step_empty path DecisionKind.pull c p h = ground (arith, no_paths-append p.pull path)
step_empty path DecisionKind.push c p h = ground (arith, no_paths-append p.push path)
step_empty path DecisionKind.delete_local c p h =
    ground (arith, no_paths-append p.delete_local path)
step_empty path DecisionKind.delete_remote c p h =
    ground (arith, no_paths-append p.delete_remote path)

step_idle :
    (path : Bytes) (k : DecisionKind) (c : Bool) (p : SyncPlan)
    → k ≡ DecisionKind.nothing
    → plan_is_empty p ≡ true
    → plan_is_empty (note_conflict path c (file_under path k p)) ≡ true
unfolding plan_is_empty
step_idle path k c p e h = rw e (ground arith)

loop_empty :
    (keys : KeySet) (d : Bytes → Decision) (p : SyncPlan)
    → plan_is_empty (plan_loop keys d p) ≡ true
    → AllIdle keys d × (plan_is_empty p ≡ true)
unfolding plan_loop
loop_empty [] d p h = (tt, h)
loop_empty ((path, u) ∷ keys) d p h =
    let (rest, now) =
      loop_empty keys d (note_conflict path (d path).conflict (file_under path (d path).kind p))
        h in
    let (idle, before) = step_empty path (d path).kind (d path).conflict p now in
    ((idle, rest), before)

loop_idle :
    (keys : KeySet) (d : Bytes → Decision) (p : SyncPlan)
    → AllIdle keys d
    → plan_is_empty p ≡ true
    → plan_is_empty (plan_loop keys d p) ≡ true
unfolding plan_loop
loop_idle [] d p a h = h
loop_idle ((path, u) ∷ keys) d p a h =
    loop_idle keys d (note_conflict path (d path).conflict (file_under path (d path).kind p)) a.1
      (step_idle path (d path).kind (d path).conflict p a.0 h)

-- Between the set as a list and as its members.
find_nil : (k : Bytes) → find {V = Unit {0}} k [] ≡ none
unfolding find
find_nil k = refl

cons_member :
    (k path : Bytes) (u : Unit {0}) (keys : KeySet)
    → Above path keys
    → find k keys ≢ none
    → find k ((path, u) ∷ keys) ≢ none
cons_member k path u keys a h = elim (Bool-cases (same k path)) [
  | inl e ↦ λ f. cc (f, find_this k path u keys e)
  | inr e ↦ λ f. h (sym (find_other k path u keys e a) ∙ f)
]

idle_at :
    (keys : KeySet) (d : Bytes → Decision) (k : Bytes)
    → IsSorted keys
    → AllIdle keys d
    → find k keys ≢ none
    → (d k).kind ≡ DecisionKind.nothing
idle_at [] d k s a h = absurd (h (find_nil k))
idle_at ((path, u) ∷ keys) d k s a h = elim (Bool-cases (same k path)) [
  | inl e ↦ subst (λ x. (d x).kind ≡ DecisionKind.nothing) (sym (same→eq k path e)) a.0
  | inr e ↦ idle_at keys d k s.1 a.1 (λ f. h (find_other k path u keys e s.0 ∙ f))
]

idle_all :
    (keys : KeySet) (d : Bytes → Decision)
    → IsSorted keys
    → ((k : Bytes) → find k keys ≢ none → (d k).kind ≡ DecisionKind.nothing)
    → AllIdle keys d
idle_all [] d s h = tt
idle_all ((path, u) ∷ keys) d s h = (
  h path (λ f. cc (f, find_this path path u keys (same_refl path))),
  idle_all keys d s.1 (λ k f. h k (cons_member k path u keys s.0 f)),
)

decide_mirror_rest :
    (l r : Entry) (o : ReconcileOptions)
    → SameEntry l r
    → is_none l && is_none r ≡ false
    → (decide_mirror l r o).kind ≡ DecisionKind.nothing
unfolding decide_mirror
decide_mirror_rest none none o h n = cc
decide_mirror_rest (some l) (some r) o h n = ground (arith, same_content_comm l r)
decide_mirror_rest (some l) none o h n = elim h [ ]
decide_mirror_rest none (some r) o h n = elim h [ ]

-- A path that no side has.
absent_same : (l r : Entry) → is_none l && is_none r ≡ true → SameEntry l r
absent_same none none h = tt
absent_same (some l) r h = cc
absent_same none (some r) h = cc

module _ (base local remote : Manifest) (sb : IsSorted base) (sl : IsSorted local)
    (sr : IsSorted remote) where
  union_member :
      (k : Bytes)
      → is_none (find k local) && is_none (find k remote) ≡ false
      → find k (union_keys base local remote) ≢ none
  union_member k h f = ground (arith, find-union_keys k base local remote sb sl sr)

  -- From the plan to the trees, and back, for any decision that is sound and rests on agreement.
  plan_same :
      (d : Bytes → Decision)
      → ((k : Bytes)
          → is_none (find k local) && is_none (find k remote) ≡ false
          → (d k).kind ≡ DecisionKind.nothing
          → SameEntry (find k local) (find k remote))
      → plan_is_empty (plan_loop (union_keys base local remote) d empty_plan) ≡ true
      → (k : Bytes) → SameEntry (find k local) (find k remote)
  plan_same d sound h k = elim (Bool-cases (is_none (find k local) && is_none (find k remote))) [
    | inl e ↦ absent_same (find k local) (find k remote) e
    | inr e ↦
        let (idle, start) = loop_empty (union_keys base local remote) d empty_plan h in
        sound k e (
          idle_at (union_keys base local remote) d k (union_keys-IsSorted base local remote) idle
            (union_member k e))
  ]

mirror_member :
    (local remote : Manifest) (k : Bytes)
    → IsSorted local
    → IsSorted remote
    → find k (union_keys [] local remote) ≢ none
    → is_none (find k local) && is_none (find k remote) ≡ false
mirror_member local remote k sl sr h =
    elim (Bool-cases (is_none (find k local) && is_none (find k remote))) [
      | inl e ↦ absurd (h (find-union_keys k [] local remote tt sl sr ∙ ground (arith, no_base k)))
      | inr e ↦ e
    ]
  where
    no_base : (k : Bytes) → is_none (find k []) ≡ true
    no_base k = unfold find in refl

-- With deletions propagated, and in either mode, a side's plan is empty exactly when the two trees
-- hold the same paths with the same content: the moment at which the session takes its own tree for
-- the new baseline.
pub reconcile_empty :
    (base local remote : Manifest) (o : ReconcileOptions)
    → IsSorted base
    → IsSorted local
    → IsSorted remote
    → o.propagate_deletes ≡ true
    → (plan_is_empty (reconcile base local remote o) ≡ true)
      ↔ ((k : Bytes) → SameEntry (find k local) (find k remote))
reconcile_empty base local remote o sb sl sr d = elim (Mode-cases o.mode) [
  | inl e ↦
      let act : Bytes → Decision =
        λ k. decide_two_way (find k local) (find k remote) (find k base) o in
      rw (reconcile_two_way base local remote o e) (
        plan_same base local remote sb sl sr act (λ k n idle.
            subst (λ x. Sound x (find k local) (find k remote)) idle
              (decide_two_way-Sound (find k local) (find k remote) (find k base) o d)),
        λ same.
            loop_idle (union_keys base local remote) act empty_plan
              (idle_all (union_keys base local remote) act (union_keys-IsSorted base local remote)
                (λ k f.
                  ap (λ x. x.kind)
                    (decide_two_way_rest (find k local) (find k remote) (find k base) o (same k))))
              (unfold plan_is_empty in refl),
      )
  | inr e ↦
      let act : Bytes → Decision = λ k. decide_mirror (find k local) (find k remote) o in
      rw (reconcile_mirror base local remote o e) (
        plan_same [] local remote tt sl sr act (λ k n idle.
            subst (λ x. Sound x (find k local) (find k remote)) idle
              (decide_mirror-Sound (find k local) (find k remote) o d n)),
        λ same.
            loop_idle (union_keys [] local remote) act empty_plan
              (idle_all (union_keys [] local remote) act (union_keys-IsSorted [] local remote)
                (λ k f.
                  decide_mirror_rest (find k local) (find k remote) o (same k)
                    (mirror_member local remote k sl sr f)))
              (unfold plan_is_empty in refl),
      )
]
