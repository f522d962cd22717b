-- ===== src/Reconcile/Symmetry.antt =====
-- core/diff.cpp: the plans that two peers compute for each other.
use rasync.Prelude.{◌≡◌, ◌⊎◌, refl, sym, ◌∙◌, ap, arith, Bool, true, [], ◌∷◌, none, some}
use rasync.Prelude.{inl, inr}
use rasync.Prelude.Order.{bytes_order}
use rasync.Codec.Writer.{Bytes}
use rasync.SortedMap.{find, IsSorted}
use rasync.Manifest.{Manifest}
use rasync.Reconcile.{
  SyncMode, ReconcileOptions, Entry, DecisionKind, Decision, decide_two_way, decide_mirror, KeySet,
  union_keys, is_none, SyncPlan, empty_plan, file_under, note_conflict, plan_loop, reconcile,
}
use rasync.Reconcile.Decide.{
  HashTells, SameEntry, mirrored, mirrored_decision, peer_options, decide_two_way_mirrored,
  decide_mirror_mirrored,
}
use rasync.Reconcile.Keys.{union_keys_swap}

-- The plan, as the peer writes it down.
abbrev pub mirrored_plan : SyncPlan → SyncPlan
mirrored_plan p = record {
  pull = p.push;
  delete_local = p.delete_remote;
  conflicts = p.conflicts;
  push = p.pull;
  delete_remote = p.delete_local;
}

step_mirrored :
    (path : Bytes) (k : DecisionKind) (c : Bool) (p : SyncPlan)
    → note_conflict path c (file_under path (mirrored k) (mirrored_plan p))
      ≡ mirrored_plan (note_conflict path c (file_under path k p))
step_mirrored path DecisionKind.nothing c p = ground arith
step_mirrored path DecisionKind.pull c p = ground arith
step_mirrored path DecisionKind.push c p = ground arith
step_mirrored path DecisionKind.delete_local c p = ground arith
step_mirrored path DecisionKind.delete_remote c p = ground arith

plan_loop_mirrored :
    (keys : KeySet) (d e : Bytes → Decision) (p : SyncPlan)
    → ((path : Bytes) → e path ≡ mirrored_decision (d path))
    → plan_loop keys e (mirrored_plan p) ≡ mirrored_plan (plan_loop keys d p)
unfolding plan_loop
plan_loop_mirrored [] d e p h = refl
plan_loop_mirrored ((path, u) ∷ keys) d e p h =
    rw (h path, step_mirrored path (d path).kind (d path).conflict p)
      (plan_loop_mirrored keys d e
        (note_conflict path (d path).conflict (file_under path (d path).kind p)) h)

pub Mode-cases : (m : SyncMode) → (m ≡ SyncMode.two_way) ⊎ (m ≡ SyncMode.mirror)
Mode-cases SyncMode.two_way = inl refl
Mode-cases SyncMode.mirror = inr refl

same_presence : (l r : Entry) → SameEntry l r → is_none l ≡ is_none r
same_presence none none h = refl
same_presence (some l) (some r) h = refl
same_presence none (some r) h = elim h [ ]
same_presence (some l) none h = elim h [ ]

module _ (base local remote : Manifest) (o : ReconcileOptions) where
  pub reconcile_two_way :
      o.mode ≡ SyncMode.two_way
      → reconcile base local remote o
        ≡ plan_loop
            (union_keys base local remote)
            (λ k. decide_two_way (find k local) (find k remote) (find k base) o)
            empty_plan
  unfolding reconcile
  reconcile_two_way e = rw e

  pub reconcile_mirror :
      o.mode ≡ SyncMode.mirror
      → reconcile base local remote o
        ≡ plan_loop
            (union_keys [] local remote)
            (λ k. decide_mirror (find k local) (find k remote) o)
            empty_plan
  unfolding reconcile
  reconcile_mirror e = rw e

-- Two peers whose baselines agree in content plan complementary actions, whatever their trees and
-- in either mode, when deletions are propagated and the peer runs the complementary policy (in
-- mirror mode, the other role): what one pulls the other lists as pushed, what one deletes the
-- other lists as deleted remotely, and both report the same conflicts, all in the same order.
pub reconcile_mirrored :
    (base base' local remote : Manifest) (o : ReconcileOptions)
    → IsSorted base
    → IsSorted base'
    → IsSorted local
    → IsSorted remote
    → ((k : Bytes) → SameEntry (find k base) (find k base'))
    → ((k : Bytes) → HashTells (find k local) (find k remote))
    → o.propagate_deletes ≡ true
    → reconcile base' remote local (peer_options o) ≡ mirrored_plan (reconcile base local remote o)
reconcile_mirrored base base' local remote o sb sb' sl sr same_base tells d =
    elim (Mode-cases o.mode) [
      | inl e ↦
          reconcile_two_way base' remote local (peer_options o) e
          ∙ ap
              (λ keys.
                plan_loop keys
                  (λ k.
                    decide_two_way (find k remote) (find k local) (find k base') (peer_options o))
                  empty_plan)
              (sym (
                union_keys_swap base base' local remote sb sb' sl sr
                  (λ k. same_presence (find k base) (find k base') (same_base k))))
          ∙ plan_loop_mirrored (union_keys base local remote) _ _ empty_plan (λ k.
            decide_two_way_mirrored (find k local) (find k remote) (find k base) (find k base') o
              (same_base k) (tells k) d)
          ∙ ap mirrored_plan (sym (reconcile_two_way base local remote o e))
      | inr e ↦
          reconcile_mirror base' remote local (peer_options o) e
          ∙ ap
              (λ keys.
                plan_loop keys (λ k. decide_mirror (find k remote) (find k local) (peer_options o))
                  empty_plan)
              (sym (union_keys_swap [] [] local remote tt tt sl sr (λ k. refl)))
          ∙ plan_loop_mirrored (union_keys [] local remote) _ _ empty_plan
              (λ k. decide_mirror_mirrored (find k local) (find k remote) o d)
          ∙ ap mirrored_plan (sym (reconcile_mirror base local remote o e))
    ]
