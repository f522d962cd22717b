-- ===== src/Reconcile/Converge.antt =====
-- core/diff.cpp, one path: once both sides have acted, they hold the same content and are at rest.
use rasync.Prelude.{◌≡◌, refl, ap, subst, arith, Bool, true, false, not, ◌&&◌, none, some}
use rasync.Prelude.{if◌then◌else◌, Bool-cases, inl, inr}
use rasync.Meta.{same_content, same_content_comm, same_content_refl}
use rasync.Reconcile.{
  ReconcileOptions, Entry, classify, changed, local_wins, DecisionKind, decision, yield_to, offer,
  agree, is_none, decide_two_way, decide_mirror,
}
use rasync.Reconcile.Decide.{HashTells, SameEntry, mirrored, peer_options, decide_two_way_mirrored}

pub SameEntry-refl : (l : Entry) → SameEntry l l
SameEntry-refl none = tt
SameEntry-refl (some l) = same_content_refl l

pub SameEntry-sym : (l r : Entry) → SameEntry l r → SameEntry r l
SameEntry-sym none none h = tt
SameEntry-sym (some l) (some r) h = ground (arith, same_content_comm l r)
SameEntry-sym (some l) none h = elim h [ ]
SameEntry-sym none (some r) h = elim h [ ]

-- What a side's entry may be once it has acted: a pull leaves a file with the peer's content, a
-- local deletion none, and nothing else touches it.
abbrev pub Performed : DecisionKind → Entry → Entry → Entry → Type 0
Performed DecisionKind.pull l r l' = SameEntry l' r
Performed DecisionKind.delete_local l r l' = l' ≡ none
Performed DecisionKind.nothing l r l' = l' ≡ l
Performed DecisionKind.push l r l' = l' ≡ l
Performed DecisionKind.delete_remote l r l' = l' ≡ l

-- What a decision says of the two entries.
abbrev pub Sound : DecisionKind → Entry → Entry → Type 0
Sound DecisionKind.nothing l r = SameEntry l r
Sound DecisionKind.pull l r = is_none r ≡ false
Sound DecisionKind.push l r = is_none l ≡ false
Sound DecisionKind.delete_local l r = r ≡ none
Sound DecisionKind.delete_remote l r = l ≡ none

yield-Sound :
    (l r : Entry) (deletes c : Bool) → deletes ≡ true → Sound (yield_to r deletes c).kind l r
yield-Sound l (some r) deletes c d = refl
yield-Sound l none deletes c d = rw d refl

offer-Sound : (l r : Entry) (c : Bool) → Sound (offer l c).kind l r
offer-Sound (some l) r c = refl
offer-Sound none r c = refl

-- The ladder of `decide_two_way`, whichever way its tests go.
ladder-Sound :
    (l r : Entry) (t u v deletes : Bool)
    → deletes ≡ true
    → Sound
        (if t
          then offer l false
          else if u
          then yield_to r deletes false
          else if v
          then offer l true
          else yield_to r deletes true).kind
        l
        r
ladder-Sound l r true u v deletes d = offer-Sound l r false
ladder-Sound l r false true v deletes d = yield-Sound l r deletes false d
ladder-Sound l r false false true deletes d = offer-Sound l r true
ladder-Sound l r false false false deletes d = yield-Sound l r deletes true d

pub decide_two_way-Sound :
    (l r b : Entry) (o : ReconcileOptions)
    → o.propagate_deletes ≡ true
    → Sound (decide_two_way l r b o).kind l r
unfolding decide_two_way
decide_two_way-Sound l r b o d = elim (Bool-cases (is_none l && is_none r)) [
  | inl e ↦ rw e (both_none l r e)
  | inr e ↦ rw e (elim (Bool-cases (agree l r)) [
    | inl a ↦ rw a (agree_same l r a)
    | inr a ↦
        let lc = changed (classify l b) in
        let rc = changed (classify r b) in
        rw a (
          ladder-Sound l r (lc && not rc) (rc && not lc) (local_wins l r o.conflict)
            o.propagate_deletes d)
  ])
]
  where
    both_none : (l r : Entry) → is_none l && is_none r ≡ true → SameEntry l r
    both_none none none e = tt
    both_none none (some r) e = cc
    both_none (some l) r e = cc

    agree_same : (l r : Entry) → agree l r ≡ true → SameEntry l r
    agree_same (some l) (some r) e = e
    agree_same (some l) none e = cc
    agree_same none r e = cc

pub decide_mirror-Sound :
    (l r : Entry) (o : ReconcileOptions)
    → o.propagate_deletes ≡ true
    → is_none l && is_none r ≡ false
    → Sound (decide_mirror l r o).kind l r
unfolding decide_mirror
decide_mirror-Sound none none o d n = cc
decide_mirror-Sound (some l) none o d n = elim (Bool-cases o.source) [
  | inl e ↦ rw e refl
  | inr e ↦ rw (e, d) refl
]
decide_mirror-Sound none (some r) o d n = elim (Bool-cases o.source) [
  | inl e ↦ rw e refl
  | inr e ↦ rw e refl
]
decide_mirror-Sound (some l) (some r) o d n = elim (Bool-cases (same_content l r)) [
  | inl a ↦ elim (Bool-cases o.source) [
    | inl e ↦ rw (e, same_content_comm r l, a) a
    | inr e ↦ rw (e, a) a
  ]
  | inr a ↦ elim (Bool-cases o.source) [
    | inl e ↦ rw (e, same_content_comm r l, a) refl
    | inr e ↦ rw (e, a) refl
  ]
]

-- Two sides that take mirrored, sound actions meet.
meet :
    (k : DecisionKind) (l r l' r' : Entry)
    → Sound k l r
    → Performed k l r l'
    → Performed (mirrored k) r l r'
    → SameEntry l' r'
meet DecisionKind.nothing l r l' r' s p q = rw (p, q) s
meet DecisionKind.pull l r l' r' s p q = rw q p
meet DecisionKind.push l r l' r' s p q = rw p (SameEntry-sym r' l q)
meet DecisionKind.delete_local l r l' r' s p q = rw (p, q, s) tt
meet DecisionKind.delete_remote l r l' r' s p q = rw (p, q, s) tt

-- Sides with the same content decide to do nothing.
pub decide_two_way_rest :
    (l r b : Entry) (o : ReconcileOptions)
    → SameEntry l r
    → decide_two_way l r b o ≡ decision DecisionKind.nothing false
unfolding decide_two_way
decide_two_way_rest none none b o h = refl
decide_two_way_rest (some l) (some r) b o h = rw h
decide_two_way_rest (some l) none b o h = elim h [ ]
decide_two_way_rest none (some r) b o h = elim h [ ]

-- In two-way mode, with deletions propagated, complementary policies and baselines of the same
-- content: when each side has done what it decided for a path, both hold the same content there.
pub decide_two_way_converges :
    (l r b b' l' r' : Entry) (o : ReconcileOptions)
    → o.propagate_deletes ≡ true
    → SameEntry b b'
    → HashTells l r
    → Performed (decide_two_way l r b o).kind l r l'
    → Performed (decide_two_way r l b' (peer_options o)).kind r l r'
    → SameEntry l' r'
decide_two_way_converges l r b b' l' r' o d s t p q =
    meet (decide_two_way l r b o).kind l r l' r' (decide_two_way-Sound l r b o d) p (
      subst (λ k. Performed k r l r') (ap (λ x. x.kind) (decide_two_way_mirrored l r b b' o s t d))
        q)
