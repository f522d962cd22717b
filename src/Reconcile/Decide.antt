-- ===== src/Reconcile/Decide.antt =====
-- core/diff.cpp, one path: the decisions of the two sides, and what they lead to.
use rasync.Prelude.{◌≡◌, refl, arith, true, false, not, [], ◌∷◌, ◌&&◌, none, some}
use rasync.Prelude.Int.{ℤ, pos, negsuc, ltb_ℤ}
use rasync.Prelude.Equality.{eq_ℤ, eq_ℤ_comm, bytes_eq}
use rasync.Prelude.Order.{bytes_order, bytes_lt}
use rasync.Codec.Writer.{Bytes}
use rasync.Meta.{FileMeta, same_content, same_content_comm, same_content_trans}
use rasync.Reconcile.{
  ConflictPolicy, ReconcileOptions, complement, classify, changed, Entry, newer_wins, larger_wins,
  local_wins, DecisionKind, Decision, decision, agree, is_none, decide_two_way, decide_mirror,
}

-- Equal digests come from equal contents: what a SHA-256 without collisions gives of two versions.
abbrev pub HashTells : Entry → Entry → Type 0
HashTells (some l) (some r) = bytes_eq l.hash r.hash ≡ true → l.size ≡ r.size
HashTells (some l) none = Unit {0}
HashTells none r = Unit {0}

ltb_ℤ_opposite : (a b : ℤ) → eq_ℤ a b ≡ false → ltb_ℤ a b ≡ not (ltb_ℤ b a)
ltb_ℤ_opposite (pos a) (pos b) h = ground arith
ltb_ℤ_opposite (pos a) (negsuc b) h = refl
ltb_ℤ_opposite (negsuc a) (pos b) h = refl
ltb_ℤ_opposite (negsuc a) (negsuc b) h = ground arith

bytes_lt_opposite : (a b : Bytes) → bytes_eq a b ≡ false → bytes_lt a b ≡ not (bytes_lt b a)
bytes_lt_opposite [] [] h = cc
bytes_lt_opposite [] (y ∷ ys) h = refl
bytes_lt_opposite (x ∷ xs) [] h = refl
bytes_lt_opposite (x ∷ xs) (y ∷ ys) h = ground (arith, bytes_lt_opposite xs ys)

-- Two versions that differ in content, as both sides compare them.
newer_wins_opposite :
    (l r : FileMeta)
    → (bytes_eq l.hash r.hash ≡ true → l.size ≡ r.size)
    → same_content l r ≡ false
    → newer_wins r l ≡ not (newer_wins l r)
unfolding newer_wins same_content
newer_wins_opposite l r h d = ground (
  arith,
  eq_ℤ_comm l.mtime r.mtime,
  ltb_ℤ_opposite l.mtime r.mtime,
  bytes_lt_opposite l.hash r.hash,
)

larger_wins_opposite :
    (l r : FileMeta)
    → (bytes_eq l.hash r.hash ≡ true → l.size ≡ r.size)
    → same_content l r ≡ false
    → larger_wins r l ≡ not (larger_wins l r)
unfolding larger_wins
larger_wins_opposite l r h d = ground (arith, newer_wins_opposite l r h d)

local_wins_opposite :
    (l r : Entry) (p : ConflictPolicy)
    → HashTells l r
    → agree l r ≡ false
    → is_none l && is_none r ≡ false
    → local_wins r l (complement p) ≡ not (local_wins l r p)
unfolding local_wins complement
local_wins_opposite (some l) (some r) ConflictPolicy.newer t d n = newer_wins_opposite l r t d
local_wins_opposite (some l) (some r) ConflictPolicy.larger t d n = larger_wins_opposite l r t d
local_wins_opposite (some l) (some r) ConflictPolicy.prefer_local t d n = refl
local_wins_opposite (some l) (some r) ConflictPolicy.prefer_remote t d n = refl
local_wins_opposite none none p t d n = cc
local_wins_opposite (some l) none p t d n = ground arith
local_wins_opposite none (some r) p t d n = ground arith

-- The same action, seen from the other side.
abbrev pub mirrored : DecisionKind → DecisionKind
mirrored DecisionKind.nothing = DecisionKind.nothing
mirrored DecisionKind.pull = DecisionKind.push
mirrored DecisionKind.push = DecisionKind.pull
mirrored DecisionKind.delete_local = DecisionKind.delete_remote
mirrored DecisionKind.delete_remote = DecisionKind.delete_local

abbrev pub mirrored_decision : Decision → Decision
mirrored_decision d = decision (mirrored d.kind) d.conflict

-- The options that the handshake wants of the peer: the complementary policy, and in mirror mode
-- the other role.
abbrev pub peer_options : ReconcileOptions → ReconcileOptions
peer_options o = record o { conflict = complement o.conflict; source = not o.source }

-- Both absent, or the same content.
abbrev pub SameEntry : Entry → Entry → Type 0
SameEntry (some l) (some r) = same_content l r ≡ true
SameEntry (some l) none = ⊥
SameEntry none (some r) = ⊥
SameEntry none none = Unit {0}

-- A baseline counts by its content alone.
classify_same : (cur b b' : Entry) → SameEntry b b' → classify cur b ≡ classify cur b'
unfolding classify
classify_same none none none h = refl
classify_same none (some b) (some b') h = refl
classify_same (some c) none none h = refl
classify_same (some c) (some b) (some b') h =
    ground (arith, same_content_trans c b b', same_content_trans c b' b, same_content_comm b b')
classify_same cur none (some b') h = elim h [ ]
classify_same cur (some b) none h = elim h [ ]

-- With deletions propagated, the peer reaches the mirrored decision.
pub decide_two_way_mirrored :
    (l r b b' : Entry) (o : ReconcileOptions)
    → SameEntry b b'
    → HashTells l r
    → o.propagate_deletes ≡ true
    → decide_two_way r l b' (peer_options o) ≡ mirrored_decision (decide_two_way l r b o)
unfolding decide_two_way
decide_two_way_mirrored none none b b' o s t d = refl
decide_two_way_mirrored (some l) none b b' o s t d = ground (
  arith,
  classify_same (some l) b b' s,
  classify_same none b b' s,
  local_wins_opposite (some l) none o.conflict t refl refl,
)
decide_two_way_mirrored none (some r) b b' o s t d = ground (
  arith,
  classify_same (some r) b b' s,
  classify_same none b b' s,
  local_wins_opposite none (some r) o.conflict t refl refl,
)
decide_two_way_mirrored (some l) (some r) b b' o s t d = ground (
  arith,
  same_content_comm l r,
  classify_same (some l) b b' s,
  classify_same (some r) b b' s,
  local_wins_opposite (some l) (some r) o.conflict t,
)

pub decide_mirror_mirrored :
    (l r : Entry) (o : ReconcileOptions)
    → o.propagate_deletes ≡ true
    → decide_mirror r l (peer_options o) ≡ mirrored_decision (decide_mirror l r o)
unfolding decide_mirror
decide_mirror_mirrored none none o d = ground arith
decide_mirror_mirrored (some l) none o d = ground arith
decide_mirror_mirrored none (some r) o d = ground arith
decide_mirror_mirrored (some l) (some r) o d = ground (arith, same_content_comm l r)

-- With `--no-delete` on both sides, a file that one side deleted and the other left alone.
pub decide_two_way_kept :
    (r b : FileMeta) (o : ReconcileOptions)
    → o.propagate_deletes ≡ false
    → same_content r b ≡ true
    → ((decide_two_way (some r) none (some b) (peer_options o)).kind ≡ DecisionKind.nothing)
      × ((decide_two_way none (some r) (some b) o).kind ≡ DecisionKind.delete_remote)
unfolding decide_two_way
decide_two_way_kept r b o d s = unfold classify changed in (rw (s, d) refl, rw s refl)
