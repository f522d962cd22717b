-- ===== src/Reconcile/Stuck.antt =====
-- core/diff.cpp, one path: rounds that never come to rest.
use rasync.Prelude.{◌≡◌, refl, ◌∙◌, subst, true, false, none, some}
use rasync.Meta.{FileMeta, same_content}
use rasync.Reconcile.{ReconcileOptions, Entry, DecisionKind, decide_two_way}
use rasync.Reconcile.Decide.{peer_options, decide_two_way_kept}
use rasync.Reconcile.Converge.{Performed}

-- The entries of the two sides after some rounds, in each of which both do what they decide; the
-- baseline stays.
pub data After (o : ReconcileOptions) (b l r : Entry) : Entry → Entry → Type 0 where
  here : After o b l r l r
  round :
      {l₁ r₁ l₂ r₂ : Entry}
      → After o b l r l₁ r₁
      → Performed (decide_two_way l₁ r₁ b o).kind l₁ r₁ l₂
      → Performed (decide_two_way r₁ l₁ b (peer_options o)).kind r₁ l₁ r₂
      → After o b l r l₂ r₂

-- The side that deleted the file still has none and plans its deletion, and its peer still has it.
abbrev pub Stuck : ReconcileOptions → Entry → FileMeta → Entry → Entry → Type 0
Stuck o b r l' r' =
    (l' ≡ none) × (r' ≡ some r) × ((decide_two_way l' r' b o).kind ≡ DecisionKind.delete_remote)

one_round :
    (r b : FileMeta) (o : ReconcileOptions) (l₁ r₁ l₂ r₂ : Entry)
    → o.propagate_deletes ≡ false
    → same_content r b ≡ true
    → Stuck o (some b) r l₁ r₁
    → Performed (decide_two_way l₁ r₁ (some b) o).kind l₁ r₁ l₂
    → Performed (decide_two_way r₁ l₁ (some b) (peer_options o)).kind r₁ l₁ r₂
    → Stuck o (some b) r l₂ r₂
one_round r b o l₁ r₁ l₂ r₂ d s (gone, held, plans) p q =
    let kept = decide_two_way_kept r b o d s in
    let rest : (decide_two_way r₁ l₁ (some b) (peer_options o)).kind ≡ DecisionKind.nothing =
      rw (gone, held) kept.0 in
    let l_same : l₂ ≡ l₁ = subst (λ k. Performed k l₁ r₁ l₂) plans p in
    let r_same : r₂ ≡ r₁ = subst (λ k. Performed k r₁ l₁ r₂) rest q in
    (l_same ∙ gone, r_same ∙ held, rw (l_same, r_same) plans)

-- With `--no-delete` on both sides, where one side deleted a file that the other has left as it is in
-- the baseline: after any number of rounds, in which both do what they decide, the file is there on
-- the one side and not on the other, and the side that deleted it plans a remote deletion again.
pub decide_two_way-Stuck :
    (r b : FileMeta) (o : ReconcileOptions) (l' r' : Entry)
    → o.propagate_deletes ≡ false
    → same_content r b ≡ true
    → After o (some b) none (some r) l' r'
    → Stuck o (some b) r l' r'
decide_two_way-Stuck r b o l' r' d s here = (refl, refl, (decide_two_way_kept r b o d s).1)
decide_two_way-Stuck r b o l' r' d s (round {l₁} {r₁} a p q) =
    one_round r b o l₁ r₁ l' r' d s (decide_two_way-Stuck r b o l₁ r₁ d s a) p q
