-- ===== src/Router/Reports.antt =====
-- net/sync_router.cpp: what a peer can make the router remember and log.
use rasync.Prelude.{
  ℕ, suc, ◌≤◌, ◌≡◌, refl, arith, Bool, true, false, List, [], ◌∷◌, ◌==◌, none, some,
}
use rasync.Prelude.{Bool-cases, inl, inr, length, leb, not, ◌&&◌, ◌||◌}
use rasync.Prelude.Equality.{bytes_eq, bytes_eq_refl}
use rasync.Codec.Writer.{Bytes}
use rasync.Router.{Key, Router, report_unknown, seen, max_remembered, is_hello}

-- The messages for tags with no folder: who sent it, its tag, and its payload.
abbrev pub Strays : Type 0
Strays = List (Bytes × ℕ × Bytes)

abbrev pub report_all : Strays → Router → Router
report_all [] r = r
report_all ((from, tag, payload) ∷ rest) r = report_all rest (report_unknown from tag payload r).1

room : (n : ℕ) → leb max_remembered n ≡ false → suc n ≤ max_remembered
room n b = ground arith

report_unknown_bounded :
    (from : Bytes) (tag : ℕ) (payload : Bytes) (r : Router)
    → length r.unknown_seen ≤ max_remembered
    → length (report_unknown from tag payload r).1.unknown_seen ≤ max_remembered
unfolding report_unknown
report_unknown_bounded from tag payload r h = elim (Bool-cases (not (is_hello payload))) [
  | inl a ↦ rw (a, report_unknown) h
  | inr a ↦ elim (Bool-cases (leb max_remembered (length r.unknown_seen))) [
    | inl b ↦ rw (a, b, report_unknown) h
    | inr b ↦ elim (Bool-cases (seen (from, tag) r.unknown_seen)) [
      | inl c ↦ rw (a, b, c, report_unknown) h
      | inr c ↦ rw (a, b, c, report_unknown) (room (length r.unknown_seen) b)
    ]
  ]
]

-- Whatever peers send for folders that are not here, the router remembers no more than its limit.
pub report_all_bounded :
    (strays : Strays) (r : Router)
    → length r.unknown_seen ≤ max_remembered
    → length (report_all strays r).unknown_seen ≤ max_remembered
report_all_bounded [] r h = h
report_all_bounded ((from, tag, payload) ∷ rest) r h =
    report_all_bounded rest (report_unknown from tag payload r).1
      (report_unknown_bounded from tag payload r h)

or_right : (b c : Bool) → c ≡ true → (b || c) ≡ true
or_right b c h = ground (arith, h)

seen_more : (k j : Key) (ks : List Key) → seen k ks ≡ true → seen k (j ∷ ks) ≡ true
unfolding seen
seen_more (p, t) (q, u) ks h = or_right (bytes_eq p q && t == u) (seen (p, t) ks) h

report_unknown-seen :
    (k : Key) (from : Bytes) (tag : ℕ) (payload : Bytes) (r : Router)
    → seen k r.unknown_seen ≡ true
    → seen k (report_unknown from tag payload r).1.unknown_seen ≡ true
unfolding report_unknown
report_unknown-seen k from tag payload r h = elim (Bool-cases (not (is_hello payload))) [
  | inl a ↦ rw (a, report_unknown) h
  | inr a ↦ elim (Bool-cases (leb max_remembered (length r.unknown_seen))) [
    | inl b ↦ rw (a, b, report_unknown) h
    | inr b ↦ elim (Bool-cases (seen (from, tag) r.unknown_seen)) [
      | inl c ↦ rw (a, b, c, report_unknown) h
      | inr c ↦ rw (a, b, c, report_unknown) (seen_more k (from, tag) r.unknown_seen h)
    ]
  ]
]

report_all-seen :
    (strays : Strays) (k : Key) (r : Router)
    → seen k r.unknown_seen ≡ true
    → seen k (report_all strays r).unknown_seen ≡ true
report_all-seen [] k r h = h
report_all-seen ((from, tag, payload) ∷ rest) k r h =
    report_all-seen rest k (report_unknown from tag payload r).1
      (report_unknown-seen k from tag payload r h)

seen_self : (from : Bytes) (tag : ℕ) (ks : List Key) → seen (from, tag) ((from, tag) ∷ ks) ≡ true
unfolding seen
seen_self from tag ks = ground (arith, bytes_eq_refl from)

reported_seen :
    (from : Bytes) (tag : ℕ) (payload name : Bytes) (r : Router)
    → (report_unknown from tag payload r).0 ≡ some name
    → seen (from, tag) (report_unknown from tag payload r).1.unknown_seen ≡ true
unfolding report_unknown
reported_seen from tag payload name r h = elim (Bool-cases (not (is_hello payload))) [
  | inl a ↦ let n : none ≡ some name = (rw (a, report_unknown) at h) in cc
  | inr a ↦ elim (Bool-cases (leb max_remembered (length r.unknown_seen))) [
    | inl b ↦ let n : none ≡ some name = (rw (a, b, report_unknown) at h) in cc
    | inr b ↦ elim (Bool-cases (seen (from, tag) r.unknown_seen)) [
      | inl c ↦ let n : none ≡ some name = (rw (a, b, c, report_unknown) at h) in cc
      | inr c ↦ rw (a, b, c, report_unknown) (seen_self from tag r.unknown_seen)
    ]
  ]
]

silent :
    (from : Bytes) (tag : ℕ) (payload : Bytes) (r : Router)
    → seen (from, tag) r.unknown_seen ≡ true
    → (report_unknown from tag payload r).0 ≡ none
unfolding report_unknown
silent from tag payload r h = elim (Bool-cases (not (is_hello payload))) [
  | inl a ↦ rw (a, report_unknown) refl
  | inr a ↦ elim (Bool-cases (leb max_remembered (length r.unknown_seen))) [
    | inl b ↦ rw (a, b, report_unknown) refl
    | inr b ↦ rw (a, b, h, report_unknown) refl
  ]
]

-- Once a folder name was logged for a peer and a tag, no later message of that peer under that tag is
-- logged, whatever else arrives in between.
pub report_unknown_once :
    (from : Bytes) (tag : ℕ) (payload name : Bytes) (r : Router) (between : Strays) (again : Bytes)
    → (report_unknown from tag payload r).0 ≡ some name
    → (report_unknown from tag again (report_all between (report_unknown from tag payload r).1)).0
      ≡ none
report_unknown_once from tag payload name r between again h =
    let r' = (report_unknown from tag payload r).1 in
    silent from tag again (report_all between r')
      (report_all-seen between (from, tag) r' (reported_seen from tag payload name r h))
