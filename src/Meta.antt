-- ===== src/Meta.antt =====
-- core/file_meta.h: what is kept of a file.
use rasync.Prelude.{ℕ, ◌^◌, ◌<◌, ◌≡◌, arith, Bool, true, ◌&&◌, length, ◌==◌}
use rasync.Prelude.Int.{ℤ, IsI64}
use rasync.Prelude.Equality.{
  bytes_eq, bytes_eq→eq, bytes_eq_refl, bytes_eq_comm, eq_ℤ, eq_ℤ→eq, eq_ℤ_refl,
}
use rasync.Codec.Writer.{Bytes}

-- `hash` is the SHA-256 of the contents.
pub record FileMeta : Type 0 where
  pub size : ℕ
  pub mtime : ℤ
  pub mode : ℕ
  pub hash : Bytes

-- The values that the C++ types can hold.
pub record InRange (m : FileMeta) : Type 0 where
  pub size_fits : m.size < 2 ^ 64
  pub mtime_fits : IsI64 m.mtime
  pub mode_fits : m.mode < 2 ^ 32
  pub hash_fits : length m.hash ≡ 32

unfoldable pub same_content : FileMeta → FileMeta → Bool
same_content m o = m.size == o.size && bytes_eq m.hash o.hash

-- `operator==`
unfoldable pub meta_eq : FileMeta → FileMeta → Bool
meta_eq m o = m.size == o.size && eq_ℤ m.mtime o.mtime && m.mode == o.mode && bytes_eq m.hash o.hash

pub meta_eq→eq : (m o : FileMeta) → meta_eq m o ≡ true → m ≡ o
unfolding meta_eq
meta_eq→eq m o h = ground (arith, eq_ℤ→eq m.mtime o.mtime, bytes_eq→eq m.hash o.hash)

pub meta_eq_refl : (m : FileMeta) → meta_eq m m ≡ true
unfolding meta_eq
meta_eq_refl m = ground (arith, eq_ℤ_refl m.mtime, bytes_eq_refl m.hash)

pub same_content_refl : (m : FileMeta) → same_content m m ≡ true
unfolding same_content
same_content_refl m = ground (arith, bytes_eq_refl m.hash)

pub same_content_comm : (m o : FileMeta) → same_content m o ≡ same_content o m
unfolding same_content
same_content_comm m o = ground (arith, bytes_eq_comm m.hash o.hash)

pub same_content_trans :
    (l m n : FileMeta) → same_content l m ≡ true → same_content m n ≡ true → same_content l n ≡ true
unfolding same_content
same_content_trans l m n h k =
    ground (arith, bytes_eq→eq l.hash m.hash, bytes_eq→eq m.hash n.hash, bytes_eq_refl l.hash)
