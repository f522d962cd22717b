-- ===== src/Manifest/Fingerprint.antt =====
-- core/manifest.cpp: `Manifest::fingerprint`.
use rasync.Prelude.{[], ◌∷◌, ◌++◌}
use rasync.Codec.Writer.{Bytes, be_bytes}
use rasync.Manifest.{Manifest}

-- The bytes that are hashed: of each entry the path, the size, the mode and the content's digest.
unfoldable pub hashed_bytes : Manifest → Bytes
hashed_bytes [] = []
hashed_bytes ((path, m) ∷ rest) =
    path ++ (be_bytes 8 m.size ++ (be_bytes 4 m.mode ++ (m.hash ++ hashed_bytes rest)))

-- `sha256` is librats code.
unfoldable pub fingerprint : (Bytes → Bytes) → Manifest → Bytes
unfolding hashed_bytes
fingerprint sha256 m = sha256 (hashed_bytes m)
