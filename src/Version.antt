-- ===== src/Version.antt =====
-- crates/stroma-core/src/version.rs: the version vector of a read and its order.
-- `new` gives `none` where the program's debug assertion panics.
pub mod Lattice
use stromadb.Base.{ℕ, ◌-◌, Bool, ◌&&◌, ◌||◌, Option, none, some}
use stromadb.Base.Tests.{if◌then◌else◌, leb}

pub record VersionVector : Type 0 where
  pub changelog_seqno : ℕ
  pub vector_watermark : ℕ

-- `VersionVector::new`
unfoldable pub new_vector : ℕ → ℕ → Option VersionVector
new_vector seqno watermark =
    if leb watermark seqno
    then some (record { changelog_seqno = seqno; vector_watermark = watermark })
    else none

unfoldable pub dominates : VersionVector → VersionVector → Bool
dominates a b = leb b.changelog_seqno a.changelog_seqno && leb b.vector_watermark a.vector_watermark

unfoldable pub comparable : VersionVector → VersionVector → Bool
unfolding dominates
comparable a b = dominates a b || dominates b a

-- A subtraction of words, a panic where it would go below zero.
abbrev pub skew : VersionVector → Option ℕ
skew v =
    if leb v.vector_watermark v.changelog_seqno
    then some (v.changelog_seqno - v.vector_watermark)
    else none

pub data ReadMode : Type 0 where
  strict : ReadMode
  fresh : ReadMode
