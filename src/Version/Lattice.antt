-- ===== src/Version/Lattice.antt =====
-- crates/stroma-core/src/version.rs: dominance as an order.
use stromadb.Base.{◌≤◌, ◌≡◌, arith, true}
use stromadb.Version.{VersionVector, dominates}

record Over (a b : VersionVector) : Type 0 where
  pub seqno : b.changelog_seqno ≤ a.changelog_seqno
  pub watermark : b.vector_watermark ≤ a.vector_watermark

dominates-Over : (a b : VersionVector) → dominates a b ≡ true → Over a b
unfolding dominates
dominates-Over a b h = record { seqno = ground arith; watermark = ground arith }

Over-dominates : (a b : VersionVector) → Over a b → dominates a b ≡ true
unfolding dominates
Over-dominates a b h = ground (arith, h.seqno, h.watermark)

-- Dominance is reflexive, transitive and, between two vectors that dominate each other, equality.
pub dominates-IsOrder :
    (a b c : VersionVector)
    → (dominates a a ≡ true)
      × (dominates a b ≡ true → dominates b c ≡ true → dominates a c ≡ true)
      × (dominates a b ≡ true → dominates b a ≡ true → a ≡ b)
dominates-IsOrder a b c = (
  Over-dominates a a (record { seqno = omega arith; watermark = omega arith }),
  λ p q.
      let x = dominates-Over a b p in
      let y = dominates-Over b c q in
      Over-dominates a c (record {
        seqno = omega (arith, x.seqno, y.seqno);
        watermark = omega (arith, x.watermark, y.watermark);
      }),
  λ p q.
      let x = dominates-Over a b p in
      let y = dominates-Over b a q in
      let seqno : a.changelog_seqno ≡ b.changelog_seqno = omega (arith, x.seqno, y.seqno) in
      let watermark : a.vector_watermark ≡ b.vector_watermark =
        omega (arith, x.watermark, y.watermark) in
      λ i. record { changelog_seqno = seqno i; vector_watermark = watermark i },
)
