-- ===== src/Version.antt =====
-- pkg/bundle/status/bundle_version.go: versions of status bundles, ordered by the incarnation of
-- the sender and then by the generation of the bundle. A `*BundleVersion` that may be nil is an
-- `Option`; both counters are uint64 and are only compared here.
use multicluster_global_hub.Base.{
  ℕ, ◌≡◌, Bool, true, false, ◌&&◌, Option, none, some, ◌⊎◌, arith, ltb, eqb, if◌then◌else◌, not,
  ◌↔◌,
}

pub record BundleVersion : Type 0 where
  pub incarnation : ℕ
  pub generation : ℕ

unfoldable pub newer_than : BundleVersion → Option BundleVersion → Bool
newer_than v none = true
newer_than v (some w) =
    if eqb v.incarnation w.incarnation
    then ltb w.generation v.generation
    else ltb w.incarnation v.incarnation

unfoldable pub equals : BundleVersion → BundleVersion → Bool
equals v w = eqb v.incarnation w.incarnation && eqb v.generation w.generation

-- `noBundleVersion` of the conflation unit
unfoldable pub no_bundle_version : BundleVersion
no_bundle_version = record { incarnation = 0; generation = 0 }

-- What a comparison by `newer_than` promises: a strict order in which any two versions compare.
pub record IsStrictOrder (newer : BundleVersion → BundleVersion → Bool) : Type 0 where
  pub irreflexive : (v : BundleVersion) → newer v v ≡ false
  pub transitive : (u v w : BundleVersion) → newer u v ≡ true → newer v w ≡ true → newer u w ≡ true
  pub trichotomous : (v w : BundleVersion) → (newer v w ≡ true) ⊎ (v ≡ w) ⊎ (newer w v ≡ true)

pub equals→eq : (v w : BundleVersion) → equals v w ≡ true → v ≡ w
unfolding equals
equals→eq v w h = ground arith

equals_self : (v : BundleVersion) → equals v v ≡ true
unfolding equals
equals_self v = ground arith

pub newer_than_irrefl : (v : BundleVersion) → newer_than v (some v) ≡ false
unfolding newer_than
newer_than_irrefl v = ground arith

newer_than_trans :
    (u v w : BundleVersion)
    → newer_than u (some v) ≡ true
    → newer_than v (some w) ≡ true
    → newer_than u (some w) ≡ true
unfolding newer_than
newer_than_trans u v w p q = ground arith

newer_than_cases :
    (v w : BundleVersion)
    → (newer_than v (some w) ≡ true) ⊎ (v ≡ w) ⊎ (newer_than w (some v) ≡ true)
unfolding newer_than
newer_than_cases v w = ground arith

-- `NewerThan` between two versions is a strict order in which any two distinct versions compare:
-- irreflexive, transitive and trichotomous.
newer_than-IsStrictOrder : IsStrictOrder (λ v w. newer_than v (some w))
newer_than-IsStrictOrder = record {
  irreflexive = newer_than_irrefl;
  transitive = newer_than_trans;
  trichotomous = newer_than_cases;
}

eq→equals : (v w : BundleVersion) → v ≡ w → equals v w ≡ true
unfolding equals
eq→equals v w e = rw e (equals_self w)

-- `Equals` holds of two versions exactly if they are one version, and exactly if neither is newer
-- than the other.
pub equals_iff_neither_newer :
    (v w : BundleVersion)
    → ((equals v w ≡ true) ↔ (v ≡ w))
      × (equals v w ≡ (not (newer_than v (some w)) && not (newer_than w (some v))))
unfolding equals newer_than
equals_iff_neither_newer v w = ((equals→eq v w, eq→equals v w), ground arith)
