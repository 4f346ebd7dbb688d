-- ===== src/Examples/Units.antt =====
-- Conflation units at work: bundles arrive, are handed out and are reported.
use multicluster_global_hub.Base.{
  ℕ, zero, suc, ◌≡◌, some, arith, inl, inr, string_key, Bool-cases, ◌==◌, get_elem?, ◌<◌,
}
use multicluster_global_hub.Conflation.Units.{priority_of, ConflationElement}
use multicluster_global_hub.Version.{BundleVersion}
use multicluster_global_hub.Conflation.Units.Termination.{IsLayered}
use multicluster_global_hub.Examples.Data.{unit_at, cpp, complete_status, delta_status, on}
use multicluster_global_hub.Compliance.Bundles.{Bundle}
use multicluster_global_hub.Conflation.Bundles.{Dependency}
use multicluster_global_hub.Conflation.Units.Soundness.{IsSoundElement, IsSound}

unit_at-descends :
    (a b c : BundleVersion) (p : ℕ) (e : ConflationElement Bundle) (d : Dependency)
    → get_elem? (unit_at a b c).priority_queue p ≡ some e
    → e.dependency ≡ some d
    → priority_of (unit_at a b c) d.bundle_type < p
unfolding priority_of
unit_at-descends a b c zero e d f g = ground (arith, f, g)
unit_at-descends a b c (suc zero) e d f g =
    let at : d ≡ on cpp = ground (arith, f, g) in rw at (omega arith)
unit_at-descends a b c (suc (suc zero)) e d f g =
    let at : d ≡ on complete_status = ground (arith, f, g) in rw at (omega arith)
unit_at-descends a b c (suc (suc (suc p))) e d f g = ground (arith, f, g)

-- A fresh unit is sound, whatever was processed last.
unit_at-IsLayered : (a b c : BundleVersion) → IsLayered (unit_at a b c)
unfolding priority_of
unit_at-IsLayered a b c = record {
  in_range = λ type. elim (Bool-cases (cpp == type)) [
    | inl e ↦ ground (arith, e)
    | inr e ↦ elim (Bool-cases (complete_status == type)) [
      | inl f ↦ ground (arith, e, f)
      | inr f ↦ elim (Bool-cases (delta_status == type)) [
        | inl g ↦ ground (arith, e, f, g)
        | inr g ↦ ground (arith, e, f, g)
      ]
    ]
  ];
  descends = λ p e d f g. unit_at-descends a b c p e d f g;
}

unit_at-elements :
    (a b c : BundleVersion) (p : ℕ) (e : ConflationElement Bundle)
    → get_elem? (unit_at a b c).priority_queue p ≡ some e
    → IsSoundElement e
unit_at-elements a b c zero e f = ground (arith, f)
unit_at-elements a b c (suc zero) e f = ground (arith, f)
unit_at-elements a b c (suc (suc zero)) e f = ground (arith, f)
unit_at-elements a b c (suc (suc (suc p))) e f = ground (arith, f)

pub unit_at-IsSound : (a b c : BundleVersion) → IsSound (unit_at a b c)
unit_at-IsSound a b c = record {
  layered = unit_at-IsLayered a b c;
  elements = unit_at-elements a b c;
}
