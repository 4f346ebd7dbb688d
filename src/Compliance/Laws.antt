-- ===== src/Compliance/Laws.antt =====
-- delta_compliance_status_bundle.go and helpers.go: the sets of one policy.
use multicluster_global_hub.Base.{
  String, ◌≡◌, refl, ◌&&◌, ◌||◌, not, List, [], ◌∷◌, arith, ==_iff, string_key, Bool-cases, inl,
  inr,
}
use multicluster_global_hub.Compliance.{
  SetApi, PolicyCompliance, PolicyStatus, member, add_all, create_set, status_contains,
  append_compliant, append_non_compliant, append_unknown, append_new_clusters,
}

module _ (sets : SetApi) where
  open sets use {
    StringSet, new_set, add, contains, items, contains-new_set, contains-add, member-items,
  }

  contains-add_all :
      (c : String) (xs : List String) (s : StringSet)
      → contains (add_all sets xs s) c ≡ (member c xs || contains s c)
  unfolding add_all
  contains-add_all c [] s = refl
  contains-add_all c (x ∷ xs) s =
      ground (arith, contains-add_all c xs (add x s), contains-add x c s)

  pub contains-create_set :
      (c : String) (xs : List String) → contains (create_set sets xs) c ≡ member c xs
  unfolding create_set
  contains-create_set c xs = ground (arith, contains-add_all c xs new_set, contains-new_set c)

  -- What one loop of `appendNewClusters` does to the sets.
  append_compliant_lem :
      (c : String) (cs : List String) (ps : PolicyStatus sets)
      → let r = append_compliant sets cs ps in
        (contains r.compliant c
          ≡ (contains ps.compliant c || (not (status_contains sets ps c) && member c cs)))
        × (r.non_compliant ≡ ps.non_compliant)
        × (r.unknown ≡ ps.unknown)
  unfolding append_compliant
  append_compliant_lem c [] ps = ground arith
  append_compliant_lem c (x ∷ cs) ps = elim (Bool-cases (status_contains sets ps x)) [
    | inl known ↦
        let ih = append_compliant_lem c cs ps in
        (
          ground (arith, known, ih, ==_iff x c),
          ground (arith, known, ih),
          ground (arith, known, ih),
        )
    | inr new ↦
        let ih = append_compliant_lem c cs (record ps { compliant = add x ps.compliant }) in
        let k = contains-add x c ps.compliant in
        (ground (arith, new, ih, ==_iff x c, k), ground (arith, new, ih), ground (arith, new, ih))
  ]

  append_non_compliant_lem :
      (c : String) (cs : List String) (ps : PolicyStatus sets)
      → let r = append_non_compliant sets cs ps in
        (contains r.non_compliant c
          ≡ (contains ps.non_compliant c || (not (status_contains sets ps c) && member c cs)))
        × (r.compliant ≡ ps.compliant)
        × (r.unknown ≡ ps.unknown)
  unfolding append_non_compliant
  append_non_compliant_lem c [] ps = ground arith
  append_non_compliant_lem c (x ∷ cs) ps = elim (Bool-cases (status_contains sets ps x)) [
    | inl known ↦
        let ih = append_non_compliant_lem c cs ps in
        (
          ground (arith, known, ih, ==_iff x c),
          ground (arith, known, ih),
          ground (arith, known, ih),
        )
    | inr new ↦
        let ih =
          append_non_compliant_lem c cs (record ps { non_compliant = add x ps.non_compliant }) in
        let k = contains-add x c ps.non_compliant in
        (ground (arith, new, ih, ==_iff x c, k), ground (arith, new, ih), ground (arith, new, ih))
  ]

  append_unknown_lem :
      (c : String) (cs : List String) (ps : PolicyStatus sets)
      → let r = append_unknown sets cs ps in
        (contains r.unknown c
          ≡ (contains ps.unknown c || (not (status_contains sets ps c) && member c cs)))
        × (r.compliant ≡ ps.compliant)
        × (r.non_compliant ≡ ps.non_compliant)
  unfolding append_unknown
  append_unknown_lem c [] ps = ground arith
  append_unknown_lem c (x ∷ cs) ps = elim (Bool-cases (status_contains sets ps x)) [
    | inl known ↦
        let ih = append_unknown_lem c cs ps in
        (
          ground (arith, known, ih, ==_iff x c),
          ground (arith, known, ih),
          ground (arith, known, ih),
        )
    | inr new ↦
        let ih = append_unknown_lem c cs (record ps { unknown = add x ps.unknown }) in
        let k = contains-add x c ps.unknown in
        (ground (arith, new, ih, ==_iff x c, k), ground (arith, new, ih), ground (arith, new, ih))
  ]

  -- The receiver is the source of truth: a cluster that it knows keeps its status, and one that it
  -- does not know gets the first status that the old policy lists it under.
  pub record Inherits (old : PolicyCompliance) (c : String) (ps r : PolicyStatus sets)
      : Type 0 where
    pub compliant :
        contains r.compliant c
        ≡ (contains ps.compliant c || (not (status_contains sets ps c) && member c old.compliant))
    pub non_compliant : contains r.non_compliant c ≡ (
        contains ps.non_compliant c
        || (not (status_contains sets ps c || member c old.compliant)
            && member c old.non_compliant))
    pub unknown : contains r.unknown c ≡ (
        contains ps.unknown c
        || (not (status_contains sets ps c || member c old.compliant || member c old.non_compliant)
            && member c old.unknown))

  -- Each cluster of an old policy that the newer one lists nowhere is added to the first of the three
  -- sets that the old policy lists it under; nothing else is added, and nothing is removed.
  pub append_new_clusters-Inherits :
      (old : PolicyCompliance) (c : String) (ps : PolicyStatus sets)
      → Inherits old c ps (append_new_clusters sets old ps)
  unfolding append_new_clusters status_contains
  append_new_clusters-Inherits old c ps =
      let one = append_compliant sets old.compliant ps in
      let two = append_non_compliant sets old.non_compliant one in
      let a = append_compliant_lem c old.compliant ps in
      let b = append_non_compliant_lem c old.non_compliant one in
      let d = append_unknown_lem c old.unknown two in
      record {
        compliant = ground (arith, a, b, d);
        non_compliant = ground (arith, a, b, d);
        unknown = ground (arith, a, b, d);
      }
