-- ===== src/Commit/Kafka/Offsets.antt =====
-- transport/kafka/committer.go: which offset of a partition is committed.
use multicluster_global_hub.Base.{
  ℕ, zero, suc, ◌≤◌, ◌≡◌, refl, false, ◌&&◌, not, Option, none, some, List, [], ◌∷◌, if◌then◌else◌,
  leb, eqb, eqb_iff, arith, nat_key, ◌∙◌, ap, ap₂, get_elem?,
}
use multicluster_global_hub.Base.Maps.{lookup, lookup-insert}
use multicluster_global_hub.Commit.Kafka.{
  Metadata, OffsetMaps, note_metadata, note_all, increment, filter_metadata_per_partition, patch,
  offsets_to_commit,
}

abbrev lower : Option ℕ → Option ℕ → Option ℕ
lower none b = b
lower (some a) none = some a
lower (some a) (some b) = some (if leb a b then a else b)

abbrev higher : Option ℕ → Option ℕ → Option ℕ
higher none b = b
higher (some a) none = some a
higher (some a) (some b) = some (if leb b a then a else b)

-- The specification: the lowest offset of a pending bundle on a partition, and the highest of a
-- processed one.
abbrev pub lowest_pending : ℕ → List Metadata → Option ℕ
lowest_pending p [] = none
lowest_pending p (m ∷ ms) =
    lower (if not m.processed && eqb m.partition p then some m.offset else none)
      (lowest_pending p ms)

abbrev pub highest_processed : ℕ → List Metadata → Option ℕ
highest_processed p [] = none
highest_processed p (m ∷ ms) =
    higher (if m.processed && eqb m.partition p then some m.offset else none)
      (highest_processed p ms)

lower_assoc : (a b c : Option ℕ) → lower (lower a b) c ≡ lower a (lower b c)
lower_assoc a b c = ground arith

higher_assoc : (a b c : Option ℕ) → higher (higher a b) c ≡ higher a (higher b c)
higher_assoc a b c = ground arith

note_metadata-lookup :
    (p : ℕ) (m : Metadata) (o : OffsetMaps)
    → (lookup p (note_metadata m o).pending
        ≡ lower
            (lookup p o.pending)
            (if not m.processed && eqb m.partition p then some m.offset else none))
      × (lookup p (note_metadata m o).processed
          ≡ higher
              (lookup p o.processed)
              (if m.processed && eqb m.partition p then some m.offset else none))
unfolding note_metadata
note_metadata-lookup p m o = ground (
  arith,
  eqb_iff m.partition p,
  lookup-insert m.partition p m.offset o.pending,
  lookup-insert m.partition p m.offset o.processed,
)

note_all-lookup :
    (p : ℕ) (ms : List Metadata) (o : OffsetMaps)
    → (lookup p (note_all ms o).pending ≡ lower (lookup p o.pending) (lowest_pending p ms))
      × (lookup p (note_all ms o).processed
          ≡ higher (lookup p o.processed) (highest_processed p ms))
unfolding note_all
note_all-lookup p [] o = ground arith
note_all-lookup p (m ∷ ms) o =
    let step = note_metadata-lookup p m o in
    let rest = note_all-lookup p ms (note_metadata m o) in
    (
      rest.0
          ∙ ap (λ x. lower x (lowest_pending p ms)) step.0
          ∙ lower_assoc (lookup p o.pending) _ (lowest_pending p ms),
      rest.1
          ∙ ap (λ x. higher x (highest_processed p ms)) step.1
          ∙ higher_assoc (lookup p o.processed) _ (highest_processed p ms),
    )

abbrev pub after : Option ℕ → Option ℕ
after none = none
after (some n) = some (suc n)

increment-lookup : (p : ℕ) (os : List (ℕ × ℕ)) → lookup p (increment os) ≡ after (lookup p os)
unfolding increment
increment-lookup p [] = refl
increment-lookup p ((q, o) ∷ os) = ground (arith, increment-lookup p os)

abbrev pub or_else : Option ℕ → Option ℕ → Option ℕ
or_else none b = b
or_else (some a) b = some a

patch-lookup :
    (p : ℕ) (pending os : List (ℕ × ℕ))
    → lookup p (patch pending os) ≡ or_else (lookup p pending) (lookup p os)
unfolding patch
patch-lookup p [] os = refl
patch-lookup p ((q, o) ∷ pending) os =
    ground (arith, lookup-insert q p o (patch pending os), patch-lookup p pending os)

-- The offset that is committed for a partition: the lowest offset of its pending bundles if there
-- are any, otherwise the offset after the highest one of its processed bundles, and none if no
-- bundle came from the partition.
pub offsets_to_commit_lem :
    (p : ℕ) (ms : List Metadata)
    → lookup p (offsets_to_commit ms)
      ≡ or_else (lowest_pending p ms) (after (highest_processed p ms))
unfolding offsets_to_commit filter_metadata_per_partition
offsets_to_commit_lem p ms =
    let start : OffsetMaps = record { pending = []; processed = [] } in
    let o = note_all ms start in
    let k = note_all-lookup p ms start in
    patch-lookup p o.pending (increment o.processed)
    ∙ ap₂ or_else k.0 (increment-lookup p o.processed ∙ ap after k.1)

lower-le-left : (a : ℕ) (b : Option ℕ) → (lo : ℕ) × (lower (some a) b ≡ some lo) × (lo ≤ a)
lower-le-left a none = (a, refl, omega arith)
lower-le-left a (some b) = ((if leb a b then a else b), refl, ground arith)

lower-le-right : (a : Option ℕ) (b : ℕ) → (lo : ℕ) × (lower a (some b) ≡ some lo) × (lo ≤ b)
lower-le-right none b = (b, refl, omega arith)
lower-le-right (some a) b = ((if leb a b then a else b), refl, ground arith)

lowest_pending-le :
    (p : ℕ) (ms : List Metadata) (i : ℕ) (m : Metadata)
    → get_elem? ms i ≡ some m
    → m.processed ≡ false
    → m.partition ≡ p
    → (lo : ℕ) × (lowest_pending p ms ≡ some lo) × (lo ≤ m.offset)
lowest_pending-le p [] i m g f e = ground arith
lowest_pending-le p (x ∷ ms) zero m g f e =
    let (lo, k, le) = lower-le-left m.offset (lowest_pending p ms) in (lo, ground (arith, k), le)
lowest_pending-le p (x ∷ ms) (suc i) m g f e =
    let (lo, k, le) = lowest_pending-le p ms i m g f e in
    let head = if not x.processed && eqb x.partition p then some x.offset else none in
    let (lo', k', le') = lower-le-right head lo in (lo', ground (arith, k, k'), omega arith)

-- No commit passes a bundle that is still pending: the offset to commit for a partition is at most
-- the offset of each bundle from it that is not processed.
pub offsets_to_commit_safe :
    (p o : ℕ) (ms : List Metadata) (i : ℕ) (m : Metadata)
    → lookup p (offsets_to_commit ms) ≡ some o
    → get_elem? ms i ≡ some m
    → m.processed ≡ false
    → m.partition ≡ p
    → o ≤ m.offset
offsets_to_commit_safe p o ms i m h g f e =
    let (lo, k, le) = lowest_pending-le p ms i m g f e in
    ground (arith, offsets_to_commit_lem p ms, k, le)
