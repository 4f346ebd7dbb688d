-- ===== src/Commit/Kafka.antt =====
-- transport/kafka/committer.go and bundle_metadata.go. Partitions and offsets of consumed messages
-- are not negative, and are numbers here; a Go map is an association list. The Kafka client is a
-- parameter that says which commits succeed.
pub mod Offsets
pub mod Commits
use multicluster_global_hub.Base.{
  ℕ, suc, Bool, true, false, ◌&&◌, not, Option, none, some, List, [], ◌∷◌, ◌++◌, if◌then◌else◌, leb,
  nat_key,
}
use multicluster_global_hub.Base.Maps.{lookup, insert}

-- `bundleMetadata`
pub record Metadata : Type 0 where
  pub partition : ℕ
  pub offset : ℕ
  pub processed : Bool

-- The maps from partitions to the lowest pending and to the highest processed offset.
pub record OffsetMaps : Type 0 where
  pub pending : List (ℕ × ℕ)
  pub processed : List (ℕ × ℕ)

abbrev found_and : (ℕ → Bool) → Option ℕ → Bool
found_and test none = false
found_and test (some n) = test n

-- The body of the loop in `filterMetadataPerPartition`.
unfoldable pub note_metadata : Metadata → OffsetMaps → OffsetMaps
note_metadata m o =
    if not m.processed
    then if found_and (λ lowest. leb lowest m.offset) (lookup m.partition o.pending)
      then o
      else record o { pending = insert m.partition m.offset o.pending }
    else if found_and (λ highest. leb m.offset highest) (lookup m.partition o.processed)
    then o
    else record o { processed = insert m.partition m.offset o.processed }

unfoldable pub note_all : List Metadata → OffsetMaps → OffsetMaps
note_all [] o = o
note_all (m ∷ ms) o = note_all ms (note_metadata m o)

-- The second loop: the offset after the highest one that was processed.
unfoldable pub increment : List (ℕ × ℕ) → List (ℕ × ℕ)
increment [] = []
increment ((p, o) ∷ os) = (p, suc o) ∷ increment os

unfoldable pub filter_metadata_per_partition : List Metadata → OffsetMaps
filter_metadata_per_partition ms =
    let o = note_all ms (record { pending = []; processed = [] }) in
    record o { processed = increment o.processed }

-- The patch in `periodicCommit`: pending offsets win. The keys of a map are distinct, so the order
-- of the writes does not matter.
unfoldable pub patch : List (ℕ × ℕ) → List (ℕ × ℕ) → List (ℕ × ℕ)
patch [] os = os
patch ((p, o) ∷ pending) os = insert p o (patch pending os)

unfoldable pub offsets_to_commit : List Metadata → List (ℕ × ℕ)
offsets_to_commit ms = let o = filter_metadata_per_partition ms in patch o.pending o.processed

-- What `commitOffsets` leaves: the commits map, the requests that were made, and whether the bulk
-- stopped with an error.
pub record Committed : Type 0 where
  pub commits : List (ℕ × ℕ)
  pub requests : List (ℕ × ℕ)
  pub failed : Bool

-- `commitOffsets`, in the order in which the map is gone through.
unfoldable pub commit_offsets : (ℕ → ℕ → Bool) → List (ℕ × ℕ) → List (ℕ × ℕ) → Committed
commit_offsets accepts [] commits = record { commits = commits; requests = []; failed = false }
commit_offsets accepts ((p, o) ∷ os) commits =
    let skipped = commit_offsets accepts os commits in
    let rest = commit_offsets accepts os (insert p o commits) in
    if found_and (λ committed. leb o committed) (lookup p commits)
    then skipped
    else if accepts p o
    then record rest { requests = (p, o) ∷ rest.requests }
    else record { commits = commits; requests = (p, o) ∷ []; failed = true }
