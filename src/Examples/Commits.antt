-- ===== src/Examples/Commits.antt =====
-- What the committers of transport/kafka and transport/syncservice do on some metadata.
use multicluster_global_hub.Base.{
  nat_key, ℕ, String, ◌≡◌, refl, Bool, true, false, some, List, [], ◌∷◌, ◌≤◌, eqb, get_elem?,
}
use multicluster_global_hub.Commit.Kafka.{
  Metadata, offsets_to_commit, commit_offsets, note_metadata, note_all, increment,
  filter_metadata_per_partition, patch,
}
use multicluster_global_hub.Base.Maps.{lookup}
use multicluster_global_hub.Commit.Kafka.Offsets.{
  offsets_to_commit_safe, or_else, lowest_pending, after, highest_processed, offsets_to_commit_lem,
}
use multicluster_global_hub.Commit.Kafka.Commits.{IsAtLeast, commit_offsets-IsAtLeast}
use multicluster_global_hub.Commit.SyncService.{
  ObjectMetadata, commit_metadata, commit_metadata_processed, commit_objects, processed_objects,
}

abbrev consumed : List Metadata
consumed =
    record { partition = 0; offset = 7; processed = true }
    ∷ record { partition = 0; offset = 5; processed = false }
    ∷ record { partition = 1; offset = 3; processed = true }
    ∷ record { partition = 1; offset = 9; processed = true }
    ∷ []

abbrev bulk : List (ℕ × ℕ)
bulk = (0, 5) ∷ (1, 10) ∷ []

offsets : lookup 0 (offsets_to_commit consumed) ≡ some 5
unfolding offsets_to_commit note_metadata note_all increment filter_metadata_per_partition patch
offsets = refl

offsets_processed : lookup 1 (offsets_to_commit consumed) ≡ some 10
unfolding offsets_to_commit note_metadata note_all increment filter_metadata_per_partition patch
offsets_processed = refl

offsets_to_commit_lem_example :
    lookup 1 (offsets_to_commit consumed)
    ≡ or_else (lowest_pending 1 consumed) (after (highest_processed 1 consumed))
offsets_to_commit_lem_example = offsets_to_commit_lem 1 consumed

offsets_to_commit_safe_example : 5 ≤ 5
offsets_to_commit_safe_example =
    offsets_to_commit_safe 0 5 consumed 1 (record { partition = 0; offset = 5; processed = false })
      offsets refl refl refl

-- The client that refuses partition 1.
abbrev first_only : ℕ → ℕ → Bool
first_only p o = eqb p 0

commit_offsets-IsAtLeast_example :
    IsAtLeast (lookup 0 (commit_offsets first_only bulk ((0, 4) ∷ [])).commits) (some 4)
commit_offsets-IsAtLeast_example = commit_offsets-IsAtLeast first_only bulk ((0, 4) ∷ []) 0

abbrev object : String → Bool → ObjectMetadata
object version processed = record {
  object_id = "hub1.ManagedClusters";
  object_type = "StatusBundle";
  version = version;
  processed = processed;
}

abbrev objects : List ObjectMetadata
objects = object "3" true ∷ object "4" false ∷ []

marked : get_elem? (commit_metadata (λ _. true) objects []).requests 0 ≡ some (object "3" true)
unfolding commit_metadata commit_objects processed_objects
marked = refl

commit_metadata_processed_example : true ≡ true
commit_metadata_processed_example =
    commit_metadata_processed (λ _. true) objects [] 0 (object "3" true) marked
