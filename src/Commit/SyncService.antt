-- ===== src/Commit/SyncService.antt =====
-- transport/syncservice/committer.go: objects of the sync service are marked as consumed once they
-- are processed. The client of the service is a parameter that says which calls succeed.
use Prim.Native.String.{◌++◌ as str_append}
use multicluster_global_hub.Base.{
  ℕ, zero, suc, String, ◌≡◌, Bool, true, false, Option, none, some, List, [], ◌∷◌, if◌then◌else◌,
  ◌==◌, string_key, arith, get_elem?, Bool-cases, inl, inr,
}
use multicluster_global_hub.Base.Maps.{lookup, insert}

-- `bundleMetadata` with what is read of `client.ObjectMetaData`
pub record ObjectMetadata : Type 0 where
  pub object_id : String
  pub object_type : String
  pub version : String
  pub processed : Bool

abbrev key_of : ObjectMetadata → String
key_of m = str_append (str_append m.object_id ".") m.object_type

-- The loop of `commitMetadata` that collects the processed objects.
unfoldable pub processed_objects :
    List ObjectMetadata → List (String × ObjectMetadata) → List (String × ObjectMetadata)
processed_objects [] found = found
processed_objects (m ∷ ms) found =
    processed_objects ms (if m.processed then insert (key_of m) m found else found)

pub record Consumed : Type 0 where
  pub versions : List (String × String)
  pub requests : List ObjectMetadata
  pub failed : Bool

abbrev holds_version : String → Option String → Bool
holds_version v none = false
holds_version v (some w) = w == v

-- `commitObjectsMetadata`, in the order in which the map is gone through.
unfoldable pub commit_objects :
    (ObjectMetadata → Bool) → List (String × ObjectMetadata) → List (String × String) → Consumed
commit_objects accepts [] versions = record { versions = versions; requests = []; failed = false }
commit_objects accepts ((k, m) ∷ ms) versions =
    let skipped = commit_objects accepts ms versions in
    let rest = commit_objects accepts ms (insert k m.version versions) in
    if holds_version m.version (lookup k versions)
    then skipped
    else if accepts m
    then record rest { requests = m ∷ rest.requests }
    else record { versions = versions; requests = m ∷ []; failed = true }

-- One tick of `commitMetadata`.
unfoldable pub commit_metadata :
    (ObjectMetadata → Bool) → List ObjectMetadata → List (String × String) → Consumed
commit_metadata accepts ms versions = commit_objects accepts (processed_objects ms []) versions

abbrev IsProcessedMap : List (String × ObjectMetadata) → Type 0
IsProcessedMap [] = Unit
IsProcessedMap ((k, m) ∷ ms) = (m.processed ≡ true) × IsProcessedMap ms

insert-IsProcessedMap :
    (k : String) (m : ObjectMetadata) (found : List (String × ObjectMetadata))
    → m.processed ≡ true
    → IsProcessedMap found
    → IsProcessedMap (insert k m found)
insert-IsProcessedMap k m [] p q = (p, tt)
insert-IsProcessedMap k m ((j, n) ∷ found) p q =
    ground (arith, insert-IsProcessedMap k m found p q.1)

processed_objects-IsProcessedMap :
    (ms : List ObjectMetadata) (found : List (String × ObjectMetadata))
    → IsProcessedMap found
    → IsProcessedMap (processed_objects ms found)
unfolding processed_objects
processed_objects-IsProcessedMap [] found q = q
processed_objects-IsProcessedMap (m ∷ ms) found q = elim (Bool-cases m.processed) [
  | inl p ↦ simp p (
      processed_objects-IsProcessedMap ms (insert (key_of m) m found)
        (insert-IsProcessedMap (key_of m) m found p q))
  | inr p ↦ simp p (processed_objects-IsProcessedMap ms found q)
]

commit_objects_processed :
    (accepts : ObjectMetadata → Bool) (ms : List (String × ObjectMetadata))
    (versions : List (String × String)) (i : ℕ) (m : ObjectMetadata)
    → IsProcessedMap ms
    → get_elem? (commit_objects accepts ms versions).requests i ≡ some m
    → m.processed ≡ true
unfolding commit_objects
commit_objects_processed accepts [] versions i m q h = ground arith
commit_objects_processed accepts ((k, x) ∷ ms) versions zero m q h =
    ground (arith, commit_objects_processed accepts ms versions zero m q.1)
commit_objects_processed accepts ((k, x) ∷ ms) versions (suc i) m q h = ground (
  arith,
  commit_objects_processed accepts ms versions (suc i) m q.1,
  commit_objects_processed accepts ms (insert k x.version versions) i m q.1,
)

-- Only objects whose bundle was processed are marked as consumed.
pub commit_metadata_processed :
    (accepts : ObjectMetadata → Bool) (ms : List ObjectMetadata) (versions : List (String × String))
    (i : ℕ) (m : ObjectMetadata)
    → get_elem? (commit_metadata accepts ms versions).requests i ≡ some m
    → m.processed ≡ true
unfolding commit_metadata
commit_metadata_processed accepts ms versions i m h =
    commit_objects_processed accepts (processed_objects ms []) versions i m
      (processed_objects-IsProcessedMap ms [] tt) h
