-- ===== src/Conflation/Heap.antt =====
-- The objects that the conflator, the database workers and the committers share by pointers: the
-- `BundleMetadata` of bundle_metadata.go, and the `processed` flags of the transport metadata
-- (transport/bundle_metadata.go). A pointer is a number; `next` is the next free address.
use multicluster_global_hub.Base.{ℕ, suc, String, Bool, true, Option, eqb, if◌then◌else◌}
use multicluster_global_hub.Version.{BundleVersion}

pub record BundleMetadata : Type 0 where
  pub bundle_type : String
  pub bundle_version : BundleVersion
  -- `transportBundleMetadata`, an interface value that may be nil
  pub transport : Option ℕ

pub record Heap : Type 0 where
  pub next : ℕ
  pub cell : ℕ → BundleMetadata
  pub processed : ℕ → Bool

abbrev update {ℓ} : {A : Type ℓ} → (ℕ → A) → ℕ → A → ℕ → A
update f p v q = if eqb p q then v else f q

-- `&BundleMetadata{…}`: the new object's address, and the heap with it.
abbrev pub alloc : BundleMetadata → Heap → ℕ × Heap
alloc m h = (h.next, record h { next = suc h.next; cell = update h.cell h.next m })

-- An assignment to fields of the object at an address.
abbrev pub write : ℕ → BundleMetadata → Heap → Heap
write p m h = record h { cell = update h.cell p m }

-- `MarkAsProcessed` of a transport metadata
abbrev pub mark_as_processed : ℕ → Heap → Heap
mark_as_processed t h = record h { processed = update h.processed t true }
