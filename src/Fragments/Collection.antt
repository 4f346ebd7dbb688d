-- ===== src/Fragments/Collection.antt =====
-- pkg/kafka/kafka-consumer/message_fragment_collection.go. The lock makes each method one step.
use multicluster_global_hub.Base.{
  ◌>>=◌, ◌||◌, ℕ, Option, none, some, List, [], ◌∷◌, ◌++◌, ◌+◌, if◌then◌else◌, ltb, leb, eqb,
  length, take, drop, replicate, is_some, Result, ok, err, nat_key,
}
use multicluster_global_hub.Base.Maps.{lookup, insert}
use multicluster_global_hub.Fragments.{
  Message, MessageFragment, MessageFragmentInfo, uint32, offset_leb, offset_eq,
}

-- `messageFragmentsCollection`
pub record FragmentsCollection : Type 0 where
  pub total_size : ℕ
  pub accumulated_size : ℕ
  pub timestamp : ℕ
  pub fragments : List (ℕ × MessageFragment)
  pub latest_message : Option Message
  pub highest_offset : Option ℕ
  pub lowest_offset : Option ℕ

pub data AssembleError : Type 0 where
  fragments_are_incomplete : AssembleError

-- `newMessageFragmentsCollection`
unfoldable pub new_collection : ℕ → ℕ → FragmentsCollection
new_collection size timestamp = record {
  total_size = size;
  accumulated_size = 0;
  timestamp = timestamp;
  fragments = [];
  latest_message = none;
  highest_offset = some 0;
  lowest_offset = none;
}

-- `add`
unfoldable pub add_fragment : MessageFragmentInfo → FragmentsCollection → FragmentsCollection
add_fragment f c =
    let size = length f.fragment.bytes in
    let latest = offset_leb c.highest_offset f.message.offset in
    if ltb c.total_size (uint32 (f.fragment.offset + uint32 size))
      || is_some (lookup f.fragment.offset c.fragments)
    then c
    else record c {
      fragments = insert f.fragment.offset f.fragment c.fragments;
      accumulated_size = uint32 (c.accumulated_size + uint32 size);
      latest_message = if latest then some f.message else c.latest_message;
      highest_offset = if latest then f.message.offset else c.highest_offset;
      lowest_offset =
          if offset_eq c.lowest_offset none || offset_leb f.message.offset c.lowest_offset
          then f.message.offset
          else c.lowest_offset;
    }

-- `copy(buffer[offset:], bytes)`: an offset past the end panics, and what does not fit is left out.
unfoldable pub copy_at : ℕ → List ℕ → List ℕ → Option (List ℕ)
copy_at offset bytes buffer =
    if leb offset (length buffer)
    then some
        (take (length buffer) (take offset buffer ++ bytes ++ drop (offset + length bytes) buffer))
    else none

unfoldable pub copy_all : List (ℕ × MessageFragment) → List ℕ → Option (List ℕ)
unfolding copy_at
copy_all [] buffer = some buffer
copy_all ((offset, f) ∷ fs) buffer = do next ← copy_at offset f.bytes buffer; copy_all fs next

-- `assemble`; what it drops of the fragments is not used again.
unfoldable pub assemble : FragmentsCollection → Option (Result AssembleError (List ℕ))
unfolding copy_all
assemble c =
    if eqb c.total_size c.accumulated_size
    then (do buffer ← copy_all c.fragments (replicate c.total_size 0); some (ok buffer))
    else some (err fragments_are_incomplete)
