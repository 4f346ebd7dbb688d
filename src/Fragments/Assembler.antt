-- ===== src/Fragments/Assembler.antt =====
-- pkg/kafka/kafka-consumer: kafka_message_assembler.go, and the handling of a polled message in
-- kafka_consumer.go. A collection is reached through the map alone, so a write through its pointer
-- is a write to the map.
use multicluster_global_hub.Base.{
  ◌>>=◌, ℕ, String, Option, none, some, List, [], ◌∷◌, if◌then◌else◌, ltb, eqb, Result, ok, err,
  nat_key, string_key, not,
}
use multicluster_global_hub.Base.Maps.{lookup, insert, erase}
use multicluster_global_hub.Fragments.{
  Message, MessageFragment, MessageFragmentInfo, offset_leb, offset_eq, TimeFormat,
}
use multicluster_global_hub.Fragments.Collection.{
  FragmentsCollection, new_collection, add_fragment, assemble,
}
use multicluster_global_hub.Fragments.Bytes.{lookup_header, read_uint32}

-- `kafkaMessageAssembler`
pub record Assembler : Type 0 where
  pub collections : List (ℕ × List (String × FragmentsCollection))
  pub lowest_offsets : List (ℕ × Option ℕ)

abbrev or_empty : {A : Type 0} → Option (List A) → List A
or_empty none = []
or_empty (some xs) = xs

-- `partitionToFragmentCollectionMap[partition]`
unfoldable pub collections_of : ℕ → Assembler → List (String × FragmentsCollection)
collections_of p a = or_empty (lookup p a.collections)

-- `math.MaxInt64`
abbrev max_int64 : ℕ
max_int64 = 9223372036854775807

-- The loop of `findLowestOffsetOnPartition`.
unfoldable pub lowest_of : List (String × FragmentsCollection) → Option ℕ → Option ℕ
lowest_of [] lowest = lowest
lowest_of ((k, c) ∷ cs) lowest =
    lowest_of cs (if offset_leb lowest c.lowest_offset then lowest else c.lowest_offset)

-- `findLowestOffsetOnPartition`: `none` is -1.
unfoldable pub find_lowest_offset : ℕ → Assembler → Option ℕ
unfolding lowest_of
find_lowest_offset p a = elim (lookup p a.collections) [
  | none ↦ none
  | some cs ↦ lowest_of cs (some max_int64)
]

-- `addOffsetToPartition`
unfoldable pub add_offset : ℕ → Option ℕ → Assembler → Assembler
add_offset p offset a = elim (lookup p a.lowest_offsets) [
  | none ↦ record a { lowest_offsets = insert p offset a.lowest_offsets }
  | some lowest ↦
      if offset_leb lowest offset
      then a
      else record a { lowest_offsets = insert p offset a.lowest_offsets }
]

-- `deleteOffsetOnPartition`; only -1 is below 0.
unfoldable pub delete_offset : ℕ → Option ℕ → Assembler → Assembler
unfolding find_lowest_offset
delete_offset p offset a = elim (lookup p a.lowest_offsets) [
  | none ↦ a
  | some lowest ↦ if not (offset_eq offset lowest) then a else elim (find_lowest_offset p a) [
    | none ↦ record a { lowest_offsets = erase p a.lowest_offsets }
    | some n ↦ record a { lowest_offsets = insert p (some n) a.lowest_offsets }
  ]
]

-- `fixMessageOffset`
unfoldable pub fix_message_offset : Message → Assembler → Message
fix_message_offset m a = elim (lookup m.partition a.lowest_offsets) [
  | none ↦ m
  | some lowest ↦ record m { offset = lowest }
]

abbrev pub put_collections : ℕ → List (String × FragmentsCollection) → Assembler → Assembler
put_collections p cs a = record a { collections = insert p cs a.collections }

-- The deletion of a collection from the maps in `assembleCollection`.
unfoldable pub remove_collection : ℕ → String → Assembler → Assembler
unfolding collections_of
remove_collection p key a = elim (erase key (collections_of p a)) [
  | [] ↦ record a { collections = erase p a.collections }
  | c ∷ cs ↦ put_collections p (c ∷ cs) a
]

-- A missing partition reads as offset 0.
abbrev or_start : Option (Option ℕ) → Option ℕ
or_start none = some 0
or_start (some o) = o

-- `assembleCollection`: the outer `none` is a panic.
unfoldable pub assemble_collection :
    String → FragmentsCollection → Assembler → Option (Option Message × Assembler)
unfolding remove_collection delete_offset
assemble_collection key c a = assemble c >>= λ r. elim r [
  | err e ↦ some (none, a)
  | ok bytes ↦ c.latest_message >>= λ m.
      let m' = record m { value = bytes } in
      let a' = remove_collection m.partition key a in
      let lowest = or_start (lookup m.partition a.lowest_offsets) in
      if not (offset_eq lowest c.lowest_offset)
      then some (some (record m' { offset = lowest }), a')
      else some (some m', delete_offset m.partition c.lowest_offset a')
]

-- The branch of `processFragmentInfo` that opens a collection.
unfoldable pub open_collection : MessageFragmentInfo → Assembler → Assembler
unfolding collections_of add_offset
open_collection f a =
    let p = f.message.partition in
    let c = add_fragment f (new_collection f.total_size f.timestamp) in
    add_offset p c.lowest_offset (put_collections p (insert f.key c (collections_of p a)) a)

-- `processFragmentInfo`
unfoldable pub process_fragment_info :
    MessageFragmentInfo → Assembler → Option (Option Message × Assembler)
unfolding open_collection assemble_collection
process_fragment_info f a =
    let p = f.message.partition in
    let cs = collections_of p a in
    let a' = put_collections p cs a in
    elim (lookup f.key cs) [
      | none ↦ some (none, open_collection f a')
      | some c ↦
          if ltb f.timestamp c.timestamp
          then some (none, a')
          else if ltb c.timestamp f.timestamp
          then some (none, open_collection f a')
          else let c' = add_fragment f c in
            let a'' = put_collections p (insert f.key c' cs) a in
            if eqb c'.total_size c'.accumulated_size
            then assemble_collection f.key c' a''
            else some (none, a'')
    ]

pub data ReadError : Type 0 where
  header_not_found : String → ReadError
  illegal_timestamp : ReadError

module _ (time : TimeFormat) where
  -- `messageIsFragment`: the inner `none` says that it is none, the outer one is a panic.
  unfoldable pub message_is_fragment : Message → Option (Option MessageFragment)
  unfolding lookup_header read_uint32
  message_is_fragment m = elim (lookup_header "offset" m.headers) [
    | none ↦ some none
    | some offset ↦ elim (lookup_header "size" m.headers) [
      | none ↦ some none
      | some size ↦ do n ← read_uint32 offset; some (some (record { offset = n; bytes = m.value }))
    ]
  ]

  -- `createFragmentInfo`
  unfoldable pub create_fragment_info :
      Message → MessageFragment → Option (Result ReadError MessageFragmentInfo)
  unfolding lookup_header read_uint32
  create_fragment_info m f = elim (lookup_header "fragmentation-timestamp" m.headers) [
    | none ↦ some (err (header_not_found "fragmentation-timestamp"))
    | some stamp ↦ elim (lookup_header "size" m.headers) [
      | none ↦ some (err (header_not_found "size"))
      | some size ↦ elim (time.parse_time stamp) [
        | none ↦ some (err illegal_timestamp)
        | some t ↦ do
          n ← read_uint32 size
          some (
              ok (record { key = m.key; total_size = n; timestamp = t; fragment = f; message = m }))
      ]
    ]
  ]

  -- The case of a message in `pollMessage`: what is sent on the channel, and the assembler.
  unfoldable pub poll_message : Message → Assembler → Option (Option Message × Assembler)
  unfolding message_is_fragment create_fragment_info process_fragment_info fix_message_offset
  poll_message m a = message_is_fragment m >>= λ fragment. elim fragment [
    | none ↦ some (some (fix_message_offset m a), a)
    | some f ↦ create_fragment_info m f >>= λ r. elim r [
      | err e ↦ some (none, a)
      | ok info ↦ process_fragment_info info a
    ]
  ]
