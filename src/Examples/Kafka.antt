-- ===== src/Examples/Kafka.antt =====
-- A payload of five bytes under a limit of two, cut, read back and put together.
use multicluster_global_hub.Base.{
  string_key, ℕ, ◌≡◌, refl, none, some, List, [], ◌∷◌, arith, ok, get_elem?, ◌*◌, String, ==_iff,
  ◌==◌, false, ◌≢◌,
}
use multicluster_global_hub.Fragments.Chunks.{
  IsSplit, split_payload_into_chunks-IsSplit, full, last,
}
use multicluster_global_hub.Fragments.{
  TimeFormat, Message, MessageFragment, uint32, MessageFragmentInfo,
}
use multicluster_global_hub.Fragments.Producer.{split_payload_into_chunks, fragment_message}
use multicluster_global_hub.Fragments.Collection.{assemble, new_collection}
use multicluster_global_hub.Fragments.Bytes.{
  read_uint32, lookup_header, to_byte_array, read_uint32-to_byte_array,
}
use multicluster_global_hub.Fragments.Assembler.{
  message_is_fragment, create_fragment_info, Assembler, collections_of,
}
use multicluster_global_hub.Fragments.Assembly.{collect, chunk_infos, assemble-collect}
use multicluster_global_hub.Fragments.Reading.{create_fragment_info-fragment_message}
use multicluster_global_hub.Fragments.Keys.{HaveFreshKeys, process_all, process_all-HaveFreshKeys}

abbrev payload : List ℕ
payload = 1 ∷ 2 ∷ 3 ∷ 4 ∷ 5 ∷ []

abbrev pieces : List (List ℕ)
pieces = (1 ∷ 2 ∷ []) ∷ (3 ∷ 4 ∷ []) ∷ (5 ∷ []) ∷ []

pieces-IsSplit : IsSplit 2 pieces payload
pieces-IsSplit =
    full (1 ∷ 2 ∷ []) ((3 ∷ 4 ∷ []) ∷ (5 ∷ []) ∷ []) (3 ∷ 4 ∷ 5 ∷ []) refl
      (full (3 ∷ 4 ∷ []) ((5 ∷ []) ∷ []) (5 ∷ []) refl (last (5 ∷ []) (omega arith) (omega arith)))

-- A clock that writes a time as one byte.
abbrev clock : TimeFormat
clock = record {
  format_time = λ t. t ∷ [];
  parse_time = λ bytes. get_elem? bytes 0;
  parse-format = λ t. refl;
}

abbrev message_at : ℕ → Message
message_at i = record { key = "hub1"; partition = 0; offset = some i; headers = []; value = [] }

split_payload_into_chunks-IsSplit_example :
    (chunks : List (List ℕ)) × (split_payload_into_chunks 2 payload ≡ some chunks)
    × IsSplit 2 chunks payload
split_payload_into_chunks-IsSplit_example =
    split_payload_into_chunks-IsSplit 2 payload (omega arith)

assemble-collect_example :
    assemble (collect (chunk_infos "hub1" 5 9 2 message_at 0 pieces) (new_collection 5 9))
    ≡ some (ok payload)
assemble-collect_example =
    assemble-collect "hub1" 9 2 message_at pieces payload (omega arith) (omega arith) pieces-IsSplit

read_uint32-to_byte_array_example :
    read_uint32 (to_byte_array 4294967301) ≡ some (uint32 4294967301)
read_uint32-to_byte_array_example = read_uint32-to_byte_array 4294967301

no_header :
    (lookup_header "size" (("content-encoding", 7 ∷ []) ∷ []) ≡ none)
    × (lookup_header "offset" (("content-encoding", 7 ∷ []) ∷ []) ≡ none)
    × (lookup_header "fragmentation-timestamp" (("content-encoding", 7 ∷ []) ∷ []) ≡ none)
unfolding lookup_header
no_header = (refl, refl, refl)

abbrev sent : Message
sent = fragment_message clock 9 "hub1" 0 (("content-encoding", 7 ∷ []) ∷ []) 2 5 1 (3 ∷ 4 ∷ [])

abbrev sent_fragment : MessageFragment
sent_fragment = record { offset = uint32 (1 * 2); bytes = 3 ∷ 4 ∷ [] }

create_fragment_info-fragment_message_example :
    (message_is_fragment clock sent ≡ some (some sent_fragment))
    × (create_fragment_info clock sent sent_fragment
        ≡ some (
            ok (record {
              key = sent.key;
              total_size = uint32 5;
              timestamp = 9;
              fragment = sent_fragment;
              message = sent;
            })))
create_fragment_info-fragment_message_example =
    create_fragment_info-fragment_message clock 9 "hub1" 0 (("content-encoding", 7 ∷ []) ∷ []) 2 5 1
      (3 ∷ 4 ∷ []) no_header.0 no_header.1 no_header.2

abbrev nothing_open : Assembler
nothing_open = record { collections = []; lowest_offsets = [] }

-- Two fragments of one message under the keys that the producer gives them.
abbrev keyed : ℕ → String → List ℕ → MessageFragmentInfo
keyed offset key bytes = record {
  key = key;
  total_size = 4;
  timestamp = 9;
  fragment = record { offset = offset; bytes = bytes };
  message = message_at offset;
}

abbrev two_fragments : List MessageFragmentInfo
two_fragments = keyed 0 "hub1_0" (1 ∷ 2 ∷ []) ∷ keyed 2 "hub1_1" (3 ∷ 4 ∷ []) ∷ []

keys_differ : (j k : String) → (j == k) ≡ false → j ≢ k
keys_differ j k n e = ground (arith, ==_iff j k, n, e)

two_keys : HaveFreshKeys two_fragments nothing_open
unfolding collections_of
two_keys = (refl, (keys_differ "hub1_1" "hub1_0" refl, tt), (refl, tt, tt))

process_all-HaveFreshKeys_example :
    (a' : Assembler) × (process_all two_fragments nothing_open ≡ some ([], a'))
process_all-HaveFreshKeys_example = process_all-HaveFreshKeys two_fragments nothing_open two_keys
