-- ===== src/Fragments/Reading.antt =====
-- kafka_consumer.go reads the headers that kafka_producer.go writes.
use multicluster_global_hub.Base.{
  ℕ, String, ◌≡◌, refl, none, some, List, [], ◌∷◌, ◌++◌, ◌*◌, arith, string_key, ok,
}
use multicluster_global_hub.Fragments.{Message, TimeFormat, uint32, MessageFragment}
use multicluster_global_hub.Fragments.Bytes.{
  lookup_header, read_uint32, to_byte_array, read_uint32-to_byte_array,
}
use multicluster_global_hub.Fragments.Producer.{fragment_message, new_message}
use multicluster_global_hub.Fragments.Assembler.{message_is_fragment, create_fragment_info}

lookup_header-append :
    (k : String) (hs rest : List (String × List ℕ))
    → lookup_header k hs ≡ none
    → lookup_header k (hs ++ rest) ≡ lookup_header k rest
unfolding lookup_header
lookup_header-append k [] rest h = refl
lookup_header-append k ((j, v) ∷ hs) rest h = ground (arith, lookup_header-append k hs rest, h)

module _ (time : TimeFormat) where
  message_is_fragment-some :
      (m : Message) (offset size : List ℕ) (n : ℕ)
      → lookup_header "offset" m.headers ≡ some offset
      → lookup_header "size" m.headers ≡ some size
      → read_uint32 offset ≡ some n
      → message_is_fragment time m ≡ some (some (record { offset = n; bytes = m.value }))
  unfolding message_is_fragment
  message_is_fragment-some m offset size n o s r = ground (arith, o, s, r)

  create_fragment_info-some :
      (m : Message) (f : MessageFragment) (stamp size : List ℕ) (t n : ℕ)
      → lookup_header "fragmentation-timestamp" m.headers ≡ some stamp
      → lookup_header "size" m.headers ≡ some size
      → time.parse_time stamp ≡ some t
      → read_uint32 size ≡ some n
      → create_fragment_info time m f
        ≡ some
            (ok (record { key = m.key; total_size = n; timestamp = t; fragment = f; message = m }))
  unfolding create_fragment_info
  create_fragment_info-some m f stamp size t n h s r q = ground (arith, h, s, r, q)

  -- A fragment reads back as it was written: for headers that do not use the producer's keys, the
  -- consumer finds the chunk at its offset, with the size of the payload, the time and the
  -- message's key; numbers are read modulo 2 ^ 32.
  pub create_fragment_info-fragment_message :
      (now : ℕ) (key : String) (partition : ℕ) (headers : List (String × List ℕ))
      (limit total index : ℕ) (chunk : List ℕ)
      → lookup_header "size" headers ≡ none
      → lookup_header "offset" headers ≡ none
      → lookup_header "fragmentation-timestamp" headers ≡ none
      → let m = fragment_message time now key partition headers limit total index chunk in
        let f : MessageFragment = record { offset = uint32 (index * limit); bytes = chunk } in
        (message_is_fragment time m ≡ some (some f))
        × (create_fragment_info time m f
            ≡ some (
                ok (record {
                  key = m.key;
                  total_size = uint32 total;
                  timestamp = now;
                  fragment = f;
                  message = m;
                })))
  unfolding fragment_message new_message lookup_header
  create_fragment_info-fragment_message now key partition headers limit total index chunk s o t =
      let added : List (String × List ℕ) =
        ("size", to_byte_array total)
        ∷ ("offset", to_byte_array (index * limit))
        ∷ ("fragmentation-timestamp", time.format_time now)
        ∷ [] in
      let m = fragment_message time now key partition headers limit total index chunk in
      let size = lookup_header-append "size" headers added s in
      let offset = lookup_header-append "offset" headers added o in
      let stamp = lookup_header-append "fragmentation-timestamp" headers added t in
      (
        message_is_fragment-some m (to_byte_array (index * limit)) (to_byte_array total) _ offset
            size (read_uint32-to_byte_array (index * limit)),
        create_fragment_info-some m _ (time.format_time now) (to_byte_array total) now _ stamp size
            (time.parse-format now) (read_uint32-to_byte_array total),
      )
