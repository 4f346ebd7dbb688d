-- ===== src/Fragments/Producer.antt =====
-- pkg/kafka/kafka-producer/kafka_producer.go: the messages of a payload. The headers that callers
-- pass are literals, so an append copies them. A message that is not sent yet has offset 0.
use multicluster_global_hub.Base.{
  ◌>>=◌, ℕ, zero, suc, String, Option, none, some, List, [], ◌∷◌, ◌++◌, ◌*◌, if◌then◌else◌, ltb,
  leb, eqb, length, take, drop, ◌%◌, ◌/◌,
}
use multicluster_global_hub.Fragments.{Message, TimeFormat}
use multicluster_global_hub.Fragments.Bytes.{to_byte_array}
use Prim.Native.String.{◌++◌ as str_append, slice}

-- The loop of `splitPayloadIntoChunks` with fuel; `none` if the fuel runs out.
unfoldable pub split_loop : ℕ → ℕ → List ℕ → Option (List (List ℕ))
split_loop zero limit payload = none
split_loop (suc fuel) limit payload =
    let rest = split_loop fuel limit (drop limit payload) in
    if leb limit (length payload)
    then (do chunks ← rest; some (take limit payload ∷ chunks))
    else if ltb 0 (length payload)
    then some (payload ∷ [])
    else some []

-- `splitPayloadIntoChunks`; a limit of 0 divides by zero.
unfoldable pub split_payload_into_chunks : ℕ → List ℕ → Option (List (List ℕ))
unfolding split_loop
split_payload_into_chunks limit payload =
    if eqb limit 0 then none else split_loop (suc (length payload)) limit payload

abbrev digit : ℕ → String
digit d = slice "0123456789" d (suc d)

-- `%d` of a number that is not negative; the fuel is a bound on the number of digits.
unfoldable pub decimal : ℕ → ℕ → String
decimal zero n = ""
decimal (suc fuel) n =
    let front = decimal fuel (n / 10) in
    if ltb n 10 then digit n else str_append front (digit (n % 10))

-- `builder.NewMessageBuilder(…).Build()`
unfoldable pub new_message : String → ℕ → List (String × List ℕ) → List ℕ → Message
new_message key partition headers payload = record {
  key = key;
  partition = partition;
  offset = some 0;
  headers = headers;
  value = payload;
}

module _ (time : TimeFormat) where
  -- The body of the loop over the chunks.
  unfoldable pub fragment_message :
      ℕ → String → ℕ → List (String × List ℕ) → ℕ → ℕ → ℕ → List ℕ → Message
  unfolding new_message decimal to_byte_array
  fragment_message now key partition headers limit total index chunk =
      new_message (str_append key (str_append "_" (decimal (suc index) index))) partition
        (headers
          ++ ("size", to_byte_array total)
            ∷ ("offset", to_byte_array (index * limit))
            ∷ ("fragmentation-timestamp", time.format_time now)
            ∷ [])
        chunk

  unfoldable pub fragment_messages :
      ℕ → String → ℕ → List (String × List ℕ) → ℕ → ℕ → ℕ → List (List ℕ) → List Message
  unfolding fragment_message
  fragment_messages now key partition headers limit total index [] = []
  fragment_messages now key partition headers limit total index (chunk ∷ chunks) =
      fragment_message now key partition headers limit total index chunk
      ∷ fragment_messages now key partition headers limit total (suc index) chunks

  -- `getMessageFragments`
  unfoldable pub get_message_fragments :
      ℕ → ℕ → String → ℕ → List (String × List ℕ) → List ℕ → Option (List Message)
  unfolding fragment_messages split_payload_into_chunks new_message
  get_message_fragments limit now key partition headers payload =
      let chunks = split_payload_into_chunks limit payload in
      if leb (length payload) limit
      then some (new_message key partition headers payload ∷ [])
      else (do
        cs ← chunks
        some (fragment_messages now key partition headers limit (length payload) 0 cs))
