-- ===== src/Fragments/Bytes.antt =====
-- encoding/binary, big endian, for uint32, and the headers of a message.
use multicluster_global_hub.Base.{
  ap, ℕ, String, ◌≡◌, Option, none, some, List, [], ◌∷◌, ◌%◌, ◌/◌, ◌*◌, ◌+◌, arith, if◌then◌else◌,
  ◌==◌, string_key,
}
use multicluster_global_hub.Fragments.{uint32}

-- `toByteArray`
unfoldable pub to_byte_array : ℕ → List ℕ
to_byte_array i =
    let n = uint32 i in n / 16777216 ∷ (n / 65536) % 256 ∷ (n / 256) % 256 ∷ n % 256 ∷ []

-- `binary.BigEndian.Uint32`, which panics on less than four bytes.
unfoldable pub read_uint32 : List ℕ → Option ℕ
read_uint32 (a ∷ b ∷ c ∷ d ∷ rest) = some (a * 16777216 + b * 65536 + c * 256 + d)
read_uint32 _ = none

-- What `toByteArray` writes reads back as the number, modulo 2 ^ 32.
pub read_uint32-to_byte_array : (n : ℕ) → read_uint32 (to_byte_array n) ≡ some (uint32 n)
unfolding read_uint32 to_byte_array
read_uint32-to_byte_array n = ap some (omega arith)

-- `lookupHeader`
unfoldable pub lookup_header : String → List (String × List ℕ) → Option (List ℕ)
lookup_header k [] = none
lookup_header k ((j, v) ∷ hs) = if j == k then some v else lookup_header k hs
