-- ===== src/Fragments.antt =====
-- pkg/kafka: a payload above the size limit is sent as fragments and assembled by the consumer.
-- A byte is a number. Offsets of the topic are not negative, except for the -1 that the code
-- writes for no offset: `none` here. `%` writes out the wrap-around of uint32.
pub mod Bytes
pub mod Producer
pub mod Collection
pub mod Assembler
pub mod Chunks
pub mod Assembly
pub mod Reading
pub mod Keys
use multicluster_global_hub.Base.{
  ◌&&◌, ℕ, String, ◌≡◌, Bool, true, false, Option, none, some, List, ◌%◌, ◌^◌, leb,
}

-- What the code uses of kafka.Message.
pub record Message : Type 0 where
  pub key : String
  pub partition : ℕ
  pub offset : Option ℕ
  pub headers : List (String × List ℕ)
  pub value : List ℕ

-- `messageFragment`
pub record MessageFragment : Type 0 where
  pub offset : ℕ
  pub bytes : List ℕ

-- `messageFragmentInfo`; a time is a number.
pub record MessageFragmentInfo : Type 0 where
  pub key : String
  pub total_size : ℕ
  pub timestamp : ℕ
  pub fragment : MessageFragment
  pub message : Message

-- A time as the header that the producer writes: time.Format and time.Parse of RFC 3339, which read
-- back what they write.
pub record TimeFormat : Type 0 where
  pub format_time : ℕ → List ℕ
  pub parse_time : List ℕ → Option ℕ
  pub parse-format : (t : ℕ) → parse_time (format_time t) ≡ some t

abbrev pub uint32 : ℕ → ℕ
uint32 n = n % 2 ^ 32

-- `a <= b` of offsets, where -1 is the least.
abbrev pub offset_leb : Option ℕ → Option ℕ → Bool
offset_leb none b = true
offset_leb (some a) none = false
offset_leb (some a) (some b) = leb a b

abbrev pub offset_eq : Option ℕ → Option ℕ → Bool
offset_eq none none = true
offset_eq (some a) (some b) = leb a b && leb b a
offset_eq _ _ = false
