-- ===== src/Fragments/Assembly.antt =====
-- message_fragment_collection.go: the fragments of a payload, added one after the other.
use multicluster_global_hub.Base.{
  ◌>>=◌, ℕ, zero, suc, String, ◌≡◌, refl, true, false, Option, none, some, List, [], ◌∷◌, ◌++◌, ◌+◌,
  ◌*◌, ◌^◌, ◌<◌, ◌≤◌, arith, ltb, leb, eqb, length, take, drop, replicate, sym, subst, Bool-cases,
  inl, inr, nat_key, length-append, ap, ok, ◌∙◌, ◌==◌, Option-cases,
}
use multicluster_global_hub.Base.Maps.{lookup, insert, lookup-insert}
use multicluster_global_hub.Fragments.{Message, MessageFragment, MessageFragmentInfo, uint32}
use multicluster_global_hub.Fragments.Collection.{
  FragmentsCollection, new_collection, add_fragment, copy_at, copy_all, assemble,
}
use multicluster_global_hub.Fragments.Chunks.{IsSplit, done, last, full}

-- The fragments of chunks that begin at an index; `m` says which message each came with.
abbrev pub chunk_infos :
    String → ℕ → ℕ → ℕ → (ℕ → Message) → ℕ → List (List ℕ) → List MessageFragmentInfo
chunk_infos key size t limit m index [] = []
chunk_infos key size t limit m index (c ∷ cs) =
    record {
      key = key;
      total_size = size;
      timestamp = t;
      fragment = record { offset = index * limit; bytes = c };
      message = m index;
    }
    ∷ chunk_infos key size t limit m (suc index) cs

abbrev pub collect : List MessageFragmentInfo → FragmentsCollection → FragmentsCollection
collect [] c = c
collect (f ∷ fs) c = collect fs (add_fragment f c)

abbrev zeros : ℕ → List ℕ
zeros n = replicate n 0

take-append : (xs ys : List ℕ) → take (length xs) (xs ++ ys) ≡ xs
take-append [] ys = refl
take-append (x ∷ xs) ys = ap (λ w. x ∷ w) (take-append xs ys)

take_all : (n : ℕ) (xs : List ℕ) → n ≡ length xs → take n xs ≡ xs
take_all zero [] h = refl
take_all zero (x ∷ xs) h = ground (arith, h)
take_all (suc n) [] h = refl
take_all (suc n) (x ∷ xs) h = ap (λ w. x ∷ w) (take_all n xs (omega (arith, h)))

drop-append : (n k : ℕ) (xs ys : List ℕ) → n ≡ length xs + k → drop n (xs ++ ys) ≡ drop k ys
drop-append n k [] ys h = let same : n ≡ k = omega (arith, h) in rw same refl
drop-append zero k (x ∷ xs) ys h = ground (arith, h)
drop-append (suc n) k (x ∷ xs) ys h = drop-append n k xs ys (omega (arith, h))

drop-zeros : (n k m : ℕ) → k ≡ n + m → drop n (zeros k) ≡ zeros m
drop-zeros zero k m h = let same : k ≡ m = omega (arith, h) in rw same refl
drop-zeros (suc n) zero m h = ground (arith, h)
drop-zeros (suc n) (suc k) m h = drop-zeros n k m (omega (arith, h))

length-zeros : (n : ℕ) → length (zeros n) ≡ n
length-zeros zero = refl
length-zeros (suc n) = ap suc (length-zeros n)

++_assoc : (xs ys zs : List ℕ) → (xs ++ ys) ++ zs ≡ xs ++ (ys ++ zs)
++_assoc [] ys zs = refl
++_assoc (x ∷ xs) ys zs = ap (λ w. x ∷ w) (++_assoc xs ys zs)

++_nil : (xs : List ℕ) → xs ++ [] ≡ xs
++_nil [] = refl
++_nil (x ∷ xs) = ap (λ w. x ∷ w) (++_nil xs)

uint32_small : (n : ℕ) → n < 2 ^ 32 → uint32 n ≡ n
uint32_small n h = omega (arith, h)

-- A copy behind what is filled already.
copy_at-append :
    (front bytes : List ℕ) (left : ℕ)
    → copy_at (length front) bytes (front ++ zeros (length bytes + left))
      ≡ some ((front ++ bytes) ++ zeros left)
unfolding copy_at
copy_at-append front bytes left =
    let buffer = front ++ zeros (length bytes + left) in
    let size : length buffer ≡ length front + length bytes + left = omega (
      arith,
      length-append front (zeros (length bytes + left)),
      length-zeros (length bytes + left),
    ) in
    let fits : leb (length front) (length buffer) ≡ true = ground (arith, size) in
    let tail : drop (length front + length bytes) buffer ≡ zeros left =
      drop-append (length front + length bytes) (length bytes) front _ refl
      ∙ drop-zeros (length bytes) (length bytes + left) left refl in
    let whole : take (length buffer) (front ++ bytes ++ zeros left) ≡ front ++ bytes ++ zeros left =
      take_all (length buffer) (front ++ bytes ++ zeros left) (
        omega (
          arith,
          size,
          length-append (front ++ bytes) (zeros left),
          length-append front bytes,
          length-zeros left,
        )) in
    rw (fits, take-append front (zeros (length bytes + left)), tail, whole) refl

>>=_some : {A : Type 0} (o : Option A) → (o >>= λ a. some a) ≡ o
>>=_some none = refl
>>=_some (some a) = refl

copy_all-insert :
    (k : ℕ) (f : MessageFragment) (fs : List (ℕ × MessageFragment)) (b : List ℕ)
    → lookup k fs ≡ none
    → copy_all (insert k f fs) b ≡ (copy_all fs b >>= λ b'. copy_at k f.bytes b')
unfolding copy_all
copy_all-insert k f [] b h = >>=_some (copy_at k f.bytes b)
copy_all-insert k f ((j, g) ∷ fs) b h = elim (Bool-cases (j == k)) [
  | inl e ↦ ground (arith, e, h)
  | inr e ↦
      let left_out : lookup k fs ≡ none = ground (arith, e, h) in
      rw e (elim (Option-cases (copy_at j g.bytes b)) [
        | inl n ↦ rw n refl
        | inr (b', s) ↦ rw s (copy_all-insert k f fs b' left_out)
      ])
]

-- A collection that holds the bytes `front` of a message and waits for as many more as `left`.
record Holds (front : List ℕ) (left : ℕ) (c : FragmentsCollection) : Type 0 where
  total : c.total_size ≡ length front + left
  size : c.accumulated_size ≡ length front
  copied : copy_all c.fragments (zeros (length front + left)) ≡ some (front ++ zeros left)
  fresh : (o : ℕ) → length front ≤ o → lookup o c.fragments ≡ none

copied_on :
    (f : MessageFragment) (front : List ℕ) (left : ℕ) (fs : List (ℕ × MessageFragment)) {n : ℕ}
    → f.offset ≡ length front
    → lookup f.offset fs ≡ none
    → n ≡ length front + (length f.bytes + left)
    → copy_all fs (zeros (length front + (length f.bytes + left)))
      ≡ some (front ++ zeros (length f.bytes + left))
    → copy_all (insert f.offset f fs) (zeros n) ≡ some ((front ++ f.bytes) ++ zeros left)
copied_on f front left fs {n} at new same h =
    rw
      (
        same,
        copy_all-insert f.offset f fs (zeros (length front + (length f.bytes + left))) new,
        h,
        at,
      )
      (copy_at-append front f.bytes left)

add_fragment-Holds :
    (f : MessageFragmentInfo) (front : List ℕ) (left : ℕ) (c : FragmentsCollection)
    → f.fragment.offset ≡ length front
    → 0 < length f.fragment.bytes
    → length front + length f.fragment.bytes + left < 2 ^ 32
    → Holds front (length f.fragment.bytes + left) c
    → Holds (front ++ f.fragment.bytes) left (add_fragment f c)
unfolding add_fragment
add_fragment-Holds f front left c at filled bound h =
    let bytes = f.fragment.bytes in
    let short : uint32 (length bytes) ≡ length bytes =
      uint32_small (length bytes) (omega (arith, bound)) in
    let inside : ltb c.total_size (uint32 (f.fragment.offset + uint32 (length bytes))) ≡ false =
      rw (short, at, uint32_small (length front + length bytes) (omega (arith, bound)))
        (ground (arith, h.total)) in
    let new : lookup f.fragment.offset c.fragments ≡ none =
      h.fresh f.fragment.offset (omega (arith, at)) in
    let both = length-append front bytes in
    rw (inside, new)
      (record {
        total = omega (arith, h.total, both);
        size =
            rw (short, h.size, uint32_small (length front + length bytes) (omega (arith, bound)))
              (sym both);
        copied = copied_on f.fragment front left c.fragments at new (omega (arith, both)) h.copied;
        fresh = λ o g. ground (
          arith,
          lookup-insert f.fragment.offset o f.fragment c.fragments,
          h.fresh o (omega (arith, g, both)),
          at,
          g,
          both,
          filled,
        );
      })

-- A collection that holds all of a payload's chunks holds the payload.
collect-Holds :
    (key : String) (size t limit : ℕ) (m : ℕ → Message) (index : ℕ) (chunks : List (List ℕ))
    (front payload : List ℕ) (c : FragmentsCollection)
    → 0 < limit
    → IsSplit limit chunks payload
    → index * limit ≡ length front
    → length front + length payload < 2 ^ 32
    → Holds front (length payload) c
    → Holds (front ++ payload) 0 (collect (chunk_infos key size t limit m index chunks) c)
collect-Holds key size t limit m index chunks front payload c p done at bound h =
    rw (++_nil front) h
collect-Holds key size t limit m index chunks front payload c p (last b q r) at bound h =
    add_fragment-Holds
      (record {
        key = key;
        total_size = size;
        timestamp = t;
        fragment = record { offset = index * limit; bytes = b };
        message = m index;
      })
      front 0 c at q (omega (arith, bound)) (subst (λ n. Holds front n c) (omega arith) h)
collect-Holds key size t limit m index chunks front payload c p (full b cs rest q k) at bound h =
    let f : MessageFragmentInfo = record {
      key = key;
      total_size = size;
      timestamp = t;
      fragment = record { offset = index * limit; bytes = b };
      message = m index;
    } in
    let both = length-append b rest in
    let next =
      add_fragment-Holds f front (length rest) c at (omega (arith, p, q))
        (omega (arith, bound, both)) (subst (λ n. Holds front n c) both h) in
    subst
      (λ w. Holds w 0 (collect (chunk_infos key size t limit m (suc index) cs) (add_fragment f c)))
      (++_assoc front b rest)
      (collect-Holds key size t limit m (suc index) cs (front ++ b) rest (add_fragment f c) p k
        (omega (arith, at, q, length-append front b))
        (omega (arith, bound, both, length-append front b)) next)

assemble-Holds :
    (payload : List ℕ) (c : FragmentsCollection)
    → Holds payload 0 c
    → assemble c ≡ some (ok payload)
unfolding assemble
assemble-Holds payload c h =
    let complete : eqb c.total_size c.accumulated_size ≡ true = ground (arith, h.total, h.size) in
    let copied : copy_all c.fragments (replicate c.total_size 0) ≡ some (payload ++ zeros 0) =
      rw h.total h.copied in
    rw (complete, copied, ++_nil payload) refl

-- What is split comes together: the fragments of a payload shorter than 2 ^ 32 bytes, added in order
-- to a new collection, assemble to the payload.
pub assemble-collect :
    (key : String) (t limit : ℕ) (m : ℕ → Message) (chunks : List (List ℕ)) (payload : List ℕ)
    → 0 < limit
    → length payload < 2 ^ 32
    → IsSplit limit chunks payload
    → assemble (
        collect
          (chunk_infos key (length payload) t limit m 0 chunks)
          (new_collection (length payload) t))
      ≡ some (ok payload)
unfolding new_collection copy_all
assemble-collect key t limit m chunks payload p bound k =
    let c = new_collection (length payload) t in
    let start : Holds [] (length payload) c = record {
      total = omega arith;
      size = refl;
      copied = ap (λ n. some (zeros n)) (omega arith);
      fresh = λ o g. refl;
    } in
    let h =
      collect-Holds key (length payload) t limit m 0 chunks [] payload c p k (omega arith)
        (omega (arith, bound)) start in
    assemble-Holds payload (collect (chunk_infos key (length payload) t limit m 0 chunks) c) h
