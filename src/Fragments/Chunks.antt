-- ===== src/Fragments/Chunks.antt =====
-- kafka_producer.go: how a payload is cut.
use multicluster_global_hub.Base.{
  ℕ, zero, suc, ◌≡◌, refl, true, false, some, List, [], ◌∷◌, ◌++◌, ◌<◌, ◌≤◌, arith, ltb, leb, eqb,
  length, take, drop, subst, Bool-cases, inl, inr,
}
use multicluster_global_hub.Fragments.Producer.{split_loop, split_payload_into_chunks}

take-drop : (n : ℕ) (xs : List ℕ) → take n xs ++ drop n xs ≡ xs
take-drop zero xs = refl
take-drop (suc n) [] = refl
take-drop (suc n) (x ∷ xs) = rw (take-drop n xs) refl

length-drop : (n : ℕ) (xs : List ℕ) → 0 < n → n ≤ length xs → length (drop n xs) < length xs
length-drop zero xs p q = ground (arith, p)
length-drop (suc zero) [] p q = ground (arith, q)
length-drop (suc zero) (x ∷ xs) p q = omega arith
length-drop (suc (suc n)) [] p q = ground (arith, q)
length-drop (suc (suc n)) (x ∷ xs) p q =
    omega (arith, length-drop (suc n) xs (omega arith) (omega (arith, q)))

length-take : (n : ℕ) (xs : List ℕ) → n ≤ length xs → length (take n xs) ≡ n
length-take zero xs q = refl
length-take (suc n) [] q = ground (arith, q)
length-take (suc n) (x ∷ xs) q = omega (arith, length-take n xs (omega (arith, q)))

-- The chunks of a payload: each as long as the limit but the last one, which may be shorter and is
-- not empty, and one after the other they are the payload.
pub data IsSplit (limit : ℕ) : List (List ℕ) → List ℕ → Type 0 where
  done : IsSplit limit [] []
  last : (c : List ℕ) → 0 < length c → length c < limit → IsSplit limit (c ∷ []) c
  full :
      (c : List ℕ) (cs : List (List ℕ)) (rest : List ℕ)
      → length c ≡ limit
      → IsSplit limit cs rest
      → IsSplit limit (c ∷ cs) (c ++ rest)

split_loop_rest :
    (fuel limit : ℕ) (payload : List ℕ)
    → leb limit (length payload) ≡ false
    → (chunks : List (List ℕ)) × (split_loop (suc fuel) limit payload ≡ some chunks)
      × IsSplit limit chunks payload
unfolding split_loop
split_loop_rest fuel limit [] b = ([], rw b refl, done)
split_loop_rest fuel limit (x ∷ xs) b =
    let filled : ltb 0 (length (x ∷ xs)) ≡ true = ground arith in
    ((x ∷ xs) ∷ [], rw (b, filled) refl, last (x ∷ xs) (omega arith) (ground (arith, b)))

split_loop-IsSplit :
    (fuel limit : ℕ) (payload : List ℕ)
    → 0 < limit
    → length payload < fuel
    → (chunks : List (List ℕ)) × (split_loop fuel limit payload ≡ some chunks)
      × IsSplit limit chunks payload
unfolding split_loop
split_loop-IsSplit zero limit payload p q = ground (arith, q)
split_loop-IsSplit (suc fuel) limit payload p q = elim (Bool-cases (leb limit (length payload))) [
  | inl b ↦
      let fits : limit ≤ length payload = ground (arith, b) in
      let (cs, e, k) =
        split_loop-IsSplit fuel limit (drop limit payload) p
          (omega (arith, length-drop limit payload p fits, q)) in
      (
        take limit payload ∷ cs,
        rw (b, e) refl,
        subst (λ w. IsSplit limit (take limit payload ∷ cs) w) (take-drop limit payload)
            (full (take limit payload) cs (drop limit payload) (length-take limit payload fits) k),
      )
  | inr b ↦ split_loop_rest fuel limit payload b
]

-- Splitting a payload ends with its chunks if the limit is not 0.
pub split_payload_into_chunks-IsSplit :
    (limit : ℕ) (payload : List ℕ)
    → 0 < limit
    → (chunks : List (List ℕ)) × (split_payload_into_chunks limit payload ≡ some chunks)
      × IsSplit limit chunks payload
unfolding split_payload_into_chunks
split_payload_into_chunks-IsSplit limit payload p =
    let positive : eqb limit 0 ≡ false = ground (arith, p) in
    let (cs, e, k) = split_loop-IsSplit (suc (length payload)) limit payload p (omega arith) in
    (cs, rw positive e, k)
