-- ===== src/Fragments/Keys.antt =====
-- kafka_message_assembler.go: fragments are collected by the key of their message.
use multicluster_global_hub.Base.{
  ◌>>=◌, ℕ, String, ◌≡◌, refl, false, Option, none, some, List, [], ◌∷◌, arith, Bool-cases, inl,
  inr, string_key, nat_key, ◌==◌, ◌≢◌, ==_iff, ap, ◌∙◌, All, if◌then◌else◌,
}
use multicluster_global_hub.Base.Maps.{lookup, insert, lookup-insert}
use multicluster_global_hub.Fragments.{Message, MessageFragmentInfo}
use multicluster_global_hub.Fragments.Collection.{FragmentsCollection, add_fragment, new_collection}
use multicluster_global_hub.Fragments.Assembler.{
  Assembler, collections_of, put_collections, add_offset, open_collection, process_fragment_info,
}

-- The messages that fragments give, one after the other.
unfoldable pub process_all :
    List MessageFragmentInfo → Assembler → Option (List Message × Assembler)
process_all [] a = some ([], a)
process_all (f ∷ fs) a = process_fragment_info f a >>= λ r.
    process_all fs r.1 >>= λ s. some (elim r.0 [ none ↦ s.0 | some m ↦ m ∷ s.0 ], s.1)

-- No collection is open for the keys, and they are pairwise different.
abbrev pub HaveFreshKeys : List MessageFragmentInfo → Assembler → Type 0
HaveFreshKeys [] a = Unit
HaveFreshKeys (f ∷ fs) a =
    (lookup f.key (collections_of f.message.partition a) ≡ none)
    × All (λ g. g.key ≢ f.key) fs
    × HaveFreshKeys fs a

add_offset_collections :
    (p : ℕ) (o : Option ℕ) (a : Assembler) → (add_offset p o a).collections ≡ a.collections
unfolding add_offset
add_offset_collections p o a = ground arith

collections_of-put :
    (p q : ℕ) (cs : List (String × FragmentsCollection)) (a : Assembler)
    → collections_of q (put_collections p cs a) ≡ (if p == q then cs else collections_of q a)
unfolding collections_of
collections_of-put p q cs a = ground (arith, lookup-insert p q cs a.collections)

collections_of-eq :
    (q : ℕ) (a b : Assembler)
    → a.collections ≡ b.collections
    → collections_of q a ≡ collections_of q b
unfolding collections_of
collections_of-eq q a b h = rw h refl

open_collection_at :
    (f : MessageFragmentInfo) (q : ℕ) (a : Assembler)
    → (c : FragmentsCollection) × (collections_of q (open_collection f a) ≡ (
        if f.message.partition == q
        then insert f.key c (collections_of f.message.partition a)
        else collections_of q a))
unfolding open_collection
open_collection_at f q a =
    let c = add_fragment f (new_collection f.total_size f.timestamp) in
    let p = f.message.partition in
    let opened = put_collections p (insert f.key c (collections_of p a)) a in
    (
      c,
      collections_of-eq q (add_offset p c.lowest_offset opened) opened
            (add_offset_collections p c.lowest_offset opened)
          ∙ collections_of-put p q (insert f.key c (collections_of p a)) a,
    )

-- Opening a collection leaves the other keys alone.
open_collection_others :
    (f : MessageFragmentInfo) (q : ℕ) (k : String) (a : Assembler)
    → k ≢ f.key
    → lookup k (collections_of q (open_collection f a)) ≡ lookup k (collections_of q a)
open_collection_others f q k a n =
    let (c, h) = open_collection_at f q a in
    let p = f.message.partition in
    let other : (f.key == k) ≡ false = ground (arith, ==_iff f.key k, n) in
    ap (λ cs. lookup k cs) h ∙ (elim (Bool-cases (p == q)) [
      | inl e ↦
          let at : p ≡ q = (==_iff p q).0 e in
          rw e (
            lookup-insert f.key k c (collections_of p a)
            ∙ rw other (ap (λ z. lookup k (collections_of z a)) at))
      | inr e ↦ rw e refl
    ])

-- The partition's map is made if it is missing, which changes no lookup.
put_same :
    (p q : ℕ) (a : Assembler)
    → collections_of q (put_collections p (collections_of p a) a) ≡ collections_of q a
put_same p q a = collections_of-put p q (collections_of p a) a ∙ (elim (Bool-cases (p == q)) [
  | inl e ↦ let at : p ≡ q = (==_iff p q).0 e in rw e (ap (λ z. collections_of z a) at)
  | inr e ↦ rw e refl
])

process_fragment_info-fresh :
    (f : MessageFragmentInfo) (a : Assembler)
    → lookup f.key (collections_of f.message.partition a) ≡ none
    → process_fragment_info f a
      ≡ some (
        none,
        open_collection f
            (put_collections f.message.partition (collections_of f.message.partition a) a),
      )
unfolding process_fragment_info
process_fragment_info-fresh f a h = ground (arith, h)

HaveFreshKeys-open :
    (f : MessageFragmentInfo) (gs : List MessageFragmentInfo) (a : Assembler)
    → All (λ g. g.key ≢ f.key) gs
    → HaveFreshKeys gs a
    → HaveFreshKeys gs (
        open_collection f
          (put_collections f.message.partition (collections_of f.message.partition a) a))
HaveFreshKeys-open f [] a n h = tt
HaveFreshKeys-open f (g ∷ gs) a (n, ns) (new, others, h) =
    let p = f.message.partition in
    let q = g.message.partition in
    (
      open_collection_others f q g.key (put_collections p (collections_of p a) a) n
          ∙ ap (λ cs. lookup g.key cs) (put_same p q a)
          ∙ new,
      others,
      HaveFreshKeys-open f gs a ns h,
    )

-- Fragments whose keys are pairwise different are not put together: if no collection is open for
-- the keys, no message comes out, however many fragments there are.
pub process_all-HaveFreshKeys :
    (fs : List MessageFragmentInfo) (a : Assembler)
    → HaveFreshKeys fs a
    → (a' : Assembler) × (process_all fs a ≡ some ([], a'))
unfolding process_all
process_all-HaveFreshKeys [] a h = (a, refl)
process_all-HaveFreshKeys (f ∷ fs) a (new, others, h) =
    let p = f.message.partition in
    let opened = open_collection f (put_collections p (collections_of p a) a) in
    let (a', e) = process_all-HaveFreshKeys fs opened (HaveFreshKeys-open f fs a others h) in
    (a', rw (process_fragment_info-fresh f a new, e) refl)
