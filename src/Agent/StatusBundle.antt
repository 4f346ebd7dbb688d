-- ===== src/Agent/StatusBundle.antt =====
-- agent/pkg/status/bundle/generic_status_bundle.go: the objects of one kind on a leaf hub, and the
-- version that grows with their changes.
use multicluster_global_hub.Base.{
  ℕ, suc, String, ◌≡◌, refl, sym, ap, subst, ◌∙◌, inl, inr, Bool, true, false, not, ◌&&◌, Option,
  none, some, List, [], ◌∷◌, ◌++◌, arith, if◌then◌else◌, ◌==◌, ==_iff, string_key, nat_key,
  Bool-cases, Option-cases, is_some, get_elem?, set, take, drop, of_some,
}
use multicluster_global_hub.Version.{BundleVersion}

-- What the code reads of a Kubernetes object, and the rest.
pub record Object : Type 0 where
  pub uid : String
  pub resource_version : String
  pub finalizers : List String
  pub being_deleted : Bool
  pub body : String

pub record StatusBundle : Type 0 where
  pub objects : List Object
  pub leaf_hub_name : String
  pub version : BundleVersion

unfoldable pub new_status_bundle : String → ℕ → StatusBundle
new_status_bundle hub incarnation = record {
  objects = [];
  leaf_hub_name = hub;
  version = record { incarnation = incarnation; generation = 0 };
}

-- `getObjectIndexByUID`
unfoldable pub get_object_index : String → List Object → Option ℕ
get_object_index uid [] = none
get_object_index uid (o ∷ os) =
    let rest = get_object_index uid os in
    if o.uid == uid then some 0 else elim rest [ none ↦ none | some i ↦ some (suc i) ]

abbrev pub next_generation : StatusBundle → BundleVersion
next_generation b = record b.version { generation = suc b.version.generation }

-- `Objects[:index]` and `Objects[index+1:]`
abbrev remove_at : ℕ → List Object → List Object
remove_at i os = take i os ++ drop (suc i) os

-- `UpdateObject`; `manipulate` is the function that the bundle was made with.
unfoldable pub update_object : (Object → Object) → Object → StatusBundle → StatusBundle
unfolding get_object_index
update_object manipulate object b =
    let o = manipulate object in
    elim (get_object_index o.uid b.objects) [
      | none ↦ record b { objects = b.objects ++ o ∷ []; version = next_generation b }
      | some i ↦ elim (get_elem? b.objects i) [
        | none ↦ b
        | some old ↦
            if o.resource_version == old.resource_version
            then b
            else record b { objects = set b.objects i o; version = next_generation b }
      ]
    ]

-- `DeleteObject`
unfoldable pub delete_object : Object → StatusBundle → StatusBundle
unfolding get_object_index
delete_object o b = elim (get_object_index o.uid b.objects) [
  | none ↦ b
  | some i ↦ record b { objects = remove_at i b.objects; version = next_generation b }
]

-- The object that a bundle holds under an id.
abbrev pub object_at : String → List Object → Option Object
object_at uid [] = none
object_at uid (o ∷ os) = if o.uid == uid then some o else object_at uid os

-- No two objects have one id.
abbrev HasDistinctUids : List Object → Type 0
HasDistinctUids [] = Unit
HasDistinctUids (o ∷ os) = (object_at o.uid os ≡ none) × HasDistinctUids os

get_object_index-none :
    (uid : String) (os : List Object) → get_object_index uid os ≡ none → object_at uid os ≡ none
unfolding get_object_index
get_object_index-none uid [] h = refl
get_object_index-none uid (o ∷ os) h = elim (Bool-cases (o.uid == uid)) [
  | inl e ↦ ground (arith, e, h)
  | inr n ↦ elim (Option-cases (get_object_index uid os)) [
    | inl m ↦ ground (arith, n, get_object_index-none uid os m)
    | inr (i, m) ↦ ground (arith, n, m, h)
  ]
]

object_at-append :
    (uid : String) (os : List Object) (o : Object)
    → object_at uid (os ++ o ∷ [])
      ≡ (if is_some (object_at uid os) then object_at uid os else object_at uid (o ∷ []))
object_at-append uid [] o = refl
object_at-append uid (p ∷ os) o = ground (arith, object_at-append uid os o)

-- What an index stands for: the object there, and what is at each id when it is replaced or removed.
abbrev IsIndexOf : String → List Object → ℕ → Type 0
IsIndexOf uid os i =
    (old : Object) × (get_elem? os i ≡ some old)
    × (object_at uid os ≡ some old)
    × ((o : Object) (u : String)
        → o.uid ≡ uid
        → object_at u (set os i o) ≡ (if uid == u then some o else object_at u os))
    × ((u : String)
        → HasDistinctUids os
        → object_at u (remove_at i os) ≡ (if uid == u then none else object_at u os))

index_here : (uid : String) (p : Object) (os : List Object) → p.uid ≡ uid → IsIndexOf uid (p ∷ os) 0
index_here uid p os q =
    let same = λ (u : String). ap (λ x. x == u) q in
    (
      p,
      refl,
      ground (arith, (==_iff p.uid uid).1 q),
      λ o u at. ground (arith, same u, ap (λ x. x == u) at),
      λ u (fresh, d). elim (Bool-cases (uid == u)) [
        | inl e ↦
            let gone = subst (λ x. object_at x os ≡ none) (q ∙ (==_iff uid u).0 e) fresh in
            ground (arith, e, gone)
        | inr n ↦ ground (arith, n, same u)
      ],
    )

index_there :
    (uid : String) (p : Object) (os : List Object) (j : ℕ)
    → (p.uid == uid) ≡ false
    → IsIndexOf uid os j
    → IsIndexOf uid (p ∷ os) (suc j)
index_there uid p os j n (old, at, found, replaced, removed) =
    let apart =
      λ (u : String) (e : (uid == u) ≡ true). sym (ap (λ x. p.uid == x) ((==_iff uid u).0 e)) ∙ n in
    (
      old,
      at,
      ground (arith, n, found),
      λ o u w. elim (Bool-cases (uid == u)) [
        | inl e ↦ ground (arith, e, replaced o u w, apart u e)
        | inr m ↦ ground (arith, m, replaced o u w)
      ],
      λ u (fresh, d). elim (Bool-cases (uid == u)) [
        | inl e ↦ ground (arith, e, removed u d, apart u e)
        | inr m ↦ ground (arith, m, removed u d)
      ],
    )

index_lem :
    (uid : String) (os : List Object) (i : ℕ)
    → get_object_index uid os ≡ some i
    → IsIndexOf uid os i
unfolding get_object_index
index_lem uid [] i h = ground (arith, h)
index_lem uid (p ∷ os) i h = elim (Bool-cases (p.uid == uid)) [
  | inl e ↦
      let at : 0 ≡ i = of_some (ground (arith, e, h)) in
      subst (IsIndexOf uid (p ∷ os)) at (index_here uid p os ((==_iff p.uid uid).0 e))
  | inr n ↦ elim (Option-cases (get_object_index uid os)) [
    | inl m ↦ ground (arith, n, m, h)
    | inr (j, m) ↦
        let at : suc j ≡ i = of_some (ground (arith, n, m, h)) in
        subst (IsIndexOf uid (p ∷ os)) at (index_there uid p os j n (index_lem uid os j m))
  ]
]

-- The object that a bundle holds after an update, and whether the bundle changed.
abbrev pub is_changed : Option Object → Object → Bool
is_changed none o = true
is_changed (some old) o = not (o.resource_version == old.resource_version)

-- `UpdateObject` puts the manipulated object under its id, unless the object that is held there has the
-- same resource version; what is held under the other ids stays, and the generation grows by one
-- exactly when the object was put.
pub update_object_lem :
    (manipulate : Object → Object) (object : Object) (b : StatusBundle) (uid : String)
    → let o = manipulate object in
      let changed = is_changed (object_at o.uid b.objects) o in
      let after = update_object manipulate object b in
      (object_at uid after.objects
        ≡ (if changed && o.uid == uid then some o else object_at uid b.objects))
      × (after.version ≡ (if changed then next_generation b else b.version))
unfolding update_object
update_object_lem manipulate object b uid =
    let o = manipulate object in
    elim (Option-cases (get_object_index o.uid b.objects)) [
      | inl n ↦
          let absent = get_object_index-none o.uid b.objects n in
          elim (Bool-cases (o.uid == uid)) [
            | inl e ↦
                let gone =
                  subst (λ x. object_at x b.objects ≡ none) ((==_iff o.uid uid).0 e) absent in
                (
                  ground (arith, n, absent, e, gone, object_at-append uid b.objects o),
                  ground (arith, n, absent),
                )
            | inr m ↦ (
              ground (arith, n, absent, m, object_at-append uid b.objects o),
              ground (arith, n, absent),
            )
          ]
      | inr (i, e) ↦
          let (old, at, found, replaced, removed) = index_lem o.uid b.objects i e in
          elim (Bool-cases (o.resource_version == old.resource_version)) [
            | inl s ↦ (ground (arith, e, at, found, s), ground (arith, e, at, found, s))
            | inr d ↦ (
              ground (arith, e, at, found, d, replaced o uid refl),
              ground (arith, e, at, found, d),
            )
          ]
    ]

-- On a bundle with distinct ids, `DeleteObject` removes what is held under the id of the object and
-- nothing else, and the generation grows by one exactly when something was held there.
delete_object_lem :
    (o : Object) (b : StatusBundle) (uid : String)
    → HasDistinctUids b.objects
    → let after = delete_object o b in
      (object_at uid after.objects ≡ (if o.uid == uid then none else object_at uid b.objects))
      × (after.version
          ≡ (if is_some (object_at o.uid b.objects) then next_generation b else b.version))
unfolding delete_object
delete_object_lem o b uid d = elim (Option-cases (get_object_index o.uid b.objects)) [
  | inl n ↦
      let absent = get_object_index-none o.uid b.objects n in
      elim (Bool-cases (o.uid == uid)) [
        | inl e ↦
            let gone = subst (λ x. object_at x b.objects ≡ none) ((==_iff o.uid uid).0 e) absent in
            (ground (arith, n, e, gone), ground (arith, n, absent))
        | inr m ↦ (ground (arith, n, m), ground (arith, n, absent))
      ]
  | inr (i, e) ↦
      let (old, at, found, replaced, removed) = index_lem o.uid b.objects i e in
      (ground (arith, e, removed uid d), ground (arith, e, found))
]
