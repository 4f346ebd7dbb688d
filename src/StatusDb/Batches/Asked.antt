-- ===== src/StatusDb/Batches/Asked.antt =====
-- policies_batch_builder.go: what a sequence of calls asks for, by kind of call.
use multicluster_global_hub.Base.{
  String, ◌≡◌, refl, sym, ap, ◌∙◌, inl, inr, Bool, ◌&&◌, ◌||◌, Option, List, [], ◌∷◌, ◌++◌, arith,
  ◌==◌, ==_iff, string_key, nat_key, Bool-cases, any,
}
use mathlib.Core.List.{append-nil, append_assoc}
use multicluster_global_hub.StatusDb.Batches.Pending.{
  Asked, group_drop, ask, ask_all, nothing_asked,
}
use multicluster_global_hub.StatusDb.Batches.Policies.{
  Call, insert_row, update_policy, update_cluster, delete_policy, delete_cluster,
}
use multicluster_global_hub.Compliance.{member}
use multicluster_global_hub.StatusDb.Batches.Calls.{
  member-append, pick, drops, pick-append, as_insert, as_policy_update, as_update, as_policy_drop,
  as_drop,
}

ask_all-pick {ℓ} :
    {B : Type ℓ} (part : Asked → List B) (f : Call → Option B)
    → ((c : Call) (a : Asked) → part (ask c a) ≡ part a ++ pick f (c ∷ []))
    → (cs : List Call) (a : Asked) → part (ask_all cs a) ≡ part a ++ pick f cs
ask_all-pick part f step [] a = sym (append-nil (part a))
ask_all-pick part f step (c ∷ cs) a =
    ask_all-pick part f step cs (ask c a)
    ∙ ap (λ l. l ++ pick f cs) (step c a)
    ∙ append_assoc (part a) (pick f (c ∷ [])) (pick f cs)
    ∙ ap (λ l. part a ++ l) (sym (pick-append f (c ∷ []) cs))

ask-inserts : (c : Call) (a : Asked) → (ask c a).inserts ≡ a.inserts ++ pick as_insert (c ∷ [])
ask-inserts (insert_row r) a = refl
ask-inserts (update_policy p s) a = sym (append-nil a.inserts)
ask-inserts (update_cluster r) a = sym (append-nil a.inserts)
ask-inserts (delete_policy p) a = sym (append-nil a.inserts)
ask-inserts (delete_cluster p c) a = sym (append-nil a.inserts)

pub ask_all-inserts : (cs : List Call) → (ask_all cs nothing_asked).inserts ≡ pick as_insert cs
ask_all-inserts cs = ask_all-pick (λ a. a.inserts) as_insert ask-inserts cs nothing_asked

ask-policy_updates :
    (c : Call) (a : Asked)
    → (ask c a).policy_updates ≡ a.policy_updates ++ pick as_policy_update (c ∷ [])
ask-policy_updates (insert_row r) a = sym (append-nil a.policy_updates)
ask-policy_updates (update_policy p s) a = refl
ask-policy_updates (update_cluster r) a = sym (append-nil a.policy_updates)
ask-policy_updates (delete_policy p) a = sym (append-nil a.policy_updates)
ask-policy_updates (delete_cluster p c) a = sym (append-nil a.policy_updates)

pub ask_all-policy_updates :
    (cs : List Call) → (ask_all cs nothing_asked).policy_updates ≡ pick as_policy_update cs
ask_all-policy_updates cs =
    ask_all-pick (λ a. a.policy_updates) as_policy_update ask-policy_updates cs nothing_asked

ask-updates : (c : Call) (a : Asked) → (ask c a).updates ≡ a.updates ++ pick as_update (c ∷ [])
ask-updates (insert_row r) a = sym (append-nil a.updates)
ask-updates (update_policy p s) a = sym (append-nil a.updates)
ask-updates (update_cluster r) a = refl
ask-updates (delete_policy p) a = sym (append-nil a.updates)
ask-updates (delete_cluster p c) a = sym (append-nil a.updates)

pub ask_all-updates : (cs : List Call) → (ask_all cs nothing_asked).updates ≡ pick as_update cs
ask_all-updates cs = ask_all-pick (λ a. a.updates) as_update ask-updates cs nothing_asked

ask-policy_drops :
    (c : Call) (a : Asked) → (ask c a).policy_drops ≡ a.policy_drops ++ pick as_policy_drop (c ∷ [])
ask-policy_drops (insert_row r) a = sym (append-nil a.policy_drops)
ask-policy_drops (update_policy p s) a = sym (append-nil a.policy_drops)
ask-policy_drops (update_cluster r) a = sym (append-nil a.policy_drops)
ask-policy_drops (delete_policy p) a = refl
ask-policy_drops (delete_cluster p c) a = sym (append-nil a.policy_drops)

pub ask_all-policy_drops :
    (cs : List Call) → (ask_all cs nothing_asked).policy_drops ≡ pick as_policy_drop cs
ask_all-policy_drops cs =
    ask_all-pick (λ a. a.policy_drops) as_policy_drop ask-policy_drops cs nothing_asked

-- Whether the groups hold the cluster under the policy.
abbrev pub in_groups : String → String → List (String × List String) → Bool
in_groups p c groups = any (λ e. e.0 == p && member c e.1) groups

in_groups-group_drop :
    (p c q d : String) (groups : List (String × List String))
    → in_groups q d (group_drop p c groups) ≡ ((p == q && c == d) || in_groups q d groups)
in_groups-group_drop p c q d [] = ground arith
in_groups-group_drop p c q d ((k, cs) ∷ groups) = elim (Bool-cases (k == p)) [
  | inl e ↦ let at = (==_iff k p).0 e in ground (arith, e, at, member-append d cs (c ∷ []))
  | inr n ↦ ground (arith, n, in_groups-group_drop p c q d groups)
]

in_groups-ask_all :
    (q d : String) (cs : List Call) (a : Asked)
    → in_groups q d (ask_all cs a).drop_groups
      ≡ (in_groups q d a.drop_groups || drops q d (pick as_drop cs))
in_groups-ask_all q d [] a = ground arith
in_groups-ask_all q d (insert_row r ∷ cs) a = in_groups-ask_all q d cs (ask (insert_row r) a)
in_groups-ask_all q d (update_policy p s ∷ cs) a =
    in_groups-ask_all q d cs (ask (update_policy p s) a)
in_groups-ask_all q d (update_cluster r ∷ cs) a =
    in_groups-ask_all q d cs (ask (update_cluster r) a)
in_groups-ask_all q d (delete_policy p ∷ cs) a = in_groups-ask_all q d cs (ask (delete_policy p) a)
in_groups-ask_all q d (delete_cluster p c ∷ cs) a = ground (
  arith,
  in_groups-ask_all q d cs (ask (delete_cluster p c) a),
  in_groups-group_drop p c q d a.drop_groups,
)

pub ask_all-drop_groups :
    (q d : String) (cs : List Call)
    → in_groups q d (ask_all cs nothing_asked).drop_groups ≡ drops q d (pick as_drop cs)
ask_all-drop_groups q d cs = in_groups-ask_all q d cs nothing_asked
