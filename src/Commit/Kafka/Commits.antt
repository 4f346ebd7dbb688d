-- ===== src/Commit/Kafka/Commits.antt =====
-- transport/kafka/committer.go, commitOffsets: what the committer remembers and asks for.
use multicluster_global_hub.Base.{
  ℕ, suc, ◌≤◌, ◌<◌, ◌≡◌, refl, Bool, true, Option, none, some, List, [], ◌∷◌, eqb_iff, arith,
  nat_key, get_elem?, zero,
}
use multicluster_global_hub.Base.Maps.{lookup, insert, lookup-insert}
use multicluster_global_hub.Commit.Kafka.{commit_offsets}

abbrev pub IsAtLeast : Option ℕ → Option ℕ → Type 0
IsAtLeast b none = Unit
IsAtLeast none (some a) = ⊥
IsAtLeast (some b) (some a) = a ≤ b

-- What the committer remembers of a partition never goes back, whatever offsets it is given and
-- whichever commits fail.
pub commit_offsets-IsAtLeast :
    (accepts : ℕ → ℕ → Bool) (os commits : List (ℕ × ℕ)) (p : ℕ)
    → IsAtLeast (lookup p (commit_offsets accepts os commits).commits) (lookup p commits)
unfolding commit_offsets
commit_offsets-IsAtLeast accepts [] commits p = ground arith
commit_offsets-IsAtLeast accepts ((q, o) ∷ os) commits p = ground (
  arith,
  eqb_iff q p,
  lookup-insert q p o commits,
  commit_offsets-IsAtLeast accepts os commits p,
  commit_offsets-IsAtLeast accepts os (insert q o commits) p,
)

-- Every request is for an offset past the one that is remembered for its partition.
commit_offsets_requests :
    (accepts : ℕ → ℕ → Bool) (os commits : List (ℕ × ℕ)) (i p o c : ℕ)
    → get_elem? (commit_offsets accepts os commits).requests i ≡ some (p, o)
    → lookup p commits ≡ some c
    → c < o
unfolding commit_offsets
commit_offsets_requests accepts [] commits i p o c h k = ground arith
commit_offsets_requests accepts ((q, n) ∷ os) commits zero p o c h k =
    ground (arith, eqb_iff q p, commit_offsets_requests accepts os commits zero p o c)
commit_offsets_requests accepts ((q, n) ∷ os) commits (suc i) p o c h k = ground (
  arith,
  eqb_iff q p,
  lookup-insert q p n commits,
  commit_offsets_requests accepts os commits (suc i) p o c,
  commit_offsets_requests accepts os (insert q n commits) i p o c,
  commit_offsets_requests accepts os (insert q n commits) i p o n,
)

Covers : List (ℕ × ℕ) → List (ℕ × ℕ) → Type 0
Covers [] commits = Unit
Covers ((p, o) ∷ os) commits = IsAtLeast (lookup p commits) (some o) × Covers os commits

commit_offsets-Covers :
    (os commits : List (ℕ × ℕ)) → Covers os (commit_offsets (λ _ _. true) os commits).commits
unfolding commit_offsets Covers
commit_offsets-Covers [] commits = tt
commit_offsets-Covers ((q, n) ∷ os) commits = ground (
  arith,
  eqb_iff q q,
  lookup-insert q q n commits,
  commit_offsets-Covers os commits,
  commit_offsets-Covers os (insert q n commits),
  commit_offsets-IsAtLeast (λ _ _. true) os commits q,
  commit_offsets-IsAtLeast (λ _ _. true) os (insert q n commits) q,
)

commit_offsets_covered :
    (accepts : ℕ → ℕ → Bool) (os commits : List (ℕ × ℕ))
    → Covers os commits
    → (commit_offsets accepts os commits).requests ≡ []
unfolding commit_offsets Covers
commit_offsets_covered accepts [] commits k = refl
commit_offsets_covered accepts ((q, n) ∷ os) commits k =
    ground (arith, commit_offsets_covered accepts os commits)

-- After a bulk in which every commit succeeds, a second bulk of the same offsets asks for nothing.
pub commit_offsets-commit_offsets :
    (accepts : ℕ → ℕ → Bool) (os commits : List (ℕ × ℕ))
    → (commit_offsets accepts os (commit_offsets (λ _ _. true) os commits).commits).requests ≡ []
commit_offsets-commit_offsets accepts os commits =
    commit_offsets_covered accepts os _ (commit_offsets-Covers os commits)
