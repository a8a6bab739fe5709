-- ===== src/Repository/Listings.antt =====
-- The read-only listings of internal/repository/storage.go and of tx_storage.go: assignments of a
-- reviewer, open pull requests by reviewer, and the statistics.
use pr_reviewer_service.Prelude.{
  String, Option, none, some, List, [], ◌∷◌, ◌++◌, map, ◌==◌, leb, if◌then◌else◌,
}
use pr_reviewer_service.Domain.{PullRequestShort, AssignmentStats}
use pr_reviewer_service.Database.Queries.{
  assignments_of, open_assignments, user_stat, pr_stat, order_by,
}
use pr_reviewer_service.Repository.Monad.{Env, M, pure, query, ◌>>=◌}

-- Go's `map[string]V`, in order of first insertion.
abbrev pub Dict : Type 0 → Type 0
Dict V = List (String × V)

module _ {V : Type 0} where
  unfoldable pub lookup : String → Dict V → Option V
  lookup k [] = none
  lookup k ((j, v) ∷ m) = if j == k then some v else lookup k m

  unfoldable pub insert : String → V → Dict V → Dict V
  insert k v [] = (k, v) ∷ []
  insert k v ((j, w) ∷ m) = if j == k then (k, v) ∷ m else (j, w) ∷ insert k v m

-- `m[k]` for a map of slices: a missing key reads as no entries.
unfoldable pub entries : String → Dict (List String) → List String
unfolding lookup
entries k m = elim (lookup k m) [ none ↦ [] | some vs ↦ vs ]

-- `m[k] = append(m[k], v)`
unfoldable pub push : String → String → Dict (List String) → Dict (List String)
unfolding entries insert
push k v m = insert k (entries k m ++ v ∷ []) m

-- The loop over the rows of `ListOpenPRsByReviewer`.
unfoldable pub group : List (String × String) → Dict (List String) → Dict (List String)
unfolding push
group [] m = m
group ((r, p) ∷ rows) m = group rows (push r p m)

module _ (e : Env) where
  unfoldable pub list_review_assignments : String → M (List PullRequestShort)
  list_review_assignments u = query e (λ d. assignments_of u d.prs (e.scan_reviewers d.reviewers))

  unfoldable pub list_open_prs_by_reviewer : List String → M (Dict (List String))
  list_open_prs_by_reviewer [] = pure []
  list_open_prs_by_reviewer (i ∷ is) = do
    rows ← query e (λ d. open_assignments (i ∷ is) d.prs (e.scan_reviewers d.reviewers))
    pure (group rows [])

  unfoldable pub fetch_assignment_stats : M AssignmentStats
  fetch_assignment_stats = do
    per_user ← query e (λ d.
        order_by (λ a b. leb b.assigned a.assigned) (map (user_stat d) (e.scan_users d.users)))
    per_pr ← query e (λ d.
        order_by (λ a b. leb b.reviewer_count a.reviewer_count)
          (map (pr_stat d) (e.scan_prs d.prs)))
    pure (record { per_user = per_user; per_pr = per_pr })
