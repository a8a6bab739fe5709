-- ===== src/Database/Queries.antt =====
-- The statements of internal/repository/storage.go and tx_storage.go that read and join. A query
-- without ORDER BY reads the rows in whatever order it is handed.
use pr_reviewer_service.Prelude.{
  String, Bool, true, none, some, List, [], ◌∷◌, map, not, ◌==◌, ◌&&◌, leb, str_mem, select,
  count_if, if◌then◌else◌,
}
use pr_reviewer_service.Domain.{
  opened, status_eq, User, PullRequestShort, UserAssignmentStat, PrAssignmentStat,
}
use pr_reviewer_service.Database.Schema.{UserRow, PrRow, ReviewerRow, Db, find_pr}

-- ORDER BY: a stable sort.
module _ {ℓ} {A : Type ℓ} (le : A → A → Bool) where
  unfoldable pub insert_by : A → List A → List A
  insert_by x [] = x ∷ []
  insert_by x (y ∷ ys) = if le x y then x ∷ y ∷ ys else y ∷ insert_by x ys

  unfoldable pub order_by : List A → List A
  unfolding insert_by
  order_by [] = []
  order_by (x ∷ xs) = insert_by x (order_by xs)

-- `SELECT user_id, username, team_name, is_active`
abbrev pub user_of : UserRow → User
user_of x = record {
  id = x.user_id;
  username = x.username;
  team_name = x.team_name;
  is_active = x.is_active;
}

-- `WHERE u.team_name=$1 ORDER BY u.username ASC`
unfoldable pub team_members : (String → String → Bool) → String → List UserRow → List User
unfolding order_by
team_members text_le t rows =
    map user_of
      (order_by (λ a b. text_le a.username b.username) (select (λ x. x.team_name == t) rows))

-- `WHERE team_name=$1 AND is_active=TRUE AND user_id NOT IN (...)`
abbrev pub eligible : String → List String → UserRow → Bool
eligible t exclude x = x.team_name == t && x.is_active && not (str_mem x.user_id exclude)

unfoldable pub active_members : String → List String → List UserRow → List User
active_members t exclude rows = map user_of (select (eligible t exclude) rows)

-- `WHERE user_id = ANY($1)`
unfoldable pub users_in : List String → List UserRow → List User
users_in ids rows = map user_of (select (λ x. str_mem x.user_id ids) rows)

-- `SELECT reviewer_id FROM pull_request_reviewers WHERE pull_request_id=$1 ORDER BY reviewer_id ASC`
unfoldable pub reviewer_ids : (String → String → Bool) → String → List ReviewerRow → List String
unfolding order_by
reviewer_ids text_le p rows =
    order_by text_le (map (λ x. x.reviewer_id) (select (λ x. x.pull_request_id == p) rows))

-- The inner join on the primary key of pull_requests.
unfoldable pub join_prs : List PrRow → List ReviewerRow → List (ReviewerRow × PrRow)
unfolding find_pr
join_prs prs [] = []
join_prs prs (x ∷ xs) =
    let rest = join_prs prs xs in
    elim (find_pr x.pull_request_id prs) [ none ↦ rest | some p ↦ (x, p) ∷ rest ]

abbrev pub short_of : PrRow → PullRequestShort
short_of p = record {
  id = p.pull_request_id;
  name = p.pull_request_name;
  author_id = p.author_id;
  status = p.status;
}

-- `WHERE r.reviewer_id=$1 ORDER BY p.created_at DESC`
unfoldable pub assignments_of : String → List PrRow → List ReviewerRow → List PullRequestShort
unfolding join_prs order_by
assignments_of u prs rows =
    map (λ j. short_of j.1)
      (order_by (λ a b. leb b.1.created_at a.1.created_at)
        (join_prs prs (select (λ x. x.reviewer_id == u) rows)))

-- `WHERE r.reviewer_id = ANY($1) AND p.status='OPEN'`
unfoldable pub open_assignments :
    List String → List PrRow → List ReviewerRow → List (String × String)
unfolding join_prs
open_assignments ids prs rows =
    map (λ j. (j.0.reviewer_id, j.0.pull_request_id))
      (select (λ j. status_eq j.1.status opened)
        (join_prs prs (select (λ x. str_mem x.reviewer_id ids) rows)))

-- The two aggregates of `FetchAssignmentStats`, each over a LEFT JOIN grouped by primary key.
unfoldable pub user_stat : Db → UserRow → UserAssignmentStat
unfolding join_prs
user_stat d u =
    let mine = select (λ x. x.reviewer_id == u.user_id) d.reviewers in
    record {
      user_id = u.user_id;
      username = u.username;
      team_name = u.team_name;
      assigned = count_if (λ x. true) mine;
      active_prs = count_if (λ j. status_eq j.1.status opened) (join_prs d.prs mine);
    }

unfoldable pub pr_stat : Db → PrRow → PrAssignmentStat
pr_stat d p = record {
  pull_request_id = p.pull_request_id;
  reviewer_count = count_if (λ x. x.pull_request_id == p.pull_request_id) d.reviewers;
}
