-- ===== src/Effects/Statistics.antt =====
-- What `FetchAssignmentStats` reports, against counts of the tables.
use pr_reviewer_service.Prelude.{
  ℕ, ◌≤◌, ◌≡◌, refl, ◌∙◌, ap, Bool, true, false, ◌&&◌, Option, none, some, List, [], ◌∷◌, map,
  arith, leb, not, ◌==◌, count_if-none, count_if, count_if_mono, select, count_if-map,
  count_if-select,
}
use pr_reviewer_service.Domain.{
  opened, status_eq, UserAssignmentStat, PrAssignmentStat, AssignmentStats,
}
use pr_reviewer_service.Database.Schema.{UserRow, PrRow, ReviewerRow, Db, find_pr}
use pr_reviewer_service.Database.Queries.{insert_by, order_by, join_prs, user_stat, pr_stat}
use pr_reviewer_service.Repository.Monad.{World, Env}
use pr_reviewer_service.Repository.Triple.{
  Triple, Triple-pure, Triple-bind, Triple-query, Triple-given, After,
}
use pr_reviewer_service.Repository.Listings.{fetch_assignment_stats}
use pr_reviewer_service.Effects.Reading.{count_if-order_by}

-- A list in descending order of a number.
abbrev pub Descending : {A : Type 0} → (A → ℕ) → List A → Type 0
Descending f [] = Unit
Descending f (x ∷ []) = Unit
Descending f (x ∷ y ∷ ys) = (f y ≤ f x) × Descending f (y ∷ ys)

module _ {A : Type 0} (f : A → ℕ) where
  abbrev falling : A → A → Bool
  falling a b = leb (f b) (f a)

  insert_by-Descending :
      (x : A) (ys : List A) → Descending f ys → Descending f (insert_by falling x ys)
  unfolding insert_by
  insert_by-Descending x [] h = tt
  insert_by-Descending x (y ∷ []) h = ground arith
  insert_by-Descending x (y ∷ z ∷ zs) h = ground (arith, insert_by-Descending x (z ∷ zs) h.1)

  order_by-Descending : (xs : List A) → Descending f (order_by falling xs)
  unfolding order_by
  order_by-Descending [] = tt
  order_by-Descending (x ∷ xs) =
      insert_by-Descending x (order_by falling xs) (order_by-Descending xs)

-- Whether a review is of an open pull request.
abbrev pub is_open : Option PrRow → Bool
is_open none = false
is_open (some p) = status_eq p.status opened

-- The figures of one user, told by the tables.
abbrev pub figures : Db → UserRow → UserAssignmentStat
figures d u = record {
  user_id = u.user_id;
  username = u.username;
  team_name = u.team_name;
  assigned = count_if (λ x. x.reviewer_id == u.user_id) d.reviewers;
  active_prs =
      count_if (λ x. x.reviewer_id == u.user_id && is_open (find_pr x.pull_request_id d.prs))
        d.reviewers;
}

-- The figures of one pull request.
abbrev pub pr_figures : Db → PrRow → PrAssignmentStat
pr_figures d p = record {
  pull_request_id = p.pull_request_id;
  reviewer_count = count_if (λ x. x.pull_request_id == p.pull_request_id) d.reviewers;
}

count_if-join_prs :
    (prs : List PrRow) (xs : List ReviewerRow)
    → count_if (λ j. status_eq j.1.status opened) (join_prs prs xs)
      ≡ count_if (λ x. is_open (find_pr x.pull_request_id prs)) xs
unfolding join_prs count_if
count_if-join_prs prs [] = refl
count_if-join_prs prs (x ∷ xs) = ground (arith, count_if-join_prs prs xs)

count_and_true :
    {A : Type 0} (p : A → Bool) (xs : List A) → count_if (λ x. p x && true) xs ≡ count_if p xs
unfolding count_if
count_and_true p [] = refl
count_and_true p (x ∷ xs) = ground (arith, count_and_true p xs)

user_stat-figures : (d : Db) (u : UserRow) → user_stat d u ≡ figures d u
unfolding user_stat
user_stat-figures d u =
    let mine = select (λ x. x.reviewer_id == u.user_id) d.reviewers in
    let total : count_if (λ x. true) mine ≡ count_if (λ x. x.reviewer_id == u.user_id) d.reviewers =
      count_if-select (λ x. true) (λ x. x.reviewer_id == u.user_id) d.reviewers
      ∙ count_and_true (λ x. x.reviewer_id == u.user_id) d.reviewers in
    let active : count_if (λ j. status_eq j.1.status opened) (join_prs d.prs mine)
        ≡ count_if (λ x. x.reviewer_id == u.user_id && is_open (find_pr x.pull_request_id d.prs))
            d.reviewers =
      count_if-join_prs d.prs mine
      ∙ count_if-select (λ x. is_open (find_pr x.pull_request_id d.prs))
          (λ x. x.reviewer_id == u.user_id) d.reviewers in
    λ i. record {
      user_id = u.user_id;
      username = u.username;
      team_name = u.team_name;
      assigned = total i;
      active_prs = active i;
    }

-- Nobody has more open reviews than reviews.
active-le-assigned : (d : Db) (u : UserRow) → (figures d u).active_prs ≤ (figures d u).assigned
active-le-assigned d u =
    count_if_mono (λ x. x.reviewer_id == u.user_id && is_open (find_pr x.pull_request_id d.prs))
      (λ x. x.reviewer_id == u.user_id) d.reviewers (λ x h. ground arith)

-- The report on the tables `d`.
pub record Reported (d : Db) (s : AssignmentStats) : Type 0 where
  -- the users by falling number of reviews, the pull requests by falling number of reviewers
  pub users_fall : Descending (λ x. x.assigned) s.per_user
  pub prs_fall : Descending (λ x. x.reviewer_count) s.per_pr
  -- the figures of every user and no others, each as often as the user stands in the table
  pub users_all :
      (p : UserAssignmentStat → Bool)
      → count_if p s.per_user ≡ count_if (λ u. p (figures d u)) d.users
  pub prs_all :
      (p : PrAssignmentStat → Bool) → count_if p s.per_pr ≡ count_if (λ x. p (pr_figures d x)) d.prs
  -- nobody with more open reviews than reviews
  pub no_excess : count_if (λ x. not (leb x.active_prs x.assigned)) s.per_user ≡ 0

count_if-cong :
    {A : Type 0} (p q : A → Bool) (xs : List A)
    → ((x : A) → p x ≡ q x)
    → count_if p xs ≡ count_if q xs
unfolding count_if
count_if-cong p q [] h = refl
count_if-cong p q (x ∷ xs) h = ground (arith, h x, count_if-cong p q xs h)

module _ (e : Env) (d : Db) where
  per_user : List UserAssignmentStat
  per_user = order_by (λ a b. leb b.assigned a.assigned) (map (user_stat d) (e.scan_users d.users))

  per_pr : List PrAssignmentStat
  per_pr =
      order_by (λ a b. leb b.reviewer_count a.reviewer_count) (map (pr_stat d) (e.scan_prs d.prs))

  users_all :
      (p : UserAssignmentStat → Bool)
      → count_if p per_user ≡ count_if (λ u. p (figures d u)) d.users
  unfolding per_user
  users_all p =
      count_if-order_by (λ a b. leb b.assigned a.assigned) p
        (map (user_stat d) (e.scan_users d.users))
      ∙ count_if-map p (user_stat d) (e.scan_users d.users)
      ∙ e.scan_users_keeps (λ u. p (user_stat d u)) d.users
      ∙ count_if-cong (λ u. p (user_stat d u)) (λ u. p (figures d u)) d.users
          (λ u. ap p (user_stat-figures d u))

  prs_all :
      (p : PrAssignmentStat → Bool) → count_if p per_pr ≡ count_if (λ x. p (pr_figures d x)) d.prs
  unfolding per_pr pr_stat
  prs_all p =
      count_if-order_by (λ a b. leb b.reviewer_count a.reviewer_count) p
        (map (pr_stat d) (e.scan_prs d.prs))
      ∙ count_if-map p (pr_stat d) (e.scan_prs d.prs)
      ∙ e.scan_prs_keeps (λ x. p (pr_stat d x)) d.prs

  no_excess : count_if (λ x. not (leb x.active_prs x.assigned)) per_user ≡ 0
  no_excess =
      users_all (λ x. not (leb x.active_prs x.assigned))
      ∙ count_if-none (λ u. not (leb (figures d u).active_prs (figures d u).assigned)) d.users
          (λ u. ground (arith, active-le-assigned d u))

  report : Reported d (record { per_user = per_user; per_pr = per_pr })
  unfolding per_user per_pr
  report = record {
    users_fall = order_by-Descending (λ x. x.assigned) (map (user_stat d) (e.scan_users d.users));
    prs_fall = order_by-Descending (λ x. x.reviewer_count) (map (pr_stat d) (e.scan_prs d.prs));
    users_all = users_all;
    prs_all = prs_all;
    no_excess = no_excess;
  }

module _ (e : Env) (d₀ : Db) where
  stats_triple :
      Triple
        (λ d. d ≡ d₀)
        (fetch_assignment_stats e)
        (λ s d. (d ≡ d₀) × Reported d₀ s)
        (λ d. d ≡ d₀)
  unfolding fetch_assignment_stats per_user per_pr
  stats_triple =
      Triple-bind _ _
        (Triple-query e (λ d h. h) {Q = λ s d. (s ≡ per_user e d₀) × (d ≡ d₀)} _
          (λ d same. (ap (per_user e) same, same)))
        λ users. Triple-given _ λ at_users.
          Triple-bind _ _
            (Triple-query e (λ d h. h) {Q = λ s d. (s ≡ per_pr e d₀) × (d ≡ d₀)} _
              (λ d same. (ap (per_pr e) same, same)))
            λ prs.
              Triple-given _
                λ at_prs. Triple-pure _ (λ d same. (same, rw (at_users, at_prs) (report e d₀)))

-- `FetchAssignmentStats` changes nothing. Its report holds the figures of every user and of every
-- pull request and no others: how many reviews the table of reviewers gives a user, how many of
-- these are of open pull requests, and how many reviewers it gives a pull request. Both lists fall
-- by the number of reviews, and nobody has more open reviews than reviews.
pub fetch_assignment_stats_outcome :
    (e : Env) (w : World)
    → let (r, w') = fetch_assignment_stats e w in
      After (λ s d. (d ≡ w.db) × Reported w.db s) (λ d. d ≡ w.db) r w'.db
fetch_assignment_stats_outcome e w = (stats_triple e w.db).at w refl
