-- ===== src/Effects/Report.antt =====
-- Whose reviews the closure of `MassDeactivate` hands over, and what it reports of them.
use pr_reviewer_service.Prelude.{
  ◌≤◌, String, ◌≡◌, refl, sym, ◌∙◌, ap, ◌⊎◌, inl, inr, Bool, true, false, ◌&&◌, ◌||◌, none, some,
  List, [], ◌∷◌, map, arith, ◌==◌, eq_iff, str_mem, any_of, any_of-of-count, count_if, count,
  select, count_if-map, count_if-select, count_if-none, Bool-cases, Option-cases, ℕ,
}
use pr_reviewer_service.Domain.{opened, status_eq}
use pr_reviewer_service.Database.Schema.{PrRow, UserRow, ReviewerRow, Db, find_pr}
use pr_reviewer_service.Database.Queries.{join_prs, open_assignments}
use pr_reviewer_service.Repository.Monad.{World, Env}
use pr_reviewer_service.Repository.Triple.{
  After, Triple, Triple-pure, Triple-bind, Triple-query, Triple-weaken, Triple-widen,
}
use pr_reviewer_service.Repository.Listings.{
  lookup, entries, group, list_open_prs_by_reviewer, Dict,
}
use pr_reviewer_service.Service.Deactivation.{
  MassDeactivateResult, hand_over_users, deactivate_targets,
}
use pr_reviewer_service.Integrity.Invariant.{pair_count}
use pr_reviewer_service.Effects.Grouping.{rows_of, entries-group}
use pr_reviewer_service.Effects.Deactivate.{switched, Switched, deactivate_users_triple}
use pr_reviewer_service.Effects.Handover.{Inactive, Shrinks-same}
use pr_reviewer_service.Effects.Relieved.{Relieved}
use pr_reviewer_service.Effects.Release.{hand_over_users-Relieved}

-- The pairs of a user and an open pull request among the joined rows.
abbrev open_pair : String → String → ReviewerRow × PrRow → Bool
open_pair p u j = status_eq j.1.status opened && (j.0.reviewer_id == u && j.0.pull_request_id == p)

-- A restriction to `ids` keeps the reviews of one of them.
asked :
    (p u : String) (ids : List String) (xs : List ReviewerRow)
    → str_mem u ids ≡ true
    → pair_count p u (select (λ x. str_mem x.reviewer_id ids) xs) ≡ pair_count p u xs
unfolding count_if select
asked p u ids [] listed = refl
asked p u ids (x ∷ xs) listed =
    ground (arith, asked p u ids xs listed, eq_iff x.reviewer_id u, listed)

module _ (prs : List PrRow) (p u : String) (row : PrRow) (found : find_pr p prs ≡ some row)
    (is_open : row.status ≡ opened) where
  joined_pairs :
      (xs : List ReviewerRow) → count_if (open_pair p u) (join_prs prs xs) ≡ pair_count p u xs
  unfolding join_prs count_if
  joined_pairs [] = refl
  joined_pairs (x ∷ xs) = elim (Option-cases (find_pr x.pull_request_id prs)) [
    | inl missing ↦ ground (arith, joined_pairs xs, eq_iff x.pull_request_id p, missing, found)
    | inr (other, there) ↦
        ground (arith, joined_pairs xs, eq_iff x.pull_request_id p, there, found, is_open)
  ]

  -- The listing holds an open pull request under each of its reviewers who was asked for.
  open_listed :
      (ids : List String) (rows : List ReviewerRow)
      → str_mem u ids ≡ true
      → count p (rows_of u (open_assignments ids prs rows)) ≡ pair_count p u rows
  unfolding open_assignments
  open_listed ids rows listed =
      let mine = select (λ x. str_mem x.reviewer_id ids) rows in
      let joined = join_prs prs mine in
      count_if-map (λ b. b == p) (λ r. r.1) (select (λ r. r.0 == u) (open_assignments ids prs rows))
      ∙ count_if-select (λ r. r.1 == p) (λ r. r.0 == u) (open_assignments ids prs rows)
      ∙ count_if-map (λ r. r.0 == u && r.1 == p) (λ j. (j.0.reviewer_id, j.0.pull_request_id))
          (select (λ j. status_eq j.1.status opened) joined)
      ∙ count_if-select (λ j. j.0.reviewer_id == u && j.0.pull_request_id == p)
          (λ j. status_eq j.1.status opened) joined
      ∙ joined_pairs mine
      ∙ asked p u ids rows listed

switched-Inactive :
    (ids : List String) (t : ℕ) (users : List UserRow) → Inactive ids (map (switched ids t) users)
switched-Inactive ids t users s listed =
    count_if-map (λ x. x.is_active && x.user_id == s) (switched ids t) users
    ∙ count_if-none _ users (λ x. ground (arith, eq_iff x.user_id s, listed))

-- The reviews of the targets `ids` after the closure. None of them has gained one. Whoever is
-- reported to have been relieved of a pull request does not review it, and a target who was not
-- skipped reviews no pull request that is open.
pub record Released (d₀ : Db) (ids : List String) (res : MassDeactivateResult) (d : Db)
    : Type 0 where
  pub prs : d.prs ≡ d₀.prs
  pub fewer :
      (p s : String)
      → str_mem s ids ≡ true
      → pair_count p s d.reviewers ≤ pair_count p s d₀.reviewers
  pub reported :
      (u p : String)
      → str_mem u ids ≡ true
      → str_mem p (entries u res.reassigned) ≡ true
      → pair_count p u d.reviewers ≡ 0
  pub cleared :
      (u p : String) (row : PrRow)
      → str_mem u ids ≡ true
      → lookup u res.skipped ≡ none
      → find_pr p d.prs ≡ some row
      → row.status ≡ opened
      → pair_count p u d.reviewers ≡ 0

-- No review was handed over, and no pull request has changed.
pub record Untouched (d₀ d : Db) : Type 0 where
  pub prs : d.prs ≡ d₀.prs
  pub reviewers : d.reviewers ≡ d₀.reviewers

module _ (e : Env) (d₀ : Db) (i : String) (is : List String) where
  abbrev Listed : Dict (List String) → Db → Type 0
  Listed m d = m ≡ group (open_assignments (i ∷ is) d.prs (e.scan_reviewers d.reviewers)) []

  Switched-Untouched : (d : Db) → Switched d₀ (i ∷ is) d → Untouched d₀ d
  Switched-Untouched d h = record {
    prs = ap (λ (x : Db). x.prs) h.1;
    reviewers = ap (λ (x : Db). x.reviewers) h.1;
  }

  Untouched-of : (d : Db) → (d ≡ d₀) ⊎ Switched d₀ (i ∷ is) d → Untouched d₀ d
  Untouched-of d (inl same) = record {
    prs = ap (λ (x : Db). x.prs) same;
    reviewers = ap (λ (x : Db). x.reviewers) same;
  }
  Untouched-of d (inr h) = Switched-Untouched d h

  listing :
      Triple
        (Switched d₀ (i ∷ is))
        (list_open_prs_by_reviewer e (i ∷ is))
        (λ m d. Listed m d × Switched d₀ (i ∷ is) d)
        (Untouched d₀)
  unfolding list_open_prs_by_reviewer
  listing =
      Triple-bind _ _
        (Triple-query e Switched-Untouched
          {Q = λ rows d.
            (rows ≡ open_assignments (i ∷ is) d.prs (e.scan_reviewers d.reviewers))
            × Switched d₀ (i ∷ is) d}
          _ (λ d h. (refl, h)))
        λ rows. Triple-pure _ (λ d h. (ap (λ r. group r []) h.0, h.1))

  -- An open pull request that was not handed over was not there to be listed.
  Relieved-Released :
      (m : Dict (List String)) (d₁ : Db) (res : MassDeactivateResult) (d : Db)
      → Listed m d₁
      → Switched d₀ (i ∷ is) d₁
      → Relieved (i ∷ is) m d₁ (λ s. false || str_mem s (i ∷ is)) res d
      → Released d₀ (i ∷ is) res d
  Relieved-Released m d₁ res d listed sw h = record {
    prs = h.shrinks.prs ∙ (Switched-Untouched d₁ sw).prs;
    fewer = λ p s k. rw (sym (Switched-Untouched d₁ sw).reviewers) (h.shrinks.fewer p s k);
    reported = h.reported;
    cleared = λ u p row k kept found is_open.
        let found₁ : find_pr p d₁.prs ≡ some row = rw (sym h.shrinks.prs) found in
        let same : count p (entries u m) ≡ pair_count p u d₁.reviewers =
          ap (λ x. count p (entries u x)) listed
          ∙ ap (count p)
              (entries-group u (open_assignments (i ∷ is) d₁.prs (e.scan_reviewers d₁.reviewers)))
          ∙ open_listed d₁.prs p u row found₁ is_open (i ∷ is) (e.scan_reviewers d₁.reviewers) k
          ∙ e.scan_reviewers_keeps _ d₁.reviewers in
        elim (Bool-cases (str_mem p (entries u m))) [
          | inl there ↦ h.cleared u p k k kept there
          | inr missing ↦
              ground
                (arith, h.shrinks.fewer p u k, same, any_of-of-count (λ b. b == p) (entries u m))
        ];
  }

  handing_over :
      (t : String) (m : Dict (List String)) (res : MassDeactivateResult)
      → ((u : String) → entries u res.reassigned ≡ [])
      → Triple
          (λ d. Listed m d × Switched d₀ (i ∷ is) d)
          (hand_over_users e t m (i ∷ is) res)
          (Released d₀ (i ∷ is))
          (Untouched d₀)
  unfolding any_of
  handing_over t m res nothing = record {
    at = λ w h.
        let inactive : Inactive (i ∷ is) w.db.users =
          rw h.1.1 (switched-Inactive (i ∷ is) h.1.0 d₀.users) in
        (Triple-widen _ (λ d k. absurd k)
            (Triple-weaken _ (λ end d k. Relieved-Released m w.db end d h.0 h.1 k)
              (hand_over_users-Relieved e (i ∷ is) m w.db inactive t (λ s. false) (i ∷ is) res
                (λ s k. k)))).at
          w
          (record {
            shrinks = Shrinks-same (i ∷ is) w.db;
            reported = λ u p k there. absurd (ground (arith, rw (nothing u) at there));
            cleared = λ u p k over kept there. absurd (ground (arith, over));
          });
  }

  pub deactivate_targets_triple :
      (t : String)
      → Triple (λ d. d ≡ d₀) (deactivate_targets e t (i ∷ is)) (Released d₀ (i ∷ is)) (Untouched d₀)
  unfolding deactivate_targets entries lookup
  deactivate_targets_triple t =
      Triple-bind _ _ (Triple-widen _ Untouched-of (deactivate_users_triple e d₀ i is))
        λ deactivated. Triple-bind _ _ listing λ m. handing_over t m _ (λ u. refl)

-- The closure that `MassDeactivate` runs, for targets that are not none and from any state. On
-- success no target has gained a review, no target reviews a pull request that the report says was
-- taken from them, and a target whom the report does not name as skipped reviews no pull request
-- that is open. On an error no review was handed over. There is no panic.
pub deactivate_targets_releases :
    (e : Env) (t i : String) (is : List String) (w : World)
    → let (r, w') = deactivate_targets e t (i ∷ is) w in
      After (Released w.db (i ∷ is)) (Untouched w.db) r w'.db
deactivate_targets_releases e t i is w = (deactivate_targets_triple e w.db i is t).at w refl
