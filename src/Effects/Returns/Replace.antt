-- ===== src/Effects/Returns/Replace.antt =====
-- `ReplaceReviewer` where no call to the database fails.
use pr_reviewer_service.Prelude.{
  ℕ, ◌≤◌, ◌<◌, String, ◌≡◌, refl, sym, ap, Bool, true, false, not, ◌&&◌, none, some, [], ◌∷◌, arith,
  is_some, count_if, count, count_if_mono, count_if-select, ◌==◌, eq_refl, eq_iff, Bool-cases, inl,
  inr,
}
use pr_reviewer_service.Domain.{
  merged, status_eq, err_pr_not_found, err_pr_merged, err_reviewer_absent,
}
use pr_reviewer_service.Picker.{is_blank}
use pr_reviewer_service.Database.Schema.{
  UserRow, PrRow, Db, find_user, find_pr, is_reviewer, reviews, unassigned,
}
use pr_reviewer_service.Database.Statements.{done, delete_reviewer, insert_event}
use pr_reviewer_service.Repository.Monad.{Env, not_found, same_error, domain}
use pr_reviewer_service.Repository.Triple.{Triple, Triple-bind, Triple-on_error, Triple-given}
use pr_reviewer_service.Repository.Calm.{Never, calm_query, calm_query_row, calm_exec}
use pr_reviewer_service.Repository.PullRequests.{
  removal_batch, remove_reviewer, insert_reviewers, assign_new, replace_reviewer_body,
}
use pr_reviewer_service.Integrity.Invariant.{IsConsistent, pair_count}
use pr_reviewer_service.Effects.Opening.{Insertable, reviewers_batch-done, find_user-counted}
use pr_reviewer_service.Effects.Takeover.{Fits}
use pr_reviewer_service.Effects.Returns.{Present}
use pr_reviewer_service.Effects.Returns.Create.{raise_if_calm}

-- Every user has a name that is not blank.
abbrev pub NamedUsers : Db → Type 0
NamedUsers d = (u : String) → is_blank u ≡ true → count_if (λ x. x.user_id == u) d.users ≡ 0

-- Somebody who has no part in a pull request yet.
abbrev pub free : Db → String → String → String → UserRow → Bool
free d p old author x =
    not (old == x.user_id) && not (author == x.user_id) && not (is_reviewer p x.user_id d.reviewers)

-- What a reassignment asks for: an open pull request that `old` reviews, and an active member of the
-- same team who has no part in it.
pub record Reassignable (p old : String) (d : Db) : Type 0 where
  pub row : PrRow
  pub found : find_pr p d.prs ≡ some row
  pub is_open : status_eq row.status merged ≡ false
  pub old_row : UserRow
  pub old_known : find_user old d.users ≡ some old_row
  pub is_reviewing : is_reviewer p old d.reviewers ≡ true
  pub somebody :
      0
      < count_if
          (λ x. (x.team_name == old_row.team_name && x.is_active) && free d p old row.author_id x)
          d.users

module _ (p old new : String) (d : Db) (h : Reassignable p old d) (named : NamedUsers d)
    (consistent : IsConsistent d) (t : ℕ) (source : String)
    (fits : Fits d p old h.row.author_id h.old_row.team_name new) where
  new_counted : 0 < count_if (λ x. x.user_id == new) d.users
  new_counted =
      let fewer : count_if
            (λ x. (x.team_name == h.old_row.team_name && x.is_active) && x.user_id == new) d.users
          ≤ count_if (λ x. x.user_id == new) d.users =
        count_if_mono _ _ d.users (λ x k. ground (arith, k)) in
      omega (arith, fits.member, fewer)

  new_named : is_blank new ≡ false
  new_named = elim (Bool-cases (is_blank new)) [
    | inr n ↦ n
    | inl y ↦ absurd (omega (arith, named new y, new_counted))
  ]

  new_known : (s : String) → is_some (find_user s d.users) ≡ false → count s (new ∷ []) ≡ 0
  unfolding count_if
  new_known s n = elim (Bool-cases (new == s)) [
    | inr o ↦ ground (arith, o)
    | inl y ↦
        let same : new ≡ s = (eq_iff new s).0 y in
        let none_there = find_user-counted s d.users n in
        absurd (omega (arith, new_counted, rw (sym same) at none_there))
  ]

  -- The tables after `removeReviewer`.
  abbrev removed : Db
  removed = record (delete_reviewer p old d) {
    events =
        record {
          pull_request_id = p;
          reviewer_id = old;
          event_type = unassigned;
          source = source;
          created_at = t;
        }
        ∷ d.events;
  }

  removal_batch-done : removal_batch t p old source d ≡ done removed
  unfolding removal_batch insert_event delete_reviewer
  removal_batch-done = rw (h.found, h.old_known) refl

  fewer_pairs : (s : String) → pair_count p s removed.reviewers ≤ pair_count p s d.reviewers
  unfolding delete_reviewer
  fewer_pairs s =
      let kept = count_if-select (reviews p s) (λ x. not (reviews p old x)) d.reviewers in
      let fewer : count_if (λ x. not (reviews p old x) && reviews p s x) d.reviewers
          ≤ pair_count p s d.reviewers =
        count_if_mono _ _ d.reviewers (λ x k. ground (arith, k)) in
      omega (arith, kept, fewer)

  new-Insertable : Insertable p (new ∷ []) removed
  unfolding count_if find_pr delete_reviewer
  new-Insertable = record {
    pr_known = rw h.found refl;
    users_known = new_known;
    no_duplicate = λ s. elim (Bool-cases (new == s)) [
      | inr o ↦ rw o (omega (arith, fewer_pairs s, consistent.no_duplicate p s))
      | inl y ↦
          let same : new ≡ s = (eq_iff new s).0 y in
          let none_yet = (fits.fresh new_named).2 in
          rw⁻¹ same (rw (eq_refl new) (omega (arith, fewer_pairs new, none_yet)))
    ];
  }

  new_not_empty : (new == "") ≡ false
  unfolding is_blank
  new_not_empty = elim (Bool-cases (new == "")) [
    | inr o ↦ o
    | inl y ↦
        let same : new ≡ "" = (eq_iff new "").0 y in
        let blank : is_blank new ≡ true = ap is_blank same in
        absurd (ground (arith, blank, new_named))
  ]

  removed-Present : (x : Db) → x.prs ≡ removed.prs → Present p x
  unfolding delete_reviewer
  removed-Present x same = (h.row, rw same h.found)

  module _ (e : Env) (calm : (n : ℕ) → e.fault n ≡ none) where
    assign_new_calm : Triple (λ x. x ≡ removed) (assign_new e t p new source) (λ _. Present p) Never
    unfolding assign_new insert_reviewers
    assign_new_calm = rw new_not_empty (
        calm_exec e calm _ λ x same.
          let (d', wrote, prs) =
            reviewers_batch-done t p source (new ∷ []) removed new-Insertable in
          (d', rw same wrote, removed-Present d' prs))

    pub body_calm :
        Triple (λ x. x ≡ d) (replace_reviewer_body e p old new source t) (λ _. Present p) Never
    unfolding replace_reviewer_body remove_reviewer
    body_calm =
        Triple-bind _ _
          (Triple-on_error (not_found err_pr_not_found same_error) _ (
            calm_query_row e calm {Q = λ r x. (r ≡ h.row) × (x ≡ d)} (λ x. find_pr p x.prs)
              (λ x same. (h.row, rw same h.found, (refl, same)))))
          λ r. Triple-given _ λ is_row.
            Triple-bind _ _ (raise_if_calm e calm d _ (domain err_pr_merged) (rw is_row h.is_open))
              λ _.
                Triple-bind _ _
                  (calm_query e calm {Q = λ b x. (b ≡ true) × (x ≡ d)} _
                    (λ x same. (rw same h.is_reviewing, same)))
                  λ b. Triple-given _ λ is_there.
                    Triple-bind _ _
                      (raise_if_calm e calm d _ (domain err_reviewer_absent) (rw is_there refl))
                      λ _.
                        Triple-bind _ _
                          (calm_exec e calm {Q = λ x. x ≡ removed} _
                            (λ x same. (removed, rw same removal_batch-done, refl)))
                          λ _. assign_new_calm
