-- ===== src/Effects/Handover.antt =====
-- Handing over one review of a user who was deactivated, in `MassDeactivate`.
use pr_reviewer_service.Prelude.{
  ◌≤◌, ◌<◌, String, ◌≡◌, refl, ◌∙◌, ◌⊎◌, inl, inr, true, false, ◌&&◌, List, [], ◌∷◌, arith, ◌==◌,
  eq_iff, str_mem, count_if, count, count_if_mono, Bool-cases, eq_refl,
}
use pr_reviewer_service.Domain.{User}
use pr_reviewer_service.Picker.Laws.{IsPickOf, user_ids}
use pr_reviewer_service.Database.Schema.{UserRow, Db, empty_db}
use pr_reviewer_service.Database.Queries.{eligible, active_members}
use pr_reviewer_service.Repository.Monad.{Env}
use pr_reviewer_service.Repository.Triple.{
  Triple, Triple-pure, Triple-bind, Triple-weaken, Triple-widen, Triple-given,
  Triple-update_metrics,
}
use pr_reviewer_service.Service.Assignment.{first, pick_one}
use pr_reviewer_service.Service.Deactivation.{choose_new, hand_over}
use pr_reviewer_service.Integrity.Invariant.{pair_count}
use pr_reviewer_service.Integrity.Reads.{list_active_team_members_reads, get_pull_request_reads}
use pr_reviewer_service.Integrity.Candidates.{Triple-pick}
use pr_reviewer_service.Integrity.Assignment.{Triple-first, pick_nonempty}
use pr_reviewer_service.Effects.Choice.{count-candidates}
use pr_reviewer_service.Effects.Replace.{Succeeded, replace_reviewer_effect}

-- None of `ids` is active.
abbrev pub Inactive : List String → List UserRow → Type 0
Inactive ids users =
    (s : String) → str_mem s ids ≡ true → count_if (λ x. x.is_active && x.user_id == s) users ≡ 0

-- Users and pull requests are the same, and none of `ids` has gained a review.
pub record Shrinks (ids : List String) (d₁ d : Db) : Type 0 where
  pub users : d.users ≡ d₁.users
  pub prs : d.prs ≡ d₁.prs
  pub fewer :
      (p s : String)
      → str_mem s ids ≡ true
      → pair_count p s d.reviewers ≤ pair_count p s d₁.reviewers

pub Shrinks-same : (ids : List String) (d : Db) → Shrinks ids d d
Shrinks-same ids d = record { users = refl; prs = refl; fewer = λ p s h. omega arith }

pub Shrinks-next :
    (ids : List String) (a b c : Db) → Shrinks ids a b → Shrinks ids b c → Shrinks ids a c
Shrinks-next ids a b c h k = record {
  users = k.users ∙ h.users;
  prs = k.prs ∙ h.prs;
  fewer = λ p s listed. omega (arith, h.fewer p s listed, k.fewer p s listed);
}

-- A new reviewer is none of `ids`, unless nobody was found.
abbrev NotAmong : List String → String → Type 0
NotAmong ids new = (new == "") ≡ false → str_mem new ids ≡ false

module _ (e : Env) (ids : List String) (d₁ : Db) (inactive : Inactive ids d₁.users) where
  picked-NotAmong :
      (t new : String) (exclude : List String) (users : List User) (chosen : List String)
      → users ≡ active_members t exclude (e.scan_users d₁.users)
      → IsPickOf (user_ids users) 1 chosen
      → 0 < count new chosen
      → NotAmong ids new
  picked-NotAmong t new exclude users chosen from h there some_new =
      elim (Bool-cases (str_mem new ids)) [
        | inr other ↦ other
        | inl listed ↦
            let offered : 0 < count new (user_ids users) =
              omega (arith, there, h.from_candidates new) in
            let read : 0 < count new (user_ids (active_members t exclude (e.scan_users d₁.users))) =
              rw from at offered in
            absurd (
              omega (
                arith,
                read,
                count-candidates e d₁ t exclude new,
                count_if_mono (λ x. eligible t exclude x && x.user_id == new)
                    (λ x. x.is_active && x.user_id == new) d₁.users (λ x k. ground (arith, k)),
                inactive new listed,
              ))
      ]

  choose_new-NotAmong :
      (t : String) (exclude : List String) (users : List User)
      → users ≡ active_members t exclude (e.scan_users d₁.users)
      → Triple
          (λ d. d ≡ d₁)
          (choose_new e users)
          (λ new d. NotAmong ids new × (d ≡ d₁))
          (λ d. d ≡ d₁)
  unfolding choose_new pick_one
  choose_new-NotAmong t exclude [] from =
      Triple-pure "" (λ d h. (λ some_new. absurd (ground (arith, eq_refl "")), h))
  choose_new-NotAmong t exclude (c ∷ cs) from = Triple-bind _ _ (Triple-pick e (c ∷ cs) 1) λ chosen.
      Triple-given (first chosen) λ h.
        Triple-weaken (first chosen)
          (λ new d k. (picked-NotAmong t new exclude (c ∷ cs) chosen from h k.0, k.1))
          (Triple-first chosen (pick_nonempty e empty_db (c ∷ cs) chosen refl h))

  replaced-Shrinks :
      (p old new : String) (d : Db)
      → NotAmong ids new
      → Succeeded d₁ p old new "TEAM_DEACTIVATION" d
      → Shrinks ids d₁ d
  replaced-Shrinks p old new d other h = record {
    users = h.effect.others.users;
    prs = h.effect.others.prs;
    fewer = λ q s listed. ground (arith, h.effect.pairs q s, eq_iff new s, listed);
  }

  replaced-gone :
      (p old new : String) (d : Db)
      → str_mem old ids ≡ true
      → NotAmong ids new
      → Succeeded d₁ p old new "TEAM_DEACTIVATION" d
      → pair_count p old d.reviewers ≡ 0
  replaced-gone p old new d listed other h =
      ground (arith, h.effect.pairs p old, eq_iff new old, eq_refl p, eq_refl old)

  -- One round of the inner loop, from tables in which the users of `ids` are inactive.
  pub hand_over-Shrinks :
      (t user p : String)
      → str_mem user ids ≡ true
      → Triple
          (λ d. d ≡ d₁)
          (hand_over e t user p)
          (λ _ d. Shrinks ids d₁ d × (pair_count p user d.reviewers ≡ 0))
          (Shrinks ids d₁)
  unfolding hand_over
  hand_over-Shrinks t user p listed =
      Triple-bind _ _
        (Triple-weaken _ {R = λ pr d. d ≡ d₁} (λ pr d h. h.0) (get_pull_request_reads e start p))
        λ pr.
          Triple-bind _ _
            (Triple-weaken _
              {R = λ users d. (users ≡ active_members t _ (e.scan_users d₁.users)) × (d ≡ d₁)}
              (λ users d h. (rw h.0 at h.1, h.0)) (list_active_team_members_reads e start t _))
            λ users. Triple-given _ λ from.
              Triple-bind _ _ (Triple-widen _ start (choose_new-NotAmong t _ users from)) λ new.
                Triple-given _ λ other.
                  Triple-bind _ _
                    (Triple-widen _ (λ d h. left p user new d other h)
                      (Triple-weaken _
                        {R = λ _ d. Shrinks ids d₁ d × (pair_count p user d.reviewers ≡ 0)}
                        (λ res d h. (
                          replaced-Shrinks p user new d other h.1,
                          replaced-gone p user new d listed other h.1,
                        ))
                        (replace_reviewer_effect e d₁ p user new "TEAM_DEACTIVATION")))
                    λ replaced. Triple-update_metrics _
    where
      start : (d : Db) → d ≡ d₁ → Shrinks ids d₁ d
      start d h = rw h (Shrinks-same ids d₁)

      left :
          (p user new : String) (d : Db)
          → NotAmong ids new
          → (d ≡ d₁) ⊎ Succeeded d₁ p user new "TEAM_DEACTIVATION" d
          → Shrinks ids d₁ d
      left p user new d other (inl h) = start d h
      left p user new d other (inr h) = replaced-Shrinks p user new d other h
