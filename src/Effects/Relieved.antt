-- ===== src/Effects/Relieved.antt =====
-- What the report of `MassDeactivate` says of the reviews, as the report grows.
use pr_reviewer_service.Prelude.{
  String, ◌≡◌, ap, ◌⊎◌, inl, inr, Bool, true, false, ◌||◌, none, List, [], ◌∷◌, ◌++◌, arith, ◌==◌,
  eq_iff, str_mem, any_of, Bool-cases,
}
use pr_reviewer_service.Database.Schema.{Db}
use pr_reviewer_service.Repository.Listings.{Dict, lookup, insert, entries, push}
use pr_reviewer_service.Service.Deactivation.{MassDeactivateResult}
use pr_reviewer_service.Integrity.Invariant.{pair_count}
use pr_reviewer_service.Effects.Grouping.{lookup-insert, entries-push}
use pr_reviewer_service.Effects.Handover.{Shrinks, Shrinks-next}

-- No user of `ids` has gained a review since `d₁`. Whoever is reported to have been relieved of a
-- pull request does not review it, and a user whose turn is over, who was not skipped, has none of
-- the pull requests that were listed for them.
pub record Relieved (ids : List String) (open_prs : Dict (List String)) (d₁ : Db)
    (over : String → Bool) (res : MassDeactivateResult) (d : Db) : Type 0 where
  pub shrinks : Shrinks ids d₁ d
  pub reported :
      (u p : String)
      → str_mem u ids ≡ true
      → str_mem p (entries u res.reassigned) ≡ true
      → pair_count p u d.reviewers ≡ 0
  pub cleared :
      (u p : String)
      → str_mem u ids ≡ true
      → over u ≡ true
      → lookup u res.skipped ≡ none
      → str_mem p (entries u open_prs) ≡ true
      → pair_count p u d.reviewers ≡ 0

str_mem-append :
    (a v : String) (xs : List String) → str_mem a (xs ++ v ∷ []) ≡ (str_mem a xs || v == a)
unfolding any_of
str_mem-append a v [] = ground arith
str_mem-append a v (x ∷ xs) = ground (arith, str_mem-append a v xs)

module _ (ids : List String) (open_prs : Dict (List String)) (d₁ : Db) where
  -- Nothing that holds of the reviews is lost as they shrink.
  pub Relieved-Shrinks :
      (over : String → Bool) (res : MassDeactivateResult) (d d' : Db)
      → Relieved ids open_prs d₁ over res d
      → Shrinks ids d d'
      → Relieved ids open_prs d₁ over res d'
  Relieved-Shrinks over res d d' h k = record {
    shrinks = Shrinks-next ids d₁ d d' h.shrinks k;
    reported = λ u p listed there. omega (arith, h.reported u p listed there, k.fewer p u listed);
    cleared = λ u p listed done kept there.
        omega (arith, h.cleared u p listed done kept there, k.fewer p u listed);
  }

  pub Relieved-push :
      (over : String → Bool) (user p : String) (res : MassDeactivateResult) (d : Db)
      → Relieved ids open_prs d₁ over res d
      → pair_count p user d.reviewers ≡ 0
      → Relieved ids open_prs d₁ over (record res { reassigned = push user p res.reassigned }) d
  Relieved-push over user p res d h gone = record {
    shrinks = h.shrinks;
    reported = λ u q listed there. pushed u q listed (Bool-cases (user == u)) there;
    cleared = h.cleared;
  }
    where
      pushed :
          (u q : String)
          → str_mem u ids ≡ true
          → ((user == u) ≡ true) ⊎ ((user == u) ≡ false)
          → str_mem q (entries u (push user p res.reassigned)) ≡ true
          → pair_count q u d.reviewers ≡ 0
      pushed u q listed (inl same) there = ground (
        arith,
        eq_iff user u,
        eq_iff p q,
        gone,
        same,
        h.reported u q listed,
        ap (str_mem q) (entries-push u user p res.reassigned),
        str_mem-append q p (entries u res.reassigned),
      )
      pushed u q listed (inr other) there = ground (
        arith,
        other,
        h.reported u q listed,
        ap (str_mem q) (entries-push u user p res.reassigned),
      )

  pub Relieved-skip :
      (over : String → Bool) (user text : String) (res : MassDeactivateResult) (d : Db)
      → Relieved ids open_prs d₁ over res d
      → Relieved ids open_prs d₁ over (record res { skipped = insert user text res.skipped }) d
  Relieved-skip over user text res d h = record {
    shrinks = h.shrinks;
    reported = h.reported;
    cleared = λ u p listed done kept there.
        h.cleared u p listed done (ground (arith, lookup-insert u user text res.skipped)) there;
  }

  pub Relieved-weaken :
      (over over' : String → Bool) (res : MassDeactivateResult) (d : Db)
      → ((s : String) → over' s ≡ true → over s ≡ true)
      → Relieved ids open_prs d₁ over res d
      → Relieved ids open_prs d₁ over' res d
  Relieved-weaken over over' res d f h = record {
    shrinks = h.shrinks;
    reported = h.reported;
    cleared = λ u p listed done. h.cleared u p listed (f u done);
  }
