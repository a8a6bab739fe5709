-- ===== src/Effects/Release.antt =====
-- The loops of `MassDeactivate` over the users and their pull requests, and what its report says.
use pr_reviewer_service.Prelude.{
  String, ◌≡◌, refl, sym, ◌∙◌, ap, ◌⊎◌, inl, inr, Bool, true, false, ◌||◌, none, List, [], ◌∷◌,
  arith, ◌==◌, eq_iff, str_mem, any_of, Bool-cases, eq_refl,
}
use pr_reviewer_service.Database.Schema.{Db}
use pr_reviewer_service.Repository.Monad.{Result, ok, err, panic, World, Env}
use pr_reviewer_service.Repository.Triple.{
  After, After-weaken, Triple, Triple-pure, Triple-bind, Triple-weaken,
}
use pr_reviewer_service.Repository.Calm.{Never}
use pr_reviewer_service.Repository.Listings.{Dict, lookup, entries, push}
use pr_reviewer_service.Service.Deactivation.{
  MassDeactivateResult, next_pull_request, hand_over, hand_over_all, hand_over_users, error_text,
}
use pr_reviewer_service.Integrity.Invariant.{pair_count}
use pr_reviewer_service.Effects.Grouping.{lookup-insert}
use pr_reviewer_service.Effects.Handover.{
  Inactive, Shrinks, Shrinks-same, Shrinks-next, hand_over-Shrinks,
}
use pr_reviewer_service.Effects.Relieved.{
  Relieved, Relieved-Shrinks, Relieved-push, Relieved-skip, Relieved-weaken,
}

module _ (e : Env) (ids : List String) (open_prs : Dict (List String)) (d₁ : Db)
    (inactive : Inactive ids d₁.users) where
  abbrev Good : (String → Bool) → MassDeactivateResult → Db → Type 0
  Good over res d = Relieved ids open_prs d₁ over res d

  -- What the inner loop over `ps` leaves.
  abbrev Round : (String → Bool) → String → List String → Db → MassDeactivateResult → Db → Type 0
  Round over user ps d₂ res d =
      Good over res d
      × Shrinks ids d₂ d
      × (lookup user res.skipped ≡ none
          → (p : String) → str_mem p ps ≡ true
          → pair_count p user d.reviewers ≡ 0)

  module _ (over : String → Bool) (t user : String) (listed : str_mem user ids ≡ true) where
    longer :
        (p : String) (ps : List String) (d₂ d₃ : Db) (res : MassDeactivateResult) (d : Db)
        → Shrinks ids d₂ d₃ × (pair_count p user d₃.reviewers ≡ 0)
        → Round over user ps d₃ res d
        → Round over user (p ∷ ps) d₂ res d
    unfolding any_of
    longer p ps d₂ d₃ res d k (good, less, cleared) = (
      good,
      Shrinks-next ids d₂ d₃ d k.0 less,
      λ kept q there.
          ground (arith, eq_iff p q, less.fewer p user listed, k.1, cleared kept q, there),
    )

    -- The end of a round, whose pull request was handed over or not.
    next-Round :
        (p : String) (ps : List String) (res : MassDeactivateResult) (d₂ : Db)
        (r : Result (Unit {0})) (w : World)
        → Good over res d₂
        → After
            (λ _ d. Shrinks ids d₂ d × (pair_count p user d.reviewers ≡ 0))
            (Shrinks ids d₂)
            r
            w.db
        → ((res' : MassDeactivateResult)
            → Good over res' w.db
            → After
                (Round over user ps w.db)
                Never
                (hand_over_all e t user ps res' w).0
                (hand_over_all e t user ps res' w).1.db)
        → let out = next_pull_request e (hand_over_all e t user ps) user p res r w in
          After (Round over user (p ∷ ps) d₂) Never out.0 out.1.db
    unfolding next_pull_request
    next-Round p ps res d₂ (ok done) w h k rest =
        let res' : MassDeactivateResult = record res { reassigned = push user p res.reassigned } in
        let out = hand_over_all e t user ps res' w in
        let good =
          Relieved-push ids open_prs d₁ over user p res w.db
            (Relieved-Shrinks ids open_prs d₁ over res d₂ w.db h k.0) k.1 in
        After-weaken (Round over user ps w.db) Never (Round over user (p ∷ ps) d₂) out.0 out.1.db
          (λ end g. longer p ps d₂ w.db end out.1.db k g) (rest res' good)
    next-Round p ps res d₂ (err x) w h k rest =
        let text = error_text e.sql_text x in
        (
          Relieved-skip ids open_prs d₁ over user text res w.db
              (Relieved-Shrinks ids open_prs d₁ over res d₂ w.db h k),
          k,
          λ kept. absurd (ground (arith, lookup-insert user user text res.skipped, eq_refl user)),
        )
    next-Round p ps res d₂ panic w h k rest = absurd k

    hand_over_all-Round :
        (ps : List String) (res : MassDeactivateResult) (w : World)
        → Good over res w.db
        → After
            (Round over user ps w.db)
            Never
            (hand_over_all e t user ps res w).0
            (hand_over_all e t user ps res w).1.db
    unfolding hand_over_all any_of
    hand_over_all-Round [] res w h =
        (h, Shrinks-same ids w.db, λ kept p there. absurd (ground (arith, there)))
    hand_over_all-Round (p ∷ ps) res w h =
        let (r, w') = hand_over e t user p w in
        let users_same : Inactive ids w.db.users = rw h.shrinks.users inactive in
        next-Round p ps res w.db r w' h
          ((hand_over-Shrinks e ids w.db users_same t user p listed).at w refl)
          (λ res' g. hand_over_all-Round ps res' w' g)

  -- The turn of `user` is over.
  Good-turn :
      (over : String → Bool) (user : String) (d₂ : Db) (res : MassDeactivateResult) (d : Db)
      → Round over user (entries user open_prs) d₂ res d
      → Good (λ s. over s || user == s) res d
  Good-turn over user d₂ res d (h, less, cleared) = record {
    shrinks = h.shrinks;
    reported = h.reported;
    cleared =
        λ u p listed done kept there. turn u p listed (Bool-cases (user == u)) done kept there;
  }
    where
      turn :
          (u p : String)
          → str_mem u ids ≡ true
          → ((user == u) ≡ true) ⊎ ((user == u) ≡ false)
          → (over u || user == u) ≡ true
          → lookup u res.skipped ≡ none
          → str_mem p (entries u open_prs) ≡ true
          → pair_count p u d.reviewers ≡ 0
      turn u p listed (inl same) done kept there =
          let is : user ≡ u = (eq_iff user u).0 same in
          let kept' : lookup user res.skipped ≡ none = rw (sym is) at kept in
          let there' : str_mem p (entries user open_prs) ≡ true = rw (sym is) at there in
          ap (λ v. pair_count p v d.reviewers) (sym is) ∙ cleared kept' p there'
      turn u p listed (inr other) done kept there =
          h.cleared u p listed (ground (arith, done, other)) kept there

  user_round :
      (over : String → Bool) (t u : String) (res : MassDeactivateResult)
      → str_mem u ids ≡ true
      → Triple
          (Good over res)
          (hand_over_all e t u (entries u open_prs) res)
          (Good (λ s. over s || u == s))
          Never
  user_round over t u res listed = record {
    at = λ w h.
        let out = hand_over_all e t u (entries u open_prs) res w in
        After-weaken (Round over u (entries u open_prs) w.db) Never _ out.0 out.1.db
          (λ end. Good-turn over u w.db end out.1.db)
          (hand_over_all-Round over t u listed (entries u open_prs) res w h);
  }

  -- All the rounds of the outer loop.
  pub hand_over_users-Relieved :
      (t : String) (over : String → Bool) (us : List String) (res : MassDeactivateResult)
      → ((s : String) → str_mem s us ≡ true → str_mem s ids ≡ true)
      → Triple
          (Relieved ids open_prs d₁ over res)
          (hand_over_users e t open_prs us res)
          (Relieved ids open_prs d₁ (λ s. over s || str_mem s us))
          Never
  unfolding hand_over_users any_of
  hand_over_users-Relieved t over [] res listed =
      Triple-pure res
        (λ d h. Relieved-weaken ids open_prs d₁ over _ res d (λ s k. ground (arith, k)) h)
  hand_over_users-Relieved t over (u ∷ us) res listed =
      Triple-bind _ _ (user_round over t u res (listed u (ground (arith, eq_refl u)))) λ res'.
        Triple-weaken _
          (λ end d h. Relieved-weaken ids open_prs d₁ _ _ end d (λ s k. ground (arith, k)) h)
          (hand_over_users-Relieved t (λ s. over s || u == s) us res'
            (λ s k. listed s (ground (arith, k))))
