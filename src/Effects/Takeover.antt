-- ===== src/Effects/Takeover.antt =====
-- Whom `ReassignReviewer` picks, against the tables.
use pr_reviewer_service.Prelude.{
  ◌<◌, String, ◌≡◌, sym, ◌∙◌, inl, inr, true, false, ◌&&◌, List, ◌∷◌, arith, ◌==◌, str_mem, any_of,
  any_of-of-count, count_if, count, count_if_mono, Bool-cases,
}
use pr_reviewer_service.Domain.{User, PullRequest}
use pr_reviewer_service.Picker.{is_blank, unique_ids}
use pr_reviewer_service.Picker.Laws.{IsPickOf, user_ids}
use pr_reviewer_service.Database.Schema.{UserRow, Db}
use pr_reviewer_service.Database.Queries.{eligible, active_members}
use pr_reviewer_service.Repository.Monad.{Env}
use pr_reviewer_service.Integrity.Invariant.{pair_count}
use pr_reviewer_service.Integrity.Candidates.{count-active_members, str_mem-unique_ids}
use pr_reviewer_service.Effects.Reading.{Read}
use pr_reviewer_service.Effects.Choice.{count-candidates}

-- Who may take over from `old` on `p`, told by the tables alone. Nothing is known of an id that
-- is blank, which `uniqueIDs` drops from the list of people to leave out.
pub record Fits (d₀ : Db) (p old author team new : String) : Type 0 where
  pub member : 0 < count_if (λ x. (x.team_name == team && x.is_active) && x.user_id == new) d₀.users
  pub fresh :
      is_blank new ≡ false
      → ((old == new) ≡ false) × ((author == new) ≡ false) × (pair_count p new d₀.reviewers ≡ 0)

-- A candidate that is not blank was not on the list of people to leave out.
unlisted :
    (e : Env) (new t : String) (listed : List String) (rows : List UserRow)
    → 0 < count new (user_ids (active_members t (unique_ids e.iterate listed) rows))
    → is_blank new ≡ false
    → str_mem new listed ≡ false
unlisted e new t listed rows offered named = elim (Bool-cases (str_mem new listed)) [
  | inl there ↦ absurd (
      omega (
        arith,
        offered,
        count-active_members new t (unique_ids e.iterate listed) rows
            (str_mem-unique_ids e new listed there named),
      ))
  | inr other ↦ other
]

listed_others :
    (old author new : String) (reviewers : List String)
    → str_mem new (old ∷ author ∷ reviewers) ≡ false
    → ((old == new) ≡ false) × ((author == new) ≡ false) × (count new reviewers ≡ 0)
unfolding any_of
listed_others old author new reviewers h =
    (ground arith, ground arith, ground (arith, any_of-of-count (λ b. b == new) reviewers))

eligible_lem :
    (t new : String) (exclude : List String) (x : UserRow)
    → (eligible t exclude x && x.user_id == new) ≡ true
    → ((x.team_name == t && x.is_active) && x.user_id == new) ≡ true
eligible_lem t new exclude x h = ground arith

pub picked-Fits :
    (e : Env) (d₀ : Db) (p old t new : String) (pr : PullRequest) (users : List User)
    (ids : List String)
    → Read d₀ p pr
    → users
      ≡ active_members t
          (unique_ids e.iterate (old ∷ pr.author_id ∷ pr.assigned_reviewers))
          (e.scan_users d₀.users)
    → IsPickOf (user_ids users) 1 ids
    → 0 < count new ids
    → Fits d₀ p old pr.author_id t new
picked-Fits e d₀ p old t new pr users ids read from chosen there =
    let listed = old ∷ pr.author_id ∷ pr.assigned_reviewers in
    let exclude = unique_ids e.iterate listed in
    let users_offer : 0 < count new (user_ids users) =
      omega (arith, there, chosen.from_candidates new) in
    let offered : 0 < count new (user_ids (active_members t exclude (e.scan_users d₀.users))) =
      rw from at users_offer in
    record {
      member = omega (
        arith,
        offered,
        count-candidates e d₀ t exclude new,
        count_if_mono (λ x. eligible t exclude x && x.user_id == new)
            (λ x. (x.team_name == t && x.is_active) && x.user_id == new) d₀.users
            (eligible_lem t new exclude),
      );
      fresh = λ named.
          let others =
            listed_others old pr.author_id new pr.assigned_reviewers
              (unlisted e new t listed (e.scan_users d₀.users) offered named) in
          (others.0, others.1, sym (read.reviewers new) ∙ others.2);
    }
