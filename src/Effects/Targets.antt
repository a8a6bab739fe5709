-- ===== src/Effects/Targets.antt =====
-- Whom `MassDeactivate` deactivates, against the table of users.
use pr_reviewer_service.Prelude.{
  ◌<◌, String, ◌≡◌, refl, sym, ◌∙◌, ap, if◌then◌else◌, ◌⊎◌, inl, inr, Bool, true, false, ◌&&◌, not,
  some, List, [], ◌∷◌, arith, ◌==◌, eq_iff, str_mem, any_of, count_if, select, count_if-map,
  count_if-select, Bool-cases, Option-cases, is_empty,
}
use pr_reviewer_service.Domain.{User}
use pr_reviewer_service.Database.Schema.{UserRow, Db}
use pr_reviewer_service.Database.Queries.{user_of, team_members}
use pr_reviewer_service.Repository.Monad.{Env, Result, ok, err, panic}
use pr_reviewer_service.Repository.Listings.{Dict, lookup, insert}
use pr_reviewer_service.Service.Deactivation.{
  keep_target, membership, all_active, named_active, targets,
}
use pr_reviewer_service.Effects.Grouping.{lookup-insert}
use pr_reviewer_service.Effects.Reading.{count_if-order_by}

-- The rows of the team with an id and an activity.
abbrev pub member_rows : String → String → Bool → UserRow → Bool
member_rows t s active x =
    x.team_name == t && (x.user_id == s && (if active then x.is_active else not x.is_active))

abbrev member_users : String → Bool → User → Bool
member_users s active m = m.id == s && (if active then m.is_active else not m.is_active)

-- The targets of a request: active members of the team, all of them where no user is named. Else
-- they are among the named users, each of whom is in the team, as a target or as somebody who is
-- not active.
pub record Targeted (d : Db) (t : String) (named ids : List String) : Type 0 where
  pub active_members :
      (s : String) → str_mem s ids ≡ true → 0 < count_if (member_rows t s true) d.users
  pub all_of_them :
      (s : String)
      → is_empty named ≡ true
      → 0 < count_if (member_rows t s true) d.users
      → str_mem s ids ≡ true
  pub only_named :
      (s : String) → is_empty named ≡ false → str_mem s ids ≡ true → str_mem s named ≡ true
  pub each_named :
      (s : String)
      → str_mem s named ≡ true
      → (str_mem s ids ≡ true) ⊎ (0 < count_if (member_rows t s false) d.users)

-- The members that were read are the rows of the team.
count-members :
    (e : Env) (d : Db) (t s : String) (active : Bool)
    → count_if (member_users s active) (team_members e.text_le t (e.scan_users d.users))
      ≡ count_if (member_rows t s active) d.users
unfolding team_members
count-members e d t s active =
    let rows = select (λ x. x.team_name == t) (e.scan_users d.users) in
    count_if-map (member_users s active) user_of _
    ∙ count_if-order_by _ (λ x. member_users s active (user_of x)) rows
    ∙ count_if-select (λ x. member_users s active (user_of x)) (λ x. x.team_name == t)
        (e.scan_users d.users)
    ∙ e.scan_users_keeps (member_rows t s active) d.users

str_mem-all_active :
    (s : String) (ms : List User)
    → (str_mem s (all_active ms) ≡ true → 0 < count_if (member_users s true) ms)
      × (0 < count_if (member_users s true) ms → str_mem s (all_active ms) ≡ true)
unfolding all_active any_of count_if
str_mem-all_active s [] = (λ h. ground (arith, h), λ h. absurd (omega (arith, h)))
str_mem-all_active s (m ∷ ms) =
    let rest = str_mem-all_active s ms in
    (λ h. ground (arith, rest.0, h), λ h. ground (arith, rest.1, h))

-- Whoever the map holds stands in the list, as active as the map says.
lookup-membership :
    (s : String) (u : User) (ms : List User) (m : Dict User)
    → lookup s (membership ms m) ≡ some u
    → (lookup s m ≡ some u) ⊎ (0 < count_if (member_users s u.is_active) ms)
unfolding membership count_if
lookup-membership s u [] m h = inl h
lookup-membership s u (x ∷ ms) m h = added (lookup-membership s u ms (insert x.id x m) h)
  where
    added :
        (lookup s (insert x.id x m) ≡ some u) ⊎ (0 < count_if (member_users s u.is_active) ms)
        → (lookup s m ≡ some u) ⊎ (0 < count_if (member_users s u.is_active) (x ∷ ms))
    added (inr there) = inr (omega (arith, there))
    added (inl there) = elim (Bool-cases (x.id == s)) [
      | inl same ↦
          let is : x ≡ u = ground (arith, lookup-insert s x.id x m, there, same) in
          inr (rw (sym is) (ground (arith, same)))
      | inr other ↦ inl (ground (arith, lookup-insert s x.id x m, there, other))
    ]

-- What the loop over the named users collects.
abbrev Collected : Dict User → List String → List String → Type 0
Collected m named ids =
    ((s : String)
      → str_mem s ids ≡ true
      → (str_mem s named ≡ true) × (u : User) × (lookup s m ≡ some u) × (u.is_active ≡ true))
    × ((s : String)
        → str_mem s named ≡ true
        → (u : User) × (lookup s m ≡ some u) × (u.is_active ≡ true → str_mem s ids ≡ true))

keep_target_inv :
    (active : Bool) (id : String) (r : Result (List String)) (out : List String)
    → keep_target active id r ≡ ok out
    → (rest : List String) × (r ≡ ok rest) × (out ≡ (if active then id ∷ rest else rest))
keep_target_inv active id (ok ids) out h = (ids, refl, ground (arith, h))
keep_target_inv active id (err x) out h = absurd (ground (arith, h))
keep_target_inv active id panic out h = absurd (ground (arith, h))

-- One name of the loop.
named_active_inv :
    (m : Dict User) (id : String) (named out : List String)
    → named_active m (id ∷ named) ≡ ok out
    → (u : User) × (rest : List String) × (lookup id m ≡ some u)
      × (named_active m named ≡ ok rest)
      × (out ≡ (if u.is_active then id ∷ rest else rest))
unfolding named_active
named_active_inv m id named out h = elim (Option-cases (lookup id m)) [
  | inl missing ↦ absurd (ground (arith, rw (named_active, missing) at h))
  | inr (u, found) ↦
      let (rest, left, made) =
        keep_target_inv u.is_active id (named_active m named) out (rw (named_active, found) at h) in
      (u, rest, found, left, made)
]

named_active-Collected :
    (m : Dict User) (named ids : List String)
    → named_active m named ≡ ok ids
    → Collected m named ids
unfolding named_active any_of
named_active-Collected m [] ids h =
    let none_left : ids ≡ [] = ground (arith, h) in
    (λ s k. absurd (ground (arith, rw none_left at k)), λ s k. absurd (ground (arith, k)))
named_active-Collected m (id ∷ named) ids h =
    let (u, rest, found, left, made) = named_active_inv m id named ids h in
    let (sound, complete) = named_active-Collected m named rest left in
    let here : (s : String) → (id == s) ≡ true → lookup s m ≡ some u =
      λ s same. ap (λ i. lookup i m) (sym ((eq_iff id s).0 same)) ∙ found in
    let members : (s : String)
        → str_mem s ids ≡ str_mem s (if u.is_active then id ∷ rest else rest) =
      λ s. ap (str_mem s) made in
    (
      λ s k. elim (Bool-cases (str_mem s rest)) [
        | inl there ↦
            let (listed, v, known, on) = sound s there in (ground (arith, listed), v, known, on)
        | inr other ↦
            let same : (id == s) ≡ true = ground (arith, k, members s, other) in
            (ground (arith, same), u, here s same, ground (arith, k, members s, other))
      ],
      λ s k. elim (Bool-cases (id == s)) [
        | inl same ↦ (u, here s same, λ on. ground (arith, members s, on, same))
        | inr other ↦
            let (v, known, kept) = complete s (ground (arith, k, other)) in
            (v, known, λ on. ground (arith, members s, kept on))
      ],
    )

lookup-members :
    (s : String) (u : User) (ms : List User)
    → lookup s (membership ms []) ≡ some u
    → 0 < count_if (member_users s u.is_active) ms
unfolding lookup
lookup-members s u ms h = elim (lookup-membership s u ms [] h) [
  | inl missing ↦ absurd (ground (arith, missing))
  | inr there ↦ there
]

-- The targets of a request, by the members that were read.
pub targets-Targeted :
    (e : Env) (d : Db) (t : String) (named ids : List String)
    → targets (team_members e.text_le t (e.scan_users d.users)) named ≡ ok ids
    → Targeted d t named ids
unfolding targets any_of
targets-Targeted e d t [] ids h =
    let ms = team_members e.text_le t (e.scan_users d.users) in
    let same : all_active ms ≡ ids = ground (arith, h) in
    record {
      active_members = λ s k.
          let there = (str_mem-all_active s ms).0 (ap (str_mem s) same ∙ k) in
          omega (arith, count-members e d t s true, there);
      all_of_them = λ s k there.
          sym (ap (str_mem s) same)
          ∙ (str_mem-all_active s ms).1 (omega (arith, count-members e d t s true, there));
      only_named = λ s k. absurd (ground (arith, k));
      each_named = λ s k. absurd (ground (arith, k));
    }
targets-Targeted e d t (n ∷ ns) ids h =
    let ms = team_members e.text_le t (e.scan_users d.users) in
    let (sound, complete) = named_active-Collected (membership ms []) (n ∷ ns) ids h in
    record {
      active_members = λ s k.
          let (listed, u, known, on) = sound s k in
          let there : 0 < count_if (member_users s true) ms =
            rw on at (lookup-members s u ms known) in
          omega (arith, count-members e d t s true, there);
      all_of_them = λ s k. absurd (ground (arith, k));
      only_named = λ s k there. (sound s there).0;
      each_named = λ s k.
          let (u, known, kept) = complete s k in
          elim (Bool-cases u.is_active) [
            | inl on ↦ inl (kept on)
            | inr off ↦
                let there : 0 < count_if (member_users s false) ms =
                  rw off at (lookup-members s u ms known) in
                inr (omega (arith, count-members e d t s false, there))
          ];
    }
