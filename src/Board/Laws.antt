-- ===== src/Board/Laws.antt =====
-- The board over sequences of steps.
use pr_reviewer_service.Prelude.{
  ◌≤◌, String, ◌≡◌, refl, ◌∙◌, true, Option, some, arith, ◌==◌, eq_iff, Bool-cases, inl, inr,
}
use pr_reviewer_service.Board.{Card, Board, Step, opens, joins, leaves, merges, Reach, here, next}

-- The card of a pull request later: the same author, and merged if it was.
pub record Grows (c c' : Card) : Type 0 where
  pub same_author : c'.author ≡ c.author
  pub stays_merged : c.is_merged ≡ true → c'.is_merged ≡ true

abbrev pub Later : Card → Option Card → Type 0
Later c o = (c' : Card) × (o ≡ some c') × Grows c c'

Later-Step :
    {u v : Board} (p : String) (c : Card) → Step u v → u.card p ≡ some c → Later c (v.card p)
Later-Step p c (opens q author fresh none_yet nobody h k) e =
    (c, ground (arith, h.card p, eq_iff q p), record { same_author = refl; stays_merged = λ m. m })
Later-Step p c (joins q r x found still_open other fresh room h k) e =
    (c, h.card p ∙ e, record { same_author = refl; stays_merged = λ m. m })
Later-Step p c (leaves q r x found still_open there h k) e =
    (c, h.card p ∙ e, record { same_author = refl; stays_merged = λ m. m })
Later-Step {u} {v} p c (merges q x found h k) e = elim (Bool-cases (q == p)) [
  | inl same ↦
      let at_p : v.card p ≡ some (record x { is_merged = true }) = h.card p ∙ rw same refl in
      (
        record x { is_merged = true },
        at_p,
        record { same_author = ground (arith, eq_iff q p, e, found); stays_merged = λ m. refl },
      )
  | inr other ↦ (c, h.card p ∙ rw other e, record { same_author = refl; stays_merged = λ m. m })
]

-- Who reviews a merged pull request does not change in a step.
merged-Step :
    {u v : Board} (p : String) (c : Card) (r : String)
    → Step u v
    → u.card p ≡ some c
    → c.is_merged ≡ true
    → v.reviews p r ≡ u.reviews p r
merged-Step p c r (opens q author fresh none_yet nobody h k) e m = k.reviews p r
merged-Step p c r (joins q s x found still_open other fresh room h k) e m =
    ground (arith, k.reviews p r, eq_iff q p)
merged-Step p c r (leaves q s x found still_open there h k) e m =
    ground (arith, k.reviews p r, eq_iff q p)
merged-Step p c r (merges q x found h k) e m = k.reviews p r

-- A board without self-reviews, with at most two reviewers of each pull request and none twice.
pub record Fair (b : Board) : Type 0 where
  pub no_self : (p : String) (c : Card) → b.card p ≡ some c → b.reviews p c.author ≡ 0
  pub at_most_two : (p : String) → b.total p ≤ 2
  pub once : (p r : String) → b.reviews p r ≤ 1

Fair-Step : {u v : Board} → Step u v → Fair u → Fair v
Fair-Step (opens q author fresh none_yet nobody h k) f = record {
  no_self = λ p c e.
      ground (arith, h.card p, k.reviews p c.author, f.no_self p c, nobody c.author, eq_iff q p);
  at_most_two = λ p. omega (arith, k.total p, f.at_most_two p);
  once = λ p r. omega (arith, k.reviews p r, f.once p r);
}
Fair-Step (joins q s x found still_open other fresh room h k) f = record {
  no_self = λ p c e. ground (
    arith,
    h.card p,
    k.reviews p c.author,
    f.no_self p c,
    eq_iff q p,
    eq_iff s c.author,
    eq_iff x.author s,
  );
  at_most_two = λ p. ground (arith, k.total p, f.at_most_two p, eq_iff q p);
  once = λ p r. ground (arith, k.reviews p r, f.once p r, eq_iff q p, eq_iff s r);
}
Fair-Step (leaves q s x found still_open there h k) f = record {
  no_self = λ p c e. ground (arith, h.card p, k.reviews p c.author, f.no_self p c);
  at_most_two = λ p. ground (arith, k.total p, f.at_most_two p);
  once = λ p r. ground (arith, k.reviews p r, f.once p r);
}
Fair-Step (merges q x found h k) f = record {
  no_self = λ p c e.
      ground
        (arith, h.card p, k.reviews p c.author, f.no_self p c, f.no_self q x found, eq_iff q p);
  at_most_two = λ p. omega (arith, k.total p, f.at_most_two p);
  once = λ p r. omega (arith, k.reviews p r, f.once p r);
}

-- A board on which everybody's reviews are fair stays so, whatever the steps.
pub Fair-Reach : {u v : Board} → Reach u v → Fair u → Fair v
Fair-Reach here f = f
Fair-Reach (next r s) f = Fair-Step s (Fair-Reach r f)

-- A card stays on the board, with its author, and a merged one stays merged.
pub Later-Reach :
    {u v : Board} (p : String) (c : Card) → Reach u v → u.card p ≡ some c → Later c (v.card p)
Later-Reach p c here e = (c, e, record { same_author = refl; stays_merged = λ m. m })
Later-Reach p c (next r s) e =
    let (c1, at1, g1) = Later-Reach p c r e in
    let (c2, at2, g2) = Later-Step p c1 s at1 in
    (
      c2,
      at2,
      record {
        same_author = g2.same_author ∙ g1.same_author;
        stays_merged = λ m. g2.stays_merged (g1.stays_merged m);
      },
    )

-- Nobody joins or leaves the reviewers of a merged pull request.
pub merged-Reach :
    {u v : Board} (p : String) (c : Card) (s : String)
    → Reach u v
    → u.card p ≡ some c
    → c.is_merged ≡ true
    → v.reviews p s ≡ u.reviews p s
merged-Reach p c s here e m = refl
merged-Reach p c s (next r st) e m =
    let (c1, at1, g1) = Later-Reach p c r e in
    merged-Step p c1 s st at1 (g1.stays_merged m) ∙ merged-Reach p c s r e m
