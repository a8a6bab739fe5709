-- ===== src/Validation.antt =====
-- internal/service/validation.go: the checks on the texts that a request brings.
use Prim.Native.Char.{code}
use mathlib.Core.List.{reverse}
use pr_reviewer_service.Prelude.{
  ℕ, ◌+◌, String, Bool, ◌&&◌, ◌||◌, Option, none, some, List, [], ◌∷◌, ltb, leb, is_empty,
  if◌then◌else◌,
}

-- The code points of a text. `String` has its own `[]` and `∷`.
abbrev pub codes : String → List ℕ
codes String.[] = []
codes (String.◌∷◌ c s) = code c ∷ codes s

-- `unicode.IsSpace`, by which `strings.TrimSpace` cuts.
unfoldable pub is_space : ℕ → Bool
is_space c =
    (leb 0x09 c && leb c 0x0d)
    || (leb 0x20 c && leb c 0x20)
    || (leb 0x85 c && leb c 0x85)
    || (leb 0xa0 c && leb c 0xa0)
    || (leb 0x1680 c && leb c 0x1680)
    || (leb 0x2000 c && leb c 0x200a)
    || (leb 0x2028 c && leb c 0x2029)
    || (leb 0x202f c && leb c 0x202f)
    || (leb 0x205f c && leb c 0x205f)
    || (leb 0x3000 c && leb c 0x3000)

-- The number of bytes of a code point in UTF-8.
unfoldable pub width : ℕ → ℕ
width c = if ltb c 0x80 then 1 else if ltb c 0x800 then 2 else if ltb c 0x10000 then 3 else 4

-- `len(s)` of Go, which counts bytes.
unfoldable pub byte_length : List ℕ → ℕ
unfolding width
byte_length [] = 0
byte_length (c ∷ cs) = width c + byte_length cs

unfoldable pub drop_spaces : List ℕ → List ℕ
unfolding is_space
drop_spaces [] = []
drop_spaces (c ∷ cs) = if is_space c then drop_spaces cs else c ∷ cs

-- `strings.TrimSpace`, as code points.
unfoldable pub trim_space : String → List ℕ
unfolding drop_spaces
trim_space s = reverse (drop_spaces (reverse (drop_spaces (codes s))))

-- The common shape of the checks: not blank, and at most `limit` bytes once trimmed.
unfoldable pub validate : ℕ → String → String → String → Option String
unfolding trim_space byte_length
validate limit blank long s =
    let t = trim_space s in
    if is_empty t then some blank else if ltb limit (byte_length t) then some long else none

unfoldable pub validate_team_name : String → Option String
unfolding validate
validate_team_name =
    validate 100 "team name cannot be empty" "team name too long (max 100 characters)"

unfoldable pub validate_user_id : String → Option String
unfolding validate
validate_user_id = validate 100 "user ID cannot be empty" "user ID too long (max 100 characters)"

unfoldable pub validate_pr_id : String → Option String
unfolding validate
validate_pr_id = validate 200 "PR ID cannot be empty" "PR ID too long (max 200 characters)"

unfoldable pub validate_pr_name : String → Option String
unfolding validate
validate_pr_name = validate 500 "PR name cannot be empty" "PR name too long (max 500 characters)"
