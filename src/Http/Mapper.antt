-- ===== src/Http/Mapper.antt =====
-- internal/http/handler/common/team_mapper.go
use pr_reviewer_service.Prelude.{String, ◌≡◌, refl, ap, List, [], ◌∷◌, map}
use pr_reviewer_service.Domain.{User, Team}
use pr_reviewer_service.Http.Response.{ApiMember, ApiTeam}

abbrev pub to_domain_member : String → ApiMember → User
to_domain_member team_name m = record {
  id = m.user_id;
  username = m.username;
  team_name = team_name;
  is_active = m.is_active;
}

unfoldable pub to_domain_team : ApiTeam → Team
to_domain_team req = record {
  name = req.team_name;
  members = map (to_domain_member req.team_name) req.members;
}

abbrev pub from_domain_member : User → ApiMember
from_domain_member m = record { user_id = m.id; username = m.username; is_active = m.is_active }

unfoldable pub from_domain_team : Team → ApiTeam
from_domain_team team = record {
  team_name = team.name;
  members = map from_domain_member team.members;
}

members_back :
    (t : String) (ms : List ApiMember) → map from_domain_member (map (to_domain_member t) ms) ≡ ms
members_back t [] = refl
members_back t (m ∷ ms) = ap (λ rest. m ∷ rest) (members_back t ms)

-- A team that is mapped to the domain and back is the team that was sent.
pub from_domain_team-to_domain_team : (req : ApiTeam) → from_domain_team (to_domain_team req) ≡ req
unfolding from_domain_team to_domain_team
from_domain_team-to_domain_team req =
    ap (λ ms. record { team_name = req.team_name; members = ms })
      (members_back req.team_name req.members)
