-- ===== src/Controller/Observation.antt =====
-- rust/src/controller.rs: the projection of a group listing on the two members of the pair.
pub mod Members
use jbl_aura_play_together.Base.{
  ℕ, ◌==◌, Bool, true, false, ◌||◌, List, [], ◌∷◌, ◌++◌, map, codes, same, if◌then◌else◌,
}
use jbl_aura_play_together.Model.Group.{GroupMember, GroupStatus, jbl_public_role, aura_public_role}
use jbl_aura_play_together.Controller.Types.{
  PairMemberName, jbl_authentics_300, aura_studio_5, PairMemberChannel, front_left, front_right,
  left, right, mono, stereo, PairMemberVerification, PairMemberStatus, PairConfigurationObservation,
  fixed_member,
}

unfoldable pub channel_from_allowlist : List ℕ → PairMemberChannel
channel_from_allowlist channel =
    if same channel (codes "front_left")
    then front_left
    else if same channel (codes "front_right")
    then front_right
    else if same channel (codes "left")
    then left
    else if same channel (codes "right")
    then right
    else if same channel (codes "mono")
    then mono
    else if same channel (codes "stereo")
    then stereo
    else PairMemberChannel.unknown

abbrev pub channel_index : PairMemberChannel → ℕ
channel_index front_left = 0
channel_index front_right = 1
channel_index left = 2
channel_index right = 3
channel_index mono = 4
channel_index stereo = 5
channel_index PairMemberChannel.unknown = 6

-- The derived `PartialEq`, and `contains`.
abbrev pub channel_eq : PairMemberChannel → PairMemberChannel → Bool
channel_eq a b = channel_index a == channel_index b

abbrev pub contains : PairMemberChannel → List PairMemberChannel → Bool
contains c [] = false
contains c (x ∷ xs) = channel_eq x c || contains c xs

-- The fold over the channels: `unique` grows at its end.
unfoldable pub push_unique :
    List PairMemberChannel → List PairMemberChannel → List PairMemberChannel
push_unique unique [] = unique
push_unique unique (c ∷ cs) =
    push_unique (if contains c unique then unique else unique ++ c ∷ []) cs

abbrev pub or_unknown : List PairMemberChannel → List PairMemberChannel
or_unknown [] = PairMemberChannel.unknown ∷ []
or_unknown (c ∷ cs) = c ∷ cs

unfoldable pub observed_channels : List (List ℕ) → List PairMemberChannel
observed_channels raw =
    let projected = map channel_from_allowlist raw in
    or_unknown (
      if contains PairMemberChannel.unknown projected
      then PairMemberChannel.unknown ∷ []
      else push_unique [] projected)

unfoldable pub observed_member : PairMemberName → List (List (List ℕ)) → PairMemberStatus
observed_member name (raw ∷ []) =
    fixed_member name PairMemberVerification.verified (observed_channels raw)
observed_member name _ =
    fixed_member name PairMemberVerification.not_verified (PairMemberChannel.unknown ∷ [])

-- The channels of the members under a name, in their order.
unfoldable pub matches : List ℕ → List GroupMember → List (List (List ℕ))
matches name [] = []
matches name (m ∷ ms) =
    let rest = matches name ms in if same m.name name then m.channels ∷ rest else rest

unfoldable pub from_group_status : GroupStatus → PairConfigurationObservation
from_group_status group = record {
  exact_pair_configured = group.expected_pair_configured;
  members = record {
    jbl = observed_member jbl_authentics_300 (matches jbl_public_role group.members);
    aura = observed_member aura_studio_5 (matches aura_public_role group.members);
  };
}
