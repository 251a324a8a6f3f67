-- ===== src/Controller/Observation/Members.antt =====
-- What an observation of rust/src/controller.rs tells of the two members.
use jbl_aura_play_together.Base.{
  ℕ, ◌==◌, ◌≡◌, ◌≢◌, ◌⊎◌, refl, arith, inl, inr, Bool, true, false, not, ◌&&◌, ◌||◌, List, [], ◌∷◌,
  ◌++◌, map, length, ok, Bool-cases, if◌then◌else◌,
}
use jbl_aura_play_together.Model.{DeviceIdentity}
use jbl_aura_play_together.Model.Group.{
  JsonValue, GroupMember, GroupStatus, parse_group_status, jbl_public_role, aura_public_role,
}
use jbl_aura_play_together.Model.Group.Sanitized.{
  count_named, IsSanitized, parse_group_status-IsSanitized,
}
use jbl_aura_play_together.Controller.Types.{
  PairMemberName, PairMemberChannel, PairMemberVerification, PairMemberStatus,
  PairConfigurationObservation, fixed_member,
}
use jbl_aura_play_together.Controller.Observation.{
  channel_from_allowlist, channel_eq, contains, push_unique, or_unknown, observed_channels,
  observed_member, matches, from_group_status,
}

abbrev pub has_no_duplicate : List PairMemberChannel → Bool
has_no_duplicate [] = true
has_no_duplicate (c ∷ cs) = not (contains c cs) && has_no_duplicate cs

-- A list of channels that is shown: not empty, without a repetition, and where the unknown channel
-- stands in it, it stands alone.
pub record IsShown (cs : List PairMemberChannel) : Type 0 where
  pub some_channel : cs ≢ []
  pub distinct : has_no_duplicate cs ≡ true
  pub unknown_alone :
      (contains PairMemberChannel.unknown cs ≡ false) ⊎ (cs ≡ PairMemberChannel.unknown ∷ [])

contains-append :
    (c d : PairMemberChannel) (xs : List PairMemberChannel)
    → contains c (xs ++ d ∷ []) ≡ (contains c xs || channel_eq d c)
contains-append c d [] = ground arith
contains-append c d (x ∷ xs) = ground (arith, contains-append c d xs)

has_no_duplicate-append :
    (d : PairMemberChannel) (xs : List PairMemberChannel)
    → has_no_duplicate xs ≡ true
    → contains d xs ≡ false
    → has_no_duplicate (xs ++ d ∷ []) ≡ true
has_no_duplicate-append d [] h n = ground arith
has_no_duplicate-append d (x ∷ xs) h n =
    ground (arith, contains-append x d xs, has_no_duplicate-append d xs)

push_unique-distinct :
    (us cs : List PairMemberChannel)
    → has_no_duplicate us ≡ true
    → has_no_duplicate (push_unique us cs) ≡ true
unfolding push_unique
push_unique-distinct us [] h = h
push_unique-distinct us (c ∷ cs) h = elim (Bool-cases (contains c us)) [
  | inl e ↦ rw e (push_unique-distinct us cs h)
  | inr e ↦ rw e (push_unique-distinct (us ++ c ∷ []) cs (has_no_duplicate-append c us h e))
]

push_unique-known :
    (us cs : List PairMemberChannel)
    → contains PairMemberChannel.unknown us ≡ false
    → contains PairMemberChannel.unknown cs ≡ false
    → contains PairMemberChannel.unknown (push_unique us cs) ≡ false
unfolding push_unique
push_unique-known us [] h k = h
push_unique-known us (c ∷ cs) h k = elim (Bool-cases (contains c us)) [
  | inl e ↦ rw e (push_unique-known us cs h (ground arith))
  | inr e ↦ rw e (
      push_unique-known (us ++ c ∷ []) cs
        (ground (arith, contains-append PairMemberChannel.unknown c us)) (ground arith))
]

or_unknown-IsShown :
    (cs : List PairMemberChannel)
    → has_no_duplicate cs ≡ true
    → contains PairMemberChannel.unknown cs ≡ false
    → IsShown (or_unknown cs)
or_unknown-IsShown [] h k = record {
  some_channel = λ e. cc;
  distinct = refl;
  unknown_alone = inr refl;
}
or_unknown-IsShown (c ∷ cs) h k = record {
  some_channel = λ e. cc;
  distinct = h;
  unknown_alone = inl k;
}

pub observed_channels-IsShown : (raw : List (List ℕ)) → IsShown (observed_channels raw)
unfolding observed_channels
observed_channels-IsShown raw =
    elim (Bool-cases (contains PairMemberChannel.unknown (map channel_from_allowlist raw))) [
      | inl e ↦ rw e (record { some_channel = λ e. cc; distinct = refl; unknown_alone = inr refl })
      | inr e ↦ rw e (
          or_unknown-IsShown (push_unique [] (map channel_from_allowlist raw))
            (push_unique-distinct [] (map channel_from_allowlist raw) refl)
            (push_unique-known [] (map channel_from_allowlist raw) refl e))
    ]

length-matches :
    (name : List ℕ) (ms : List GroupMember) → length (matches name ms) ≡ count_named name ms
unfolding matches
length-matches name [] = refl
length-matches name (m ∷ ms) = ground (arith, length-matches name ms)

-- A member with its name, its channels fit to be shown, and verified or not.
abbrev Observed : PairMemberName → Bool → PairMemberStatus → Type 0
Observed name verified m =
    (m.name ≡ name)
    × (m.verification ≡ (
        if verified then PairMemberVerification.verified else PairMemberVerification.not_verified))
    × IsShown m.channels

observed_member-Observed :
    (name : PairMemberName) (ms : List (List (List ℕ)))
    → Observed name (length ms == 1) (observed_member name ms)
unfolding observed_member fixed_member
observed_member-Observed name [] =
    (refl, refl, record { some_channel = λ e. cc; distinct = refl; unknown_alone = inr refl })
observed_member-Observed name (raw ∷ []) = (refl, refl, observed_channels-IsShown raw)
observed_member-Observed name (raw ∷ next ∷ ms) = (
  refl,
  ground arith,
  record { some_channel = λ e. cc; distinct = refl; unknown_alone = inr refl },
)

-- What an observation tells of the pair: its members are the JBL and the Aura, shown as above, and
-- if the pair is configured exactly, both are verified.
pub record IsObservation (o : PairConfigurationObservation) : Type 0 where
  pub jbl : o.members.jbl.name ≡ PairMemberName.jbl_authentics_300
  pub aura : o.members.aura.name ≡ PairMemberName.aura_studio_5
  pub jbl_channels : IsShown o.members.jbl.channels
  pub aura_channels : IsShown o.members.aura.channels
  pub both :
      (o.exact_pair_configured ≡ false)
      ⊎ ((o.members.jbl.verification ≡ PairMemberVerification.verified)
          × (o.members.aura.verification ≡ PairMemberVerification.verified))

from_group_status-IsObservation :
    (s : GroupStatus) → IsSanitized s → IsObservation (from_group_status s)
unfolding from_group_status
from_group_status-IsObservation s h =
    let (jn, jv, jc) =
      observed_member-Observed PairMemberName.jbl_authentics_300
        (matches jbl_public_role s.members) in
    let (an, av, ac) =
      observed_member-Observed PairMemberName.aura_studio_5 (matches aura_public_role s.members) in
    record {
      jbl = jn;
      aura = an;
      jbl_channels = jc;
      aura_channels = ac;
      both = ground (
        arith,
        jv,
        av,
        h.configured,
        length-matches jbl_public_role s.members,
        length-matches aura_public_role s.members,
      );
    }

-- The observation of a response that is parsed without an error shows the JBL and the Aura, each
-- with channels of the allowlist once each or with the unknown channel alone, and if it tells the
-- pair configured exactly, both members are verified.
pub from_group_status-parse_group_status :
    {V M : Type 0} (json : JsonValue V M) (v : V) (i k : DeviceIdentity) (s : GroupStatus)
    → parse_group_status json v i k ≡ ok s
    → IsObservation (from_group_status s)
from_group_status-parse_group_status json v i k s h =
    from_group_status-IsObservation s (parse_group_status-IsSanitized json v i k s h)
