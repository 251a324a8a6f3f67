-- ===== src/Model/Group/Sanitized.antt =====
-- What `parse_group_status` of rust/src/model.rs lets through of a response.
use jbl_aura_play_together.Base.{
  ℕ, ◌+◌, ◌==◌, ◌≡◌, codes, inl, inr, arith, Bool, true, false, ◌&&◌, ◌||◌, Option, some, List, [],
  ◌∷◌, ok, Result-cases, Bool-cases, Option-cases, length, same, if◌then◌else◌,
}
use jbl_aura_play_together.Model.{DeviceIdentity, identity_eq, from_member_id}
use jbl_aura_play_together.Model.Group.{
  JsonValue, jbl_public_role, aura_public_role, unknown_text, is_allowed_channel, GroupMember,
  GroupStatus, and_then, nonempty, Counts, public_name, named_member, public_channel,
  error_code_is_zero, parse_channels, parse_member, parse_members, group_status, parse_group_status,
}

abbrev pub is_public_name : List ℕ → Bool
is_public_name n = same n jbl_public_role || same n aura_public_role || same n unknown_text

abbrev pub is_public_channel : List ℕ → Bool
is_public_channel c = is_allowed_channel c || same c unknown_text

abbrev pub all_public_channels : List (List ℕ) → Bool
all_public_channels [] = true
all_public_channels (c ∷ cs) = is_public_channel c && all_public_channels cs

-- A member shows nothing of the response but fixed texts.
abbrev pub is_public : GroupMember → Bool
is_public m = is_public_name m.name && all_public_channels m.channels

abbrev pub all_public : List GroupMember → Bool
all_public [] = true
all_public (m ∷ ms) = is_public m && all_public ms

abbrev pub is_enabled : Option Bool → Bool
is_enabled (some false) = true
is_enabled _ = false

-- The members under a name.
abbrev pub count_named : List ℕ → List GroupMember → ℕ
count_named n [] = 0
count_named n (m ∷ ms) = if same m.name n then count_named n ms + 1 else count_named n ms

-- A status that shows fixed texts only, and whose verdict is that of its members.
pub record IsSanitized (s : GroupStatus) : Type 0 where
  pub public_members : all_public s.members ≡ true
  pub two : length s.members ≡ 2
  pub counted : s.member_count ≡ 2
  pub configured :
      s.expected_pair_configured
      ≡ (count_named jbl_public_role s.members == 1)
        && (count_named aura_public_role s.members == 1)
        && is_enabled s.disabled

-- A public member, and the counters behind it.
abbrev Counted : Counts → GroupMember → Counts → Type 0
Counted c m d =
    (is_public m ≡ true)
    × (d.jbl_count ≡ (if same m.name jbl_public_role then c.jbl_count + 1 else c.jbl_count))
    × (d.aura_count ≡ (if same m.name aura_public_role then c.aura_count + 1 else c.aura_count))

public_channel-public : (raw : List ℕ) → is_public_channel (public_channel raw) ≡ true
unfolding public_channel
public_channel-public raw = ground arith

public_name-Counted :
    (i k : DeviceIdentity) (n : List ℕ) (r : DeviceIdentity) (c : Counts) (cs : List (List ℕ))
    → all_public_channels cs ≡ true
    → Counted c
        (named_member cs (public_name i k n r c)).0
        (named_member cs (public_name i k n r c)).1
unfolding public_name
public_name-Counted i k n r c cs h = ground arith

module _ {V M : Type 0} (json : JsonValue V M) where
  parse_channels-public :
      (vs : List V) (cs : List (List ℕ))
      → parse_channels json vs ≡ ok cs
      → all_public_channels cs ≡ true
  unfolding parse_channels
  parse_channels-public [] cs h = ground arith
  parse_channels-public (v ∷ vs) cs h = elim (Option-cases (json.as_str v)) [
    | inl e ↦ absurd (ground (arith, e))
    | inr (raw, e) ↦ elim (Result-cases (parse_channels json vs)) [
      | inl (ds, f) ↦ ground (arith, e, f, parse_channels-public vs ds f, public_channel-public raw)
      | inr (x, f) ↦ absurd (ground (arith, e, f))
    ]
  ]

  abbrev pub name_of : M → Option (List ℕ)
  name_of member =
      and_then (and_then (json.entry (codes "device_name") member) json.as_str) nonempty

  abbrev pub identity_of : M → Option DeviceIdentity
  identity_of member =
      and_then (and_then (json.entry (codes "id") member) json.as_str) from_member_id

  abbrev pub channels_of : M → Option (List V)
  channels_of member = and_then (json.entry (codes "channel") member) json.as_array

  parse_object-Counted :
      (i k : DeviceIdentity) (c : Counts) (v : V) (member : M) (m : GroupMember) (d : Counts)
      → json.as_object v ≡ some member
      → parse_member json i k c v ≡ ok (m, d)
      → Counted c m d
  unfolding parse_member
  parse_object-Counted i k c v member m d e h = elim (Option-cases (name_of member)) [
    | inl e1 ↦ absurd (ground (arith, e1))
    | inr (n, e1) ↦ elim (Option-cases (identity_of member)) [
      | inl e2 ↦ absurd (ground (arith, e1, e2))
      | inr (r, e2) ↦ elim (Option-cases (channels_of member)) [
        | inl e3 ↦ absurd (ground (arith, e1, e2, e3))
        | inr (raw, e3) ↦ elim (Result-cases (parse_channels json raw)) [
          | inl (cs, q) ↦ ground (
            arith,
            e1,
            e2,
            e3,
            q,
            public_name-Counted i k n r c cs (parse_channels-public raw cs q),
          )
          | inr (x, q) ↦ absurd (ground (arith, e1, e2, e3, q))
        ]
      ]
    ]
  ]

  parse_member-Counted :
      (i k : DeviceIdentity) (c : Counts) (v : V) (m : GroupMember) (d : Counts)
      → parse_member json i k c v ≡ ok (m, d)
      → Counted c m d
  unfolding parse_member
  parse_member-Counted i k c v m d h = elim (Option-cases (json.as_object v)) [
    | inl e ↦ absurd (ground (arith, e))
    | inr (member, e) ↦ parse_object-Counted i k c v member m d e h
  ]

  -- The members of a list, and the counters behind them.
  abbrev AllCounted : Counts → List GroupMember → Counts → Type 0
  AllCounted c ms d =
      (all_public ms ≡ true)
      × (d.jbl_count ≡ c.jbl_count + count_named jbl_public_role ms)
      × (d.aura_count ≡ c.aura_count + count_named aura_public_role ms)

  parse_members-AllCounted :
      (i k : DeviceIdentity) (c : Counts) (vs : List V) (ms : List GroupMember) (d : Counts)
      → parse_members json i k c vs ≡ ok (ms, d)
      → AllCounted c ms d × (length ms ≡ length vs)
  unfolding parse_members
  parse_members-AllCounted i k c [] ms d h =
      let e : (ms ≡ []) × (d ≡ c) = ground arith in rw (e.0, e.1) (ground arith)
  parse_members-AllCounted i k c (v ∷ vs) ms d h = elim (Result-cases (parse_member json i k c v)) [
    | inr (x, e1) ↦ absurd (ground (arith, e1))
    | inl (p, e1) ↦ elim (Result-cases (parse_members json i k p.1 vs)) [
      | inr (x, e2) ↦ absurd (ground (arith, e1, e2))
      | inl (q, e2) ↦
          let e : (ms ≡ p.0 ∷ q.0) × (d ≡ q.1) = ground (arith, e1, e2) in
          let head = parse_member-Counted i k c v p.0 p.1 e1 in
          let tail = parse_members-AllCounted i k p.1 vs q.0 q.1 e2 in
          rw (e.0, e.1) (ground (arith, head, tail))
    ]
  ]

  group_status-IsSanitized :
      (i k : DeviceIdentity) (b : Bool) (vs : List V) (ms : List GroupMember) (d : Counts)
      → parse_members json i k (record { jbl_count = 0; aura_count = 0 }) vs ≡ ok (ms, d)
      → length vs ≡ 2
      → IsSanitized (group_status b ms d)
  unfolding group_status
  group_status-IsSanitized i k b vs ms d h l =
      ground (
        arith,
        l,
        parse_members-AllCounted i k (record { jbl_count = 0; aura_count = 0 }) vs ms d h,
      )

  abbrev pub group_of : V → Option M
  group_of v = and_then (json.get (codes "group_info") v) json.as_object

  abbrev pub members_of : M → Option (List V)
  members_of group = and_then (json.entry (codes "members") group) json.as_array

  abbrev pub disabled_of : M → Option Bool
  disabled_of group = and_then (json.entry (codes "disabled") group) json.as_bool

  -- What a parsed status was made of.
  pub parsed_status :
      (v : V) (i k : DeviceIdentity) (s : GroupStatus)
      → parse_group_status json v i k ≡ ok s
      → (group : M) × (vs : List V) × (b : Bool) × (p : List GroupMember × Counts) × (group_of v
          ≡ some group)
        × (members_of group ≡ some vs)
        × (disabled_of group ≡ some b)
        × (length vs ≡ 2)
        × (parse_members json i k (record { jbl_count = 0; aura_count = 0 }) vs ≡ ok p)
        × (s ≡ group_status b p.0 p.1)
  unfolding parse_group_status
  parsed_status v i k s h = elim (Bool-cases (identity_eq i k)) [
    | inl e1 ↦ absurd (ground (arith, e1))
    | inr e1 ↦ elim (Bool-cases (error_code_is_zero json (json.get (codes "error_code") v))) [
      | inr e2 ↦ absurd (ground (arith, e1, e2))
      | inl e2 ↦ elim (Option-cases (group_of v)) [
        | inl e3 ↦ absurd (ground (arith, e1, e2, e3))
        | inr (group, e3) ↦ elim (Option-cases (members_of group)) [
          | inl e4 ↦ absurd (ground (arith, e1, e2, e3, e4))
          | inr (vs, e4) ↦ elim (Option-cases (disabled_of group)) [
            | inl e5 ↦ absurd (ground (arith, e1, e2, e3, e4, e5))
            | inr (b, e5) ↦
                elim (Result-cases
                  (parse_members json i k (record { jbl_count = 0; aura_count = 0 }) vs)) [
                    | inr (x, e6) ↦ absurd (ground (arith, e1, e2, e3, e4, e5, e6))
                    | inl (p, e6) ↦ (
                      group,
                      vs,
                      b,
                      p,
                      e3,
                      e4,
                      e5,
                      ground (arith, e1, e2, e3, e4, e5, e6),
                      e6,
                      ground (arith, e1, e2, e3, e4, e5, e6),
                    )
                  ]
          ]
        ]
      ]
    ]
  ]

  -- A status that `parse_group_status` makes of a response shows no text of it but the fixed names
  -- and channels, has two members, and tells the pair configured exactly if one member stands under
  -- the JBL's name, one under the Aura's, and the group is not disabled.
  pub parse_group_status-IsSanitized :
      (v : V) (i k : DeviceIdentity) (s : GroupStatus)
      → parse_group_status json v i k ≡ ok s
      → IsSanitized s
  parse_group_status-IsSanitized v i k s h =
      let (_, vs, b, p, _, _, _, l, e, f) = parsed_status v i k s h in
      rw f (group_status-IsSanitized i k b vs p.0 p.1 e l)
