-- ===== src/Model/Group/Faithful.antt =====
-- What a status of rust/src/model.rs has to do with the response that it is parsed from.
use jbl_aura_play_together.Base.{
  ℕ, ◌+◌, ◌==◌, ◌≡◌, refl, inl, inr, arith, Bool, true, false, not, ◌&&◌, some, none, List, [], ◌∷◌,
  ok, Result-cases, Option-cases, same, same_eq, if◌then◌else◌,
}
use jbl_aura_play_together.Model.{DeviceIdentity, identity_eq}
use jbl_aura_play_together.Model.Group.{
  JsonValue, jbl_public_role, aura_public_role, GroupMember, GroupStatus, Counts, public_name,
  parse_channels, parse_member, parse_members, group_status, parse_group_status,
}
use jbl_aura_play_together.Model.Group.Sanitized.{
  IsSanitized, count_named, name_of, identity_of, channels_of, group_of, members_of, disabled_of,
  parsed_status, parse_group_status-IsSanitized,
}

roles_differ : (n : List ℕ) → same n jbl_public_role ≡ true → same n aura_public_role ≡ false
roles_differ n h = rw (same_eq n jbl_public_role h) refl

-- The name that a member is shown under tells its raw name and its identity.
public_name_tells :
    (i k : DeviceIdentity) (n : List ℕ) (r : DeviceIdentity) (c : Counts)
    → (same (public_name i k n r c).0 jbl_public_role ≡ same n jbl_public_role && identity_eq r i)
      × (same (public_name i k n r c).0 aura_public_role
          ≡ same n aura_public_role && identity_eq r k)
unfolding public_name
public_name_tells i k n r c = ground (arith, roles_differ n)

module _ {V M : Type 0} (json : JsonValue V M) where
  abbrev has_name : List ℕ → M → Bool
  has_name role member = elim (name_of json member) [ none ↦ false | some n ↦ same n role ]

  abbrev has_identity : DeviceIdentity → M → Bool
  has_identity i member = elim (identity_of json member) [ none ↦ false | some r ↦ identity_eq r i ]

  -- The member of a response has the role's own name and the expected identity.
  abbrev pub stands_for : List ℕ → DeviceIdentity → V → Bool
  stands_for role i v = elim (json.as_object v) [
    | none ↦ false
    | some member ↦ has_name role member && has_identity i member
  ]

  abbrev pub count_for : List ℕ → DeviceIdentity → List V → ℕ
  count_for role i [] = 0
  count_for role i (v ∷ vs) =
      if stands_for role i v then count_for role i vs + 1 else count_for role i vs

  -- The members of a status in the order of the response's, each under the name of a role exactly
  -- where it stands for that role.
  abbrev pub AllShown : DeviceIdentity → DeviceIdentity → List V → List GroupMember → Type 0
  AllShown i k [] [] = Unit
  AllShown i k [] (m ∷ ms) = ⊥
  AllShown i k (v ∷ vs) [] = ⊥
  AllShown i k (v ∷ vs) (m ∷ ms) =
      (same m.name jbl_public_role ≡ stands_for jbl_public_role i v)
      × (same m.name aura_public_role ≡ stands_for aura_public_role k v)
      × AllShown i k vs ms

  -- What a status tells of the response `v`, where the JBL is expected to be `i` and the Aura `k`.
  pub record IsFaithful (v : V) (i k : DeviceIdentity) (s : GroupStatus) : Type 0 where
    pub sanitized : IsSanitized s
    pub group : M
    pub grouped : group_of json v ≡ some group
    pub raw_members : List V
    pub listed : members_of json group ≡ some raw_members
    pub flag : Bool
    pub told : disabled_of json group ≡ some flag
    pub disabled : s.disabled ≡ some flag
    pub shown : AllShown i k raw_members s.members
    pub verdict :
        s.expected_pair_configured
        ≡ (count_for jbl_public_role i raw_members == 1)
          && (count_for aura_public_role k raw_members == 1)
          && not flag

  object_shown :
      (i k : DeviceIdentity) (c : Counts) (v : V) (member : M) (m : GroupMember) (d : Counts)
      → json.as_object v ≡ some member
      → parse_member json i k c v ≡ ok (m, d)
      → AllShown i k (v ∷ []) (m ∷ [])
  unfolding parse_member
  object_shown i k c v member m d e h = elim (Option-cases (name_of json member)) [
    | inl e1 ↦ absurd (ground (arith, e1))
    | inr (n, e1) ↦ elim (Option-cases (identity_of json member)) [
      | inl e2 ↦ absurd (ground (arith, e1, e2))
      | inr (r, e2) ↦ elim (Option-cases (channels_of json member)) [
        | inl e3 ↦ absurd (ground (arith, e1, e2, e3))
        | inr (raw, e3) ↦ elim (Result-cases (parse_channels json raw)) [
          | inr (x, q) ↦ absurd (ground (arith, e1, e2, e3, q))
          | inl (cs, q) ↦
              let named : m.name ≡ (public_name i k n r c).0 = ground (arith, e1, e2, e3, q) in
              let (jbl, aura) = public_name_tells i k n r c in
              (ground (arith, e, e1, e2, named, jbl), ground (arith, e, e1, e2, named, aura), tt)
        ]
      ]
    ]
  ]

  member_shown :
      (i k : DeviceIdentity) (c : Counts) (v : V) (m : GroupMember) (d : Counts)
      → parse_member json i k c v ≡ ok (m, d)
      → AllShown i k (v ∷ []) (m ∷ [])
  unfolding parse_member
  member_shown i k c v m d h = elim (Option-cases (json.as_object v)) [
    | inl e ↦ absurd (ground (arith, e))
    | inr (member, e) ↦ object_shown i k c v member m d e h
  ]

  parse_members-AllShown :
      (i k : DeviceIdentity) (c : Counts) (vs : List V) (ms : List GroupMember) (d : Counts)
      → parse_members json i k c vs ≡ ok (ms, d)
      → AllShown i k vs ms
  unfolding parse_members
  parse_members-AllShown i k c [] ms d h = let e : ms ≡ [] = ground arith in rw e tt
  parse_members-AllShown i k c (v ∷ vs) ms d h = elim (Result-cases (parse_member json i k c v)) [
    | inr (x, e1) ↦ absurd (ground (arith, e1))
    | inl (p, e1) ↦ elim (Result-cases (parse_members json i k p.1 vs)) [
      | inr (x, e2) ↦ absurd (ground (arith, e1, e2))
      | inl (q, e2) ↦
          let e : ms ≡ p.0 ∷ q.0 = ground (arith, e1, e2) in
          let (jbl, aura, _) = member_shown i k c v p.0 p.1 e1 in
          rw e (jbl, aura, parse_members-AllShown i k p.1 vs q.0 q.1 e2)
    ]
  ]

  counts_agree :
      (i k : DeviceIdentity) (vs : List V) (ms : List GroupMember)
      → AllShown i k vs ms
      → (count_named jbl_public_role ms ≡ count_for jbl_public_role i vs)
        × (count_named aura_public_role ms ≡ count_for aura_public_role k vs)
  counts_agree i k [] [] h = (refl, refl)
  counts_agree i k [] (m ∷ ms) h = absurd h
  counts_agree i k (v ∷ vs) [] h = absurd h
  counts_agree i k (v ∷ vs) (m ∷ ms) (jbl, aura, rest) =
      let (more_jbl, more_aura) = counts_agree i k vs ms rest in
      (ground (arith, jbl, more_jbl), ground (arith, aura, more_aura))

  -- A status that `parse_group_status` makes of a response shows no text of it but the fixed names and
  -- channels, and has two members, in the response's order: each under the JBL's or the Aura's name
  -- exactly if the response gives it that name and the expected identity. It tells the response's own
  -- disabled flag, and the pair configured exactly if one member of the response is that JBL, one that
  -- Aura, and the flag is not set.
  pub parse_group_status-IsFaithful :
      (v : V) (i k : DeviceIdentity) (s : GroupStatus)
      → parse_group_status json v i k ≡ ok s
      → IsFaithful v i k s
  unfolding group_status
  parse_group_status-IsFaithful v i k s h =
      let sanitized = parse_group_status-IsSanitized json v i k s h in
      let (group, vs, b, p, grouped, listed, told, _, parsed, made) =
        parsed_status json v i k s h in
      let shown : AllShown i k vs s.members =
        rw made (
          parse_members-AllShown i k (record { jbl_count = 0; aura_count = 0 }) vs p.0 p.1
            parsed) in
      let disabled : s.disabled ≡ some b = rw made refl in
      record {
        sanitized = sanitized;
        group = group;
        grouped = grouped;
        raw_members = vs;
        listed = listed;
        flag = b;
        told = told;
        disabled = disabled;
        shown = shown;
        verdict =
            ground (arith, sanitized.configured, disabled, counts_agree i k vs s.members shown);
      }
