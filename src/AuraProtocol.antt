-- ===== src/AuraProtocol.antt =====
-- rust/src/aura_protocol.rs: the role frames of the Aura speaker, its acknowledgement, and the test
-- of a fresh advertisement against the configured identity.
use jbl_aura_play_together.Base.{
  ℕ, ◌≡◌, arith, Bool, true, ◌&&◌, leb, Option, none, some, List, [], ◌∷◌, length, take, drop, map,
  codes, same, to_ascii_lowercase, if◌then◌else◌,
}
use jbl_aura_play_together.Model.{DeviceIdentity, matches_binary}
use jbl_aura_play_together.Model.Identity.{matches_binary_unique}

abbrev pub harman_fddf_uuid : List ℕ
harman_fddf_uuid = codes "0000fddf-0000-1000-8000-00805f9b34fb"

abbrev pub aura_studio_5_pid : List ℕ
aura_studio_5_pid = 0x2d ∷ 0x21 ∷ []

abbrev pub stable_identity_offset : ℕ
stable_identity_offset = 11

abbrev pub stable_identity_end : ℕ
stable_identity_end = 17

abbrev pub success_ack : List ℕ
success_ack = 0xaa ∷ 0x00 ∷ 0x02 ∷ 0x13 ∷ 0x00 ∷ []

pub data AuraPlayTogetherCommand : Type 0 where
  on off : AuraPlayTogetherCommand

unfoldable pub frame : AuraPlayTogetherCommand → List ℕ
frame on = 0xaa ∷ 0x13 ∷ 0x04 ∷ 0x00 ∷ 0x3c ∷ 0x01 ∷ 0x01 ∷ []
frame off = 0xaa ∷ 0x13 ∷ 0x04 ∷ 0x00 ∷ 0x3c ∷ 0x01 ∷ 0x00 ∷ []

-- The value of `AuraCommandAccepted` carries nothing.
unfoldable pub parse_command_ack : List ℕ → Option (Unit {0})
parse_command_ack notification = if same notification success_ack then some tt else none

-- `str::eq_ignore_ascii_case`.
abbrev pub eq_ignore_ascii_case : List ℕ → List ℕ → Bool
eq_ignore_ascii_case s t = same (map to_ascii_lowercase s) (map to_ascii_lowercase t)

-- The slices behind the length test are within the payload.
unfoldable pub matches_verified_fddf : List ℕ → List ℕ → DeviceIdentity → Bool
matches_verified_fddf service_uuid payload expected_identity =
    eq_ignore_ascii_case service_uuid harman_fddf_uuid
    && leb stable_identity_end (length payload)
    && same (take 2 payload) aura_studio_5_pid
    && matches_binary expected_identity (take 6 (drop stable_identity_offset payload))

-- One advertisement verifies one identity at most.
pub matches_verified_fddf_unique :
    (uuid payload : List ℕ) (i k : DeviceIdentity)
    → matches_verified_fddf uuid payload i ≡ true
    → matches_verified_fddf uuid payload k ≡ true
    → i ≡ k
unfolding matches_verified_fddf
matches_verified_fddf_unique uuid payload i k h g =
    matches_binary_unique i k (take 6 (drop stable_identity_offset payload)) (ground arith)
      (ground arith)
