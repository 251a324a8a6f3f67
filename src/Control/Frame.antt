-- ===== src/Control/Frame.antt =====
-- Laws of `BroadcastCommand::pl_frame` in rust/src/control.rs.
use jbl_aura_play_together.Base.{
  ℕ, ◌+◌, ◌*◌, ◌/◌, ◌%◌, ◌≤◌, ◌≡◌, arith, ◌&&◌, ◌==◌, Option, some, none, List, ◌∷◌, length,
  if◌then◌else◌,
}
use jbl_aura_play_together.Model.{binary, joined}
use jbl_aura_play_together.Control.{
  BroadcastCommand, start, stop, command_id, payload_json, pl_frame,
}

-- A frame as a receiver reads it: the magic, the command and the length of the payload in little
-- endian, and a payload of that length.
unfoldable pub read_frame : List ℕ → Option (ℕ × List ℕ)
read_frame (m ∷ n ∷ c ∷ d ∷ k ∷ l ∷ payload) =
    if (m == b'P' && n == b'L') && length payload == k + 256 * l
    then some (c + 256 * d, payload)
    else none
read_frame _ = none

-- The payload that fits in one write at an MTU of 500.
abbrev pub max_write : ℕ
max_write = 497

payload_length : (c : BroadcastCommand) → length (payload_json c) ≤ 491
unfolding payload_json joined binary
payload_length (start i) = omega arith
payload_length stop = omega arith

read_frame-header :
    (payload : List ℕ)
    → length payload ≤ 491
    → read_frame
        (b'P' ∷ b'L' ∷ 21 ∷ 31 ∷ (length payload % 256) ∷ (length payload / 256 % 256) ∷ payload)
      ≡ some (7957, payload)
unfolding read_frame
read_frame-header payload h = ground arith

-- Every command has a frame, the frame is read back as the command id and the command's payload,
-- and it fits in one write at an MTU of 500.
pub pl_frame_reads_back :
    (c : BroadcastCommand)
    → (f : List ℕ) × (pl_frame c ≡ some f)
      × (read_frame f ≡ some (command_id, payload_json c))
      × (length f ≤ max_write)
unfolding pl_frame
pl_frame_reads_back c =
    let h = payload_length c in
    (_, ground (arith, h), read_frame-header (payload_json c) h, omega (arith, h))
