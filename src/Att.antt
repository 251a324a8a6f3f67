-- ===== src/Att.antt =====
-- The packet sockets that rust/src/aura_bluez.rs and jbl_gatt.rs speak ATT over. `bluer`'s `SeqPacket`
-- is a parameter: a socket of type `K` acts on the world `W` outside the program.
pub mod Action
use jbl_aura_play_together.Base.{ℕ, ◌+◌, ◌*◌, ◌/◌, ◌%◌, Bool, Option, Result, List, [], ◌∷◌}

-- `u16::to_le_bytes` before the value, and `u16::from_le_bytes`.
abbrev pub le_bytes : ℕ → List ℕ → List ℕ
le_bytes n rest = (n % 256) ∷ (n / 256 % 256) ∷ rest

abbrev pub from_le_bytes : ℕ → ℕ → ℕ
from_le_bytes low high = low + 256 * high

-- What became of a packet that was sent, with the number of bytes written, before its deadline.
pub data Sent : Type 0 where
  sent : ℕ → Sent
  send_failed send_timed_out : Sent

-- What was received before the deadline. A packet without bytes is the end of the stream.
pub data Received : Type 0 where
  packet : List ℕ → Received
  receive_failed receive_timed_out : Received

-- What `recv(..).now_or_never()` found.
pub data Polled : Type 0 where
  pending polled_failed : Polled
  polled : List ℕ → Polled

pub record SeqPacket (K W : Type 0) : Type 0 where
  pub send : K → List ℕ → W → Sent × W
  pub recv : K → W → Received × W
  pub recv_now_or_never : K → W → Polled × W
