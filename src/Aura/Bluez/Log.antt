-- ===== src/Aura/Bluez/Log.antt =====
-- The packets of rust/src/aura_bluez.rs, over sockets that keep a log of what they send.
use jbl_aura_play_together.Base.{ℕ, ◌+◌, Bool, false, List, [], ◌∷◌, ◌==◌, ◌&&◌, if◌then◌else◌}
use jbl_aura_play_together.Att.{SeqPacket}
use jbl_aura_play_together.Aura.Acquire.{Bluer}
use jbl_aura_play_together.Aura.Bluez.{Platform}

-- The world with the packets that have been handed to a socket, the latest first.
pub record Logged (W : Type 0) : Type 0 where
  pub outside : W
  pub packets : List (List ℕ)

abbrev pub lift : {A W : Type 0} → (W → A × W) → Logged W → A × Logged W
lift call l = let (a, w) = call l.outside in (a, record l { outside = w })

abbrev pub log_sockets : {K W : Type 0} → SeqPacket K W → SeqPacket K (Logged W)
log_sockets sockets = record {
  send = λ k bytes l.
      let (outcome, w) = sockets.send k bytes l.outside in
      (outcome, record { outside = w; packets = bytes ∷ l.packets });
  recv = λ k. lift (sockets.recv k);
  recv_now_or_never = λ k. lift (sockets.recv_now_or_never k);
}

abbrev pub log_bluer : {K W : Type 0} → Bluer K W → Bluer K (Logged W)
log_bluer b = record {
  session = lift b.session;
  adapter = lift b.adapter;
  is_powered = lift b.is_powered;
  adapter_address = lift b.adapter_address;
  device = λ a. lift (b.device a);
  address_type = λ a. lift (b.address_type a);
  is_paired = λ a. lift (b.is_paired a);
  is_trusted = λ a. lift (b.is_trusted a);
  is_blocked = λ a. lift (b.is_blocked a);
  set_discovery_filter = lift b.set_discovery_filter;
  device_addresses = lift b.device_addresses;
  scan = λ known. lift (b.scan known);
  new_seq_packet = lift b.new_seq_packet;
  bind = λ k a. lift (b.bind k a);
  set_security_low = λ k. lift (b.set_security_low k);
  connect = λ k a. lift (b.connect k a);
  peer_addr_is = λ k a. lift (b.peer_addr_is k a);
  deadline_passed = lift b.deadline_passed;
  sleep = λ l. record l { outside = b.sleep l.outside };
}

abbrev pub log_platform : {K B O W : Type 0} → Platform K B O W → Platform K B O (Logged W)
log_platform p = record {
  bluer = log_bluer p.bluer;
  sockets = log_sockets p.sockets;
  fds = record { poll = λ k. lift (p.fds.poll k); peek = λ k. lift (p.fds.peek k) };
  bluez = p.bluez;
  observer = p.observer;
  scan_attempts = p.scan_attempts;
  service_uuid = p.service_uuid;
}

-- An ATT Write Command to the Aura's write handle, 0x03ea.
abbrev pub is_role_write : List ℕ → Bool
is_role_write (code ∷ low ∷ high ∷ value) = code == 0x52 && low == 0xea && high == 0x03
is_role_write _ = false

abbrev pub role_writes : List (List ℕ) → ℕ
role_writes [] = 0
role_writes (bytes ∷ packets) = role_writes packets + (if is_role_write bytes then 1 else 0)

abbrev pub raw_writes : {W : Type 0} → Logged W → ℕ
raw_writes l = role_writes l.packets
