-- ===== src/Aura/Bluez/Keeps.antt =====
-- What the connections and the socket calls of rust/src/aura_bluez.rs write.
use jbl_aura_play_together.Base.{
  ℕ, ◌+◌, ◌≤◌, ◌∙◌, refl, inl, inr, zero, suc, arith, List, Result-cases,
}
use jbl_aura_play_together.Backend.{AuraAcquisitionRoute}
use jbl_aura_play_together.Model.{DeviceIdentity, binary}
use jbl_aura_play_together.Native.Types.{AuraFailureReason}
use jbl_aura_play_together.Att.{SeqPacket}
use jbl_aura_play_together.Att.Action.{ask, Keeps, ask-Keeps, after-Keeps}
use jbl_aura_play_together.Aura.Att.{
  att_write_request, send_exact_att_packet, receive_att_packet, raw_att_send_command,
  raw_att_wait_for_notification, drain, enable_raw_att_notifications,
}
use jbl_aura_play_together.Aura.Acquire.{
  Bluer, L2capSocketAddr, retry_connect_attempts, connect_att_socket, open_adapter,
  check_stable_device, connect_notifying, br_edr_att_socket_addresses,
  le_fixed_att_socket_addresses, connect_raw_att, scan_for, connect_le_raw_attempt, connect_le_raw,
}
use jbl_aura_play_together.Aura.Bluez.Log.{Logged, log_sockets, log_bluer, raw_writes}
use jbl_aura_play_together.Aura.Acquire.Retry.{retry-Keeps}

module _ {K W : Type 0} (outside : Bluer K W) (outside_sockets : SeqPacket K W) (uuid : ℕ) where
  abbrev bluer : Bluer K (Logged W)
  bluer = log_bluer outside

  abbrev sockets : SeqPacket K (Logged W)
  sockets = log_sockets outside_sockets

  pub connect_att_socket-Keeps :
      (a : L2capSocketAddr × L2capSocketAddr)
      → Keeps raw_writes (connect_att_socket bluer sockets uuid a)
  unfolding connect_att_socket
  connect_att_socket-Keeps a w = ground arith

  pub enable-Keeps : (k : K) → Keeps raw_writes (enable_raw_att_notifications sockets k)
  unfolding enable_raw_att_notifications att_write_request send_exact_att_packet receive_att_packet
  enable-Keeps k w = ground arith

  pub open_adapter-Keeps : Keeps raw_writes (open_adapter bluer sockets uuid)
  unfolding open_adapter
  open_adapter-Keeps w = ground arith

  pub check_stable_device-Keeps :
      (address : List ℕ) → Keeps raw_writes (check_stable_device bluer sockets uuid address)
  unfolding check_stable_device
  check_stable_device-Keeps address w = ground arith

  pub connect_notifying-Keeps :
      (a : L2capSocketAddr × L2capSocketAddr)
      → Keeps raw_writes (connect_notifying bluer sockets uuid a)
  unfolding connect_notifying
  connect_notifying-Keeps a w =
      let socket = connect_att_socket bluer sockets uuid a w in
      elim (Result-cases socket.0) [
        | inl (k, e) ↦ ground (arith, connect_att_socket-Keeps a w, enable-Keeps k socket.1)
        | inr (f, e) ↦ ground (arith, connect_att_socket-Keeps a w)
      ]

  pub connect_raw_att-Keeps :
      (identity : DeviceIdentity) (route : AuraAcquisitionRoute)
      → Keeps raw_writes (connect_raw_att bluer sockets uuid identity route)
  unfolding connect_raw_att
  connect_raw_att-Keeps identity route w =
      after-Keeps raw_writes _ (open_adapter bluer sockets uuid w) (λ local_address w1.
        after-Keeps raw_writes _ (check_stable_device bluer sockets uuid (binary identity) w1)
          (λ checked w2.
            after-Keeps raw_writes _
              (connect_notifying bluer sockets uuid
                (br_edr_att_socket_addresses local_address (binary identity)) w2)
              (λ socket w3. refl)
            ∙ connect_notifying-Keeps (br_edr_att_socket_addresses local_address (binary identity))
                w2)
        ∙ check_stable_device-Keeps (binary identity) w1)
      ∙ open_adapter-Keeps w

  pub scan_for-Keeps :
      (identity : DeviceIdentity) (known : List (List ℕ))
      → Keeps raw_writes (scan_for bluer sockets uuid identity known)
  unfolding scan_for
  scan_for-Keeps identity known w = ground arith

  pub connect_le_raw_attempt-Keeps :
      (identity : DeviceIdentity) (local_address : List ℕ)
      → Keeps raw_writes (connect_le_raw_attempt bluer sockets uuid identity local_address)
  unfolding connect_le_raw_attempt
  connect_le_raw_attempt-Keeps identity local_address w =
      after-Keeps raw_writes _
        (ask bluer.device_addresses AuraFailureReason.discovery_unavailable w)
        (λ known w1.
          after-Keeps raw_writes _ (scan_for bluer sockets uuid identity known w1) (λ device w2.
            connect_notifying-Keeps (le_fixed_att_socket_addresses local_address device) w2)
          ∙ scan_for-Keeps identity known w1)
      ∙ ask-Keeps raw_writes bluer.device_addresses AuraFailureReason.discovery_unavailable
          (λ w0. refl) w

  pub connect_le_raw-Keeps :
      (attempts : ℕ) (identity : DeviceIdentity)
      → Keeps raw_writes (connect_le_raw bluer sockets uuid attempts identity)
  unfolding connect_le_raw retry_connect_attempts
  connect_le_raw-Keeps attempts identity w =
      after-Keeps raw_writes _ (open_adapter bluer sockets uuid w) (λ local_address w1.
        after-Keeps raw_writes _
          (ask bluer.set_discovery_filter AuraFailureReason.discovery_unavailable w1)
          (λ filtered w2.
            after-Keeps raw_writes _
              (retry_connect_attempts bluer.deadline_passed bluer.sleep
                (connect_le_raw_attempt bluer sockets uuid identity local_address) attempts w2)
              (λ socket w3. refl)
            ∙ retry-Keeps raw_writes bluer.deadline_passed bluer.sleep
                (connect_le_raw_attempt bluer sockets uuid identity local_address) (λ w0. refl)
                (λ w0. refl) (connect_le_raw_attempt-Keeps identity local_address) attempts
                AuraFailureReason.verified_advertisement_not_found w2)
        ∙ ask-Keeps raw_writes bluer.set_discovery_filter AuraFailureReason.discovery_unavailable
            (λ w0. refl) w1)
      ∙ open_adapter-Keeps w

  pub send_command_once :
      (k : K) (bytes : List ℕ) (w : Logged W)
      → raw_writes (raw_att_send_command sockets k bytes w).1 ≤ raw_writes w + 1
  unfolding raw_att_send_command
  send_command_once k bytes w = ground arith

  pub wait-Keeps : (k : K) → Keeps raw_writes (raw_att_wait_for_notification sockets k)
  unfolding raw_att_wait_for_notification
  wait-Keeps k w = refl

  pub drain-Keeps : (n : ℕ) (k : K) → Keeps raw_writes (drain sockets n k)
  unfolding drain
  drain-Keeps zero k w = refl
  drain-Keeps (suc n) k w = ground (arith, drain-Keeps n k (sockets.recv_now_or_never k w).1)
