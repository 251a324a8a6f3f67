-- ===== src/Aura/Att.antt =====
-- The ATT packets that rust/src/aura_bluez.rs exchanges with the Aura.
use jbl_aura_play_together.Base.{
  ℕ, zero, suc, Bool, true, false, ◌&&◌, ◌==◌, some, none, List, [], ◌∷◌, length, Result, ok, err,
  if◌then◌else◌,
}
use jbl_aura_play_together.AuraProtocol.{parse_command_ack}
use jbl_aura_play_together.Native.Types.{AuraFailureReason}
use jbl_aura_play_together.Aura.{AckObservation}
use jbl_aura_play_together.Att.{
  le_bytes, from_le_bytes, sent, send_failed, send_timed_out, packet, receive_failed,
  receive_timed_out, pending, polled_failed, polled, SeqPacket,
}

abbrev pub max_stale_notifications : ℕ
max_stale_notifications = 32

abbrev pub att_write_request_code : ℕ
att_write_request_code = 0x12

abbrev pub att_write_response : ℕ
att_write_response = 0x13

abbrev pub att_write_command_code : ℕ
att_write_command_code = 0x52

abbrev pub att_handle_value_notification : ℕ
att_handle_value_notification = 0x1b

abbrev pub att_aura_write_handle : ℕ
att_aura_write_handle = 0x03ea

abbrev pub att_aura_notify_handle : ℕ
att_aura_notify_handle = 0x03ec

abbrev pub att_aura_cccd_handle : ℕ
att_aura_cccd_handle = 0x03ed

pub data AttPdu : Type 0 where
  write_response other : AttPdu
  notification : ℕ → List ℕ → AttPdu

unfoldable pub att_write_request : ℕ → List ℕ → List ℕ
att_write_request handle value = att_write_request_code ∷ le_bytes handle value

unfoldable pub att_write_command : ℕ → List ℕ → List ℕ
att_write_command handle value = att_write_command_code ∷ le_bytes handle value

abbrev notification_of : List ℕ → AttPdu
notification_of (low ∷ high ∷ value) = notification (from_le_bytes low high) value
notification_of _ = other

abbrev is_empty : List ℕ → Bool
is_empty [] = true
is_empty (b ∷ bytes) = false

unfoldable pub parse_att_pdu : List ℕ → AttPdu
parse_att_pdu [] = other
parse_att_pdu (code ∷ rest) =
    if code == att_write_response && is_empty rest
    then write_response
    else if code == att_handle_value_notification
    then notification_of rest
    else other

abbrev is_write_response : AttPdu → Bool
is_write_response write_response = true
is_write_response _ = false

-- The observation behind a received packet in `raw_att_wait_for_notification`.
unfoldable pub observe_ack : List ℕ → AckObservation
unfolding parse_att_pdu parse_command_ack
observe_ack bytes = elim (parse_att_pdu bytes) [
  | notification handle value ↦ elim (parse_command_ack value) [
    | some ack ↦
        if handle == att_aura_notify_handle
        then AckObservation.accepted
        else AckObservation.unexpected
    | none ↦ AckObservation.unexpected
  ]
  | write_response ↦ AckObservation.unexpected
  | other ↦ AckObservation.unexpected
]

module _ {K W : Type 0} (sockets : SeqPacket K W) where
  unfoldable pub send_exact_att_packet :
      K → List ℕ → AuraFailureReason → W → Result (Unit {0}) AuraFailureReason × W
  send_exact_att_packet socket bytes failure w =
      let (outcome, w1) = sockets.send socket bytes w in
      (
        elim outcome [
          | sent written ↦ if written == length bytes then ok tt else err failure
          | send_failed ↦ err failure
          | send_timed_out ↦ err failure
        ],
        w1,
      )

  unfoldable pub receive_att_packet :
      K → AuraFailureReason → W → Result (List ℕ) AuraFailureReason × W
  receive_att_packet socket failure w =
      let (outcome, w1) = sockets.recv socket w in
      (
        elim outcome [
          | packet bytes ↦ if is_empty bytes then err failure else ok bytes
          | receive_failed ↦ err failure
          | receive_timed_out ↦ err failure
        ],
        w1,
      )

  -- With the deadline that `begin_write` sets around it.
  unfoldable pub raw_att_send_command : K → List ℕ → W → Result (Unit {0}) AuraFailureReason × W
  unfolding att_write_command
  raw_att_send_command socket bytes w =
      let request = att_write_command att_aura_write_handle bytes in
      let (outcome, w1) = sockets.send socket request w in
      (
        elim outcome [
          | sent written ↦
              if written == length request then ok tt else err AuraFailureReason.write_failed
          | send_failed ↦ err AuraFailureReason.write_failed
          | send_timed_out ↦ err AuraFailureReason.write_failed
        ],
        w1,
      )

  -- With the deadline that `wait_for_ack` sets around it.
  unfoldable pub raw_att_wait_for_notification : K → W → Result AckObservation AuraFailureReason × W
  unfolding observe_ack
  raw_att_wait_for_notification socket w =
      let (outcome, w1) = sockets.recv socket w in
      (
        elim outcome [
          | packet bytes ↦
              if is_empty bytes
              then err AuraFailureReason.acknowledgement_channel_closed
              else ok (observe_ack bytes)
          | receive_failed ↦ err AuraFailureReason.acknowledgement_channel_closed
          | receive_timed_out ↦ err AuraFailureReason.acknowledgement_timed_out
        ],
        w1,
      )

  -- The loop of `drain_raw_att_packets` with `n` rounds left.
  unfoldable pub drain : ℕ → K → W → Result (Unit {0}) AuraFailureReason × W
  drain zero socket w = (err AuraFailureReason.notification_queue_invalid, w)
  drain (suc n) socket w =
      let (found, w1) = sockets.recv_now_or_never socket w in
      let rest = drain n socket w1 in
      elim found [
        | pending ↦ (ok tt, w1)
        | polled_failed ↦ (err AuraFailureReason.acknowledgement_channel_closed, w1)
        | polled bytes ↦
            if is_empty bytes
            then (err AuraFailureReason.acknowledgement_channel_closed, w1)
            else rest
      ]

  unfoldable pub drain_raw_att_packets : K → W → Result (Unit {0}) AuraFailureReason × W
  unfolding drain
  drain_raw_att_packets = drain max_stale_notifications

  unfoldable pub enable_raw_att_notifications : K → W → Result (Unit {0}) AuraFailureReason × W
  unfolding att_write_request parse_att_pdu send_exact_att_packet receive_att_packet
  enable_raw_att_notifications socket w =
      let request = att_write_request att_aura_cccd_handle (0x01 ∷ 0x00 ∷ []) in
      let (asked, w1) =
        send_exact_att_packet socket request AuraFailureReason.notification_setup_failed w in
      let (answered, w2) =
        receive_att_packet socket AuraFailureReason.notification_setup_failed w1 in
      elim asked [
        | err reason ↦ (err reason, w1)
        | ok _ ↦ elim answered [
          | err reason ↦ (err reason, w2)
          | ok response ↦ (
            if is_write_response (parse_att_pdu response)
                then ok tt
                else err AuraFailureReason.gatt_profile_invalid,
            w2,
          )
        ]
      ]
