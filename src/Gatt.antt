-- ===== src/Gatt.antt =====
-- rust/src/jbl_gatt.rs: one command to the JBL speaker over an LE ATT bearer. `bluer` and the
-- kernel's sockets are parameters that act on the world `W`.
pub mod Traffic
use jbl_aura_play_together.Base.{
  ℕ, zero, suc, ◌-◌, min, Bool, true, false, ◌&&◌, ltb, leb, ◌==◌, Option, some, none, List, [],
  ◌∷◌, length, Result, ok, err, if◌then◌else◌,
}
use jbl_aura_play_together.Model.{DeviceIdentity, binary}
use jbl_aura_play_together.Control.{BroadcastCommand, pl_frame}
use jbl_aura_play_together.Native.Types.{JblGattFailure}
use jbl_aura_play_together.Native.Coordinator.{BroadcastMutationTransport}
use jbl_aura_play_together.Att.{
  le_bytes, from_le_bytes, Sent, sent, send_failed, send_timed_out, Received, packet,
  receive_failed, receive_timed_out, SeqPacket,
}
use jbl_aura_play_together.Att.Action.{Action, ◌>>=◌, ◌>>◌, pure, ask, ensure}
use jbl_aura_play_together.Aura.Scan.{le_public}
use jbl_aura_play_together.Aura.Acquire.{Bluer, L2capSocketAddr, fields, att_fixed_cid}

abbrev pub jbl_value_handle : ℕ
jbl_value_handle = 0x002a

abbrev pub requested_mtu : ℕ
requested_mtu = 500

abbrev pub max_packets_per_action : ℕ
max_packets_per_action = 32

pub data WriteResponseKind : Type 0 where
  accepted notification rejected unexpected : WriteResponseKind

pub record JblBearer (K : Type 0) : Type 0 where
  pub socket : K
  pub mtu : ℕ

-- The transport, with the world that its calls change.
pub record JblGattBroadcastTransport (K W : Type 0) : Type 0 where
  pub bearer : Option (JblBearer K)
  pub world : W

abbrev pub mtu_of : ℕ → Option ℕ
mtu_of server_mtu = if leb 23 server_mtu then some (min server_mtu requested_mtu) else none

unfoldable pub parse_mtu_response : List ℕ → Option ℕ
parse_mtu_response (code ∷ low ∷ high ∷ []) =
    if code == 0x03 then mtu_of (from_le_bytes low high) else none
parse_mtu_response _ = none

-- The second arm of `classify_write_response`.
abbrev pub is_rejection : List ℕ → Bool
is_rejection (code ∷ request ∷ low ∷ high ∷ reason ∷ []) =
    code == 0x01 && request == 0x12 && from_le_bytes low high == jbl_value_handle
is_rejection _ = false

abbrev pub is_write_response : List ℕ → Bool
is_write_response (code ∷ []) = code == 0x13
is_write_response _ = false

abbrev pub is_notification : List ℕ → Bool
is_notification (code ∷ rest) = code == 0x1b
is_notification [] = false

unfoldable pub classify_write_response : List ℕ → WriteResponseKind
classify_write_response response =
    if is_write_response response
    then accepted
    else if is_rejection response
    then rejected
    else if is_notification response
    then notification
    else unexpected

unfoldable pub att_write_packet : List ℕ → ℕ → Result (List ℕ) JblGattFailure
att_write_packet frame mtu =
    if ltb (mtu - 3) (length frame)
    then err JblGattFailure.frame_too_large
    else ok (0x12 ∷ le_bytes jbl_value_handle frame)

abbrev pub public_att_socket_addresses : List ℕ → List ℕ → L2capSocketAddr × L2capSocketAddr
public_att_socket_addresses local_address target_address = (
  fields local_address le_public 0 att_fixed_cid,
  fields target_address le_public 0 att_fixed_cid,
)

abbrev pub is_empty : List ℕ → Bool
is_empty [] = true
is_empty (b ∷ bytes) = false

module _ {K W : Type 0} (sockets : SeqPacket K W) where
  unfoldable pub send_exact : K → List ℕ → JblGattFailure → Action W JblGattFailure (Unit {0})
  send_exact socket payload failure w =
      let (outcome, w1) = sockets.send socket payload w in
      (
        elim outcome [
          | sent written ↦ if written == length payload then ok tt else err failure
          | send_failed ↦ err failure
          | send_timed_out ↦ err failure
        ],
        w1,
      )

  unfoldable pub receive : K → JblGattFailure → Action W JblGattFailure (List ℕ)
  receive socket timeout_failure w =
      let (outcome, w1) = sockets.recv socket w in
      (
        elim outcome [
          | packet bytes ↦ if is_empty bytes then err JblGattFailure.channel_closed else ok bytes
          | receive_failed ↦ err JblGattFailure.channel_closed
          | receive_timed_out ↦ err timeout_failure
        ],
        w1,
      )

  unfoldable pub exchange_mtu : K → Action W JblGattFailure ℕ
  unfolding send_exact receive parse_mtu_response
  exchange_mtu socket = do
    send_exact socket (0x02 ∷ le_bytes requested_mtu []) JblGattFailure.mtu_exchange_failed
    response ← receive socket JblGattFailure.mtu_exchange_failed
    ask (λ w. (parse_mtu_response response, w)) JblGattFailure.mtu_exchange_failed

  -- The end of `connect_public_bearer`.
  unfoldable pub measured : K → Action W JblGattFailure (JblBearer K)
  unfolding exchange_mtu
  measured socket = do mtu ← exchange_mtu socket; pure (record { socket = socket; mtu = mtu })

  -- The loop of `write_and_wait_for_ack` with `n` packets left.
  unfoldable pub wait_for_ack : ℕ → K → Action W JblGattFailure (Unit {0})
  unfolding receive classify_write_response
  wait_for_ack zero socket w = (err JblGattFailure.unexpected_response, w)
  wait_for_ack (suc n) socket w =
      let (received, w1) = receive socket JblGattFailure.write_response_timed_out w in
      let rest = wait_for_ack n socket w1 in
      elim received [
        | err failure ↦ (err failure, w1)
        | ok response ↦ elim (classify_write_response response) [
          | accepted ↦ (ok tt, w1)
          | notification ↦ rest
          | rejected ↦ (err JblGattFailure.write_failed, w1)
          | unexpected ↦ (err JblGattFailure.unexpected_response, w1)
        ]
      ]

  -- `write_and_wait_for_ack` with the command's frame. The source's `pl_frame` panics where there is
  -- none.
  unfoldable pub write_frame : JblBearer K → List ℕ → Action W JblGattFailure (Unit {0})
  unfolding att_write_packet send_exact wait_for_ack
  write_frame bearer frame w = elim (att_write_packet frame bearer.mtu) [
    | err failure ↦ (err failure, w)
    | ok bytes ↦
        let (written, w1) = send_exact bearer.socket bytes JblGattFailure.write_failed w in
        let rest = wait_for_ack max_packets_per_action bearer.socket w1 in
        elim written [ err failure ↦ (err failure, w1) | ok _ ↦ rest ]
  ]

  unfoldable pub write_and_wait_for_ack :
      JblBearer K → BroadcastCommand → Action W JblGattFailure (Unit {0})
  unfolding write_frame pl_frame
  write_and_wait_for_ack bearer command w = elim (pl_frame command) [
    | none ↦ (err JblGattFailure.frame_too_large, w)
    | some frame ↦ write_frame bearer frame w
  ]

module _ {K W : Type 0} (bluer : Bluer K W) (sockets : SeqPacket K W) where
  unfoldable pub connect_att_socket : L2capSocketAddr × L2capSocketAddr → Action W JblGattFailure K
  connect_att_socket (local_address, target) = do
    socket ← ask bluer.new_seq_packet JblGattFailure.device_connection_failed
    ask (bluer.bind socket local_address) JblGattFailure.device_connection_failed
    ask (bluer.set_security_low socket) JblGattFailure.device_connection_failed
    ask (bluer.connect socket target) JblGattFailure.device_connection_failed
    same_peer ← ask (bluer.peer_addr_is socket target) JblGattFailure.device_connection_failed
    ensure same_peer JblGattFailure.device_connection_failed
    pure socket

  -- The part of `connect_public_bearer` that reads the adapter.
  unfoldable pub open_adapter : Action W JblGattFailure (List ℕ)
  open_adapter = do
    ask bluer.session JblGattFailure.adapter_unavailable
    ask bluer.adapter JblGattFailure.adapter_unavailable
    powered ← ask bluer.is_powered JblGattFailure.adapter_unavailable
    ensure powered JblGattFailure.adapter_powered_off
    ask bluer.adapter_address JblGattFailure.adapter_unavailable

  unfoldable pub connect_public_bearer : DeviceIdentity → Action W JblGattFailure (JblBearer K)
  unfolding open_adapter connect_att_socket measured
  connect_public_bearer identity = do
    local_address ← open_adapter
    ask (bluer.device (binary identity)) JblGattFailure.device_connection_failed
    socket ← connect_att_socket (public_att_socket_addresses local_address (binary identity))
    measured sockets socket

  unfoldable pub arm :
      DeviceIdentity
      → JblGattBroadcastTransport K W
      → Result (Unit {0}) JblGattFailure × JblGattBroadcastTransport K W
  unfolding connect_public_bearer
  arm identity t =
      let (connected, w) = connect_public_bearer identity t.world in
      elim connected [
        | err failure ↦ (err failure, record { bearer = none; world = w })
        | ok bearer ↦ (ok tt, record { bearer = some bearer; world = w })
      ]

  unfoldable pub execute :
      BroadcastCommand
      → JblGattBroadcastTransport K W
      → Result (Unit {0}) JblGattFailure × JblGattBroadcastTransport K W
  unfolding write_and_wait_for_ack
  execute command t = elim t.bearer [
    | none ↦ (err JblGattFailure.transport_not_ready, t)
    | some bearer ↦
        let (result, w) = write_and_wait_for_ack sockets bearer command t.world in
        (result, record { bearer = none; world = w })
  ]

  unfoldable pub cancel : JblGattBroadcastTransport K W → JblGattBroadcastTransport K W
  cancel t = record t { bearer = none }

  -- `impl BroadcastMutationTransport for JblGattBroadcastTransport`.
  unfoldable pub gatt_transport : BroadcastMutationTransport (JblGattBroadcastTransport K W)
  unfolding arm execute cancel
  gatt_transport = record {
    arm_mutation = arm;
    execute_mutation = execute;
    cancel_mutation = cancel;
  }
