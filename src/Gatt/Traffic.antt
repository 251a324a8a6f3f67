-- ===== src/Gatt/Traffic.antt =====
-- What rust/src/jbl_gatt.rs sends and reads for one command.
use jbl_aura_play_together.Base.{
  ℕ, zero, suc, ◌+◌, ◌≤◌, ◌-◌, ◌≡◌, ◌⊎◌, arith, Bool, true, false, ◌&&◌, some, none, List, [], ◌∷◌,
  length, is_ok,
}
use jbl_aura_play_together.Model.{DeviceIdentity, binary}
use jbl_aura_play_together.Control.{BroadcastCommand, pl_frame}
use jbl_aura_play_together.Control.Frame.{pl_frame_reads_back}
use jbl_aura_play_together.Native.Types.{JblGattFailure}
use jbl_aura_play_together.Aura.Acquire.{Bluer}
use jbl_aura_play_together.Att.Action.{Ensures, after-Ensures, after_ok, ask}
use jbl_aura_play_together.Att.{le_bytes, Received, packet, SeqPacket}
use jbl_aura_play_together.Gatt.{
  JblBearer, is_write_response, is_notification, classify_write_response, att_write_packet,
  parse_mtu_response, jbl_value_handle, send_exact, receive, wait_for_ack, write_frame,
  write_and_wait_for_ack, execute, exchange_mtu, measured, open_adapter, connect_public_bearer,
  public_att_socket_addresses, connect_att_socket, max_packets_per_action,
}

-- The world with the packets handed over and the answers read, the latest first.
pub record Traffic (W : Type 0) : Type 0 where
  pub outside : W
  pub sends : List (List ℕ)
  pub reads : List Received

abbrev pub watch : {K W : Type 0} → SeqPacket K W → SeqPacket K (Traffic W)
watch sockets = record {
  send = λ k bytes t.
      let (outcome, w) = sockets.send k bytes t.outside in
      (outcome, record t { outside = w; sends = bytes ∷ t.sends });
  recv = λ k t.
      let (received, w) = sockets.recv k t.outside in
      (received, record t { outside = w; reads = received ∷ t.reads });
  recv_now_or_never = λ k t.
      let (found, w) = sockets.recv_now_or_never k t.outside in (found, record t { outside = w });
}

abbrev pub quiet : {W : Type 0} → W → Traffic W
quiet w = record { outside = w; sends = []; reads = [] }

abbrev pub are_notifications : List Received → Bool
are_notifications [] = true
are_notifications (packet bytes ∷ reads) = is_notification bytes && are_notifications reads
are_notifications (_ ∷ reads) = false

-- The answers, the latest first, that acknowledge a write: the exact write response, behind
-- notifications alone.
abbrev pub acknowledges : List Received → Bool
acknowledges (packet bytes ∷ earlier) = is_write_response bytes && are_notifications earlier
acknowledges _ = false

module _ {K W : Type 0} (sockets : SeqPacket K W) where
  wait_for_ack_reads :
      (n : ℕ) (k : K) (t : Traffic W)
      → are_notifications t.reads ≡ true
      → let (result, t1) = wait_for_ack (watch sockets) n k t in
        (t1.sends ≡ t.sends)
        × (length t1.reads ≤ length t.reads + n)
        × ((is_ok result ≡ false) ⊎ (acknowledges t1.reads ≡ true))
  unfolding wait_for_ack receive classify_write_response
  wait_for_ack_reads zero k t h = ground arith
  wait_for_ack_reads (suc n) k t h =
      let (received, w) = sockets.recv k t.outside in
      ground (arith, wait_for_ack_reads n k (record t { outside = w; reads = received ∷ t.reads }))

  write_frame_traffic :
      (b : JblBearer K) (frame : List ℕ) (w : W)
      → let (result, t) = write_frame (watch sockets) b frame (quiet w) in
        (length t.sends ≤ 1)
        × (length t.reads ≤ max_packets_per_action)
        × ((is_ok result ≡ false)
            ⊎ ((t.sends ≡ (0x12 ∷ le_bytes jbl_value_handle frame) ∷ [])
                × (length frame ≤ b.mtu - 3)
                × (acknowledges t.reads ≡ true)))
  unfolding write_frame send_exact att_write_packet
  write_frame_traffic b frame w =
      let bytes = 0x12 ∷ le_bytes jbl_value_handle frame in
      let sent = (sockets.send b.socket bytes w).1 in
      ground (
        arith,
        wait_for_ack_reads max_packets_per_action b.socket
            (record { outside = sent; sends = bytes ∷ []; reads = [] }),
      )

  -- One armed transport, whatever the socket answers to a command: at most one packet is sent and at
  -- most 32 are read, the bearer is consumed, and the result is a success only where the one packet
  -- was the write request of the command's whole frame, within the MTU, and the packets read were
  -- notifications and then the exact write response.
  pub execute_traffic :
      (bluer : Bluer K (Traffic W)) (b : JblBearer K) (c : BroadcastCommand) (w : W)
      → (f : List ℕ) × (pl_frame c ≡ some f)
        × (let (result, t) =
              execute bluer (watch sockets) c (record { bearer = some b; world = quiet w }) in
            (t.bearer ≡ none)
            × (length t.world.sends ≤ 1)
            × (length t.world.reads ≤ 32)
            × ((is_ok result ≡ false)
                ⊎ ((t.world.sends ≡ (0x12 ∷ le_bytes jbl_value_handle f) ∷ [])
                    × (length f ≤ b.mtu - 3)
                    × (acknowledges t.world.reads ≡ true))))
  unfolding execute write_and_wait_for_ack
  execute_traffic bluer b c w =
      let (f, framed, reads, fits) = pl_frame_reads_back c in
      (f, framed, ground (arith, framed, write_frame_traffic b f w))

-- The MTU of a bearer: what the speaker offers, at least the 23 of ATT and at most the 500 asked for.
module _ {K W : Type 0} (bluer : Bluer K W) (sockets : SeqPacket K W) where
  abbrev HasMtu : JblBearer K → Type 0
  HasMtu b = (23 ≤ b.mtu) × (b.mtu ≤ 500)

  parse_mtu_response_bounds :
      (response : List ℕ) (m : ℕ) → parse_mtu_response response ≡ some m → (23 ≤ m) × (m ≤ 500)
  unfolding parse_mtu_response
  parse_mtu_response_bounds response m h = ground arith

  abbrev MtuIn : ℕ → Type 0
  MtuIn m = (23 ≤ m) × (m ≤ 500)

  exchange_mtu-MtuIn : (k : K) → Ensures MtuIn (exchange_mtu sockets k)
  unfolding exchange_mtu
  exchange_mtu-MtuIn k w =
      after-Ensures MtuIn _ (send_exact sockets k _ JblGattFailure.mtu_exchange_failed w)
        (λ asked w1.
          after-Ensures MtuIn _ (receive sockets k JblGattFailure.mtu_exchange_failed w1)
            (λ response w2 m h. parse_mtu_response_bounds response m (ground arith)))

  measured-HasMtu : (k : K) → Ensures HasMtu (measured sockets k)
  unfolding measured
  measured-HasMtu k w b h =
      let (m, e, p) = after_ok _ (exchange_mtu sockets k w) b h in
      let bounds = exchange_mtu-MtuIn k w m e in ground (arith, bounds, p)

  -- A connection that succeeds has agreed on an MTU that the speaker offered, of at least the 23 that
  -- ATT guarantees and at most the 500 that were asked for.
  connect_public_bearer-HasMtu :
      (i : DeviceIdentity) → Ensures HasMtu (connect_public_bearer bluer sockets i)
  unfolding connect_public_bearer
  connect_public_bearer-HasMtu i w =
      after-Ensures HasMtu _ (open_adapter bluer sockets w) (λ local_address w1.
        after-Ensures HasMtu _
          (ask (bluer.device (binary i)) JblGattFailure.device_connection_failed w1)
          (λ opened w2.
            after-Ensures HasMtu _
              (connect_att_socket bluer sockets
                (public_att_socket_addresses local_address (binary i)) w2)
              measured-HasMtu))
