-- ===== src/Aura/Acquire.antt =====
-- How rust/src/aura_bluez.rs opens its two kinds of bearer. `bluer`, the kernel's sockets and the
-- clock are parameters that act on the world `W`; a call that misses its deadline fails.
pub mod Retry
use jbl_aura_play_together.Base.{
  ℕ, zero, suc, Bool, true, false, not, ◌&&◌, ◌||◌, ◌==◌, Option, some, none, List, [], ◌∷◌, Result,
  ok, err, if◌then◌else◌,
}
use jbl_aura_play_together.Backend.{AuraAcquisitionRoute}
use jbl_aura_play_together.Model.{DeviceIdentity, binary}
use jbl_aura_play_together.Native.Types.{AuraFailureReason, AuraBearerTransport}
use jbl_aura_play_together.Att.{SeqPacket}
use jbl_aura_play_together.Att.Action.{Action, ◌>>=◌, ◌>>◌, pure, ask, ensure}
use jbl_aura_play_together.Aura.Att.{enable_raw_att_notifications}
use jbl_aura_play_together.Aura.Scan.{
  AddressType, br_edr, le_public, le_random, ScanTrace, scan_once,
}

abbrev pub att_psm : ℕ
att_psm = 0x001f

abbrev pub att_fixed_cid : ℕ
att_fixed_cid = 0x0004

-- `L2capSocketAddr`, by its fields or by its `new`.
pub data L2capSocketAddr : Type 0 where
  fields : List ℕ → AddressType → ℕ → ℕ → L2capSocketAddr
  new : List ℕ → AddressType → ℕ → L2capSocketAddr

-- What the source calls of `bluer` and of its sockets.
pub record Bluer (K W : Type 0) : Type 0 where
  pub session : W → Option (Unit {0}) × W
  pub adapter : W → Option (Unit {0}) × W
  pub is_powered : W → Option Bool × W
  pub adapter_address : W → Option (List ℕ) × W
  pub device : List ℕ → W → Option (Unit {0}) × W
  pub address_type : List ℕ → W → Option AddressType × W
  pub is_paired : List ℕ → W → Option Bool × W
  pub is_trusted : List ℕ → W → Option Bool × W
  pub is_blocked : List ℕ → W → Option Bool × W
  pub set_discovery_filter : W → Option (Unit {0}) × W
  pub device_addresses : W → Option (List (List ℕ)) × W
  -- The events of one scan, until its deadline.
  pub scan : List (List ℕ) → W → ScanTrace × W
  pub new_seq_packet : W → Option K × W
  pub bind : K → L2capSocketAddr → W → Option (Unit {0}) × W
  pub set_security_low : K → W → Option (Unit {0}) × W
  pub connect : K → L2capSocketAddr → W → Option (Unit {0}) × W
  -- Whether `peer_addr` is the address, `none` where it cannot be read.
  pub peer_addr_is : K → L2capSocketAddr → W → Option Bool × W
  pub deadline_passed : W → Bool × W
  pub sleep : W → W

pub record RawAttBearer (K : Type 0) : Type 0 where
  pub expected_identity : DeviceIdentity
  pub transport : AuraBearerTransport
  pub acquisition_route : AuraAcquisitionRoute
  pub socket : K

abbrev pub stable_paired_address_type : AddressType → Bool
stable_paired_address_type br_edr = true
stable_paired_address_type le_public = true
stable_paired_address_type le_random = false

unfoldable pub verified_stable_device : AddressType → Bool → Bool → Bool → Bool
verified_stable_device address_type paired trusted blocked =
    stable_paired_address_type address_type && paired && trusted && not blocked

abbrev pub br_edr_att_socket_addresses : List ℕ → List ℕ → L2capSocketAddr × L2capSocketAddr
br_edr_att_socket_addresses local_address target_address =
    (new local_address br_edr 0, new target_address br_edr att_psm)

abbrev pub le_fixed_att_socket_addresses : List ℕ → List ℕ → L2capSocketAddr × L2capSocketAddr
le_fixed_att_socket_addresses local_address target_address = (
  fields local_address le_public 0 att_fixed_cid,
  fields target_address le_random 0 att_fixed_cid,
)

abbrev pub reason_of :
    {A : Type 0} → AuraFailureReason → Result A AuraFailureReason → AuraFailureReason
reason_of last_reason (ok value) = last_reason
reason_of last_reason (err reason) = reason

-- The loop of `retry_connect_attempts` with `n` attempts left.
module _ {W A : Type 0} (deadline_passed : W → Bool × W) (sleep : W → W)
    (attempt : Action W AuraFailureReason A) where
  unfoldable pub retry : ℕ → AuraFailureReason → Action W AuraFailureReason A
  retry zero last_reason w = (err last_reason, w)
  retry (suc n) last_reason w =
      let (late, w1) = deadline_passed w in
      let (connected, w2) = attempt w1 in
      let (late_again, w3) = deadline_passed w2 in
      let reason = reason_of last_reason connected in
      let last = retry n reason w2 in
      let more = retry n reason (if late_again then w3 else sleep w3) in
      if late
      then (err last_reason, w1)
      else elim connected [ ok value ↦ (ok value, w2) | err reason ↦ if n == 0 then last else more ]

  unfoldable pub retry_connect_attempts : ℕ → Action W AuraFailureReason A
  unfolding retry
  retry_connect_attempts scan_attempts =
      retry scan_attempts AuraFailureReason.verified_advertisement_not_found

module _ {K W : Type 0} (bluer : Bluer K W) (sockets : SeqPacket K W) (service_uuid : ℕ) where
  unfoldable pub connect_att_socket :
      L2capSocketAddr × L2capSocketAddr → Action W AuraFailureReason K
  connect_att_socket (local_address, target) = do
    socket ← ask bluer.new_seq_packet AuraFailureReason.device_connection_failed
    ask (bluer.bind socket local_address) AuraFailureReason.device_connection_failed
    ask (bluer.set_security_low socket) AuraFailureReason.device_connection_failed
    ask (bluer.connect socket target) AuraFailureReason.device_connection_failed
    same_peer ← ask (bluer.peer_addr_is socket target) AuraFailureReason.device_connection_failed
    ensure same_peer AuraFailureReason.device_connection_failed
    pure socket

  -- The common beginning of `connect_raw_att` and `connect_le_raw`.
  unfoldable pub open_adapter : Action W AuraFailureReason (List ℕ)
  open_adapter = do
    ask bluer.session AuraFailureReason.adapter_unavailable
    ask bluer.adapter AuraFailureReason.adapter_unavailable
    powered ← ask bluer.is_powered AuraFailureReason.adapter_unavailable
    ensure powered AuraFailureReason.adapter_powered_off
    ask bluer.adapter_address AuraFailureReason.adapter_unavailable

  -- `connect_att_socket`, and the notifications enabled on the socket.
  unfoldable pub connect_notifying :
      L2capSocketAddr × L2capSocketAddr → Action W AuraFailureReason K
  unfolding connect_att_socket
  connect_notifying addresses = do
    socket ← connect_att_socket addresses
    enable_raw_att_notifications sockets socket
    pure socket

  -- The part of `connect_raw_att` that reads the properties of the stable device.
  unfoldable pub check_stable_device : List ℕ → Action W AuraFailureReason (Unit {0})
  unfolding verified_stable_device
  check_stable_device address = do
    ask (bluer.device address) AuraFailureReason.device_connection_failed
    address_type ← ask (bluer.address_type address) AuraFailureReason.device_connection_failed
    paired ← ask (bluer.is_paired address) AuraFailureReason.device_connection_failed
    trusted ← ask (bluer.is_trusted address) AuraFailureReason.device_connection_failed
    blocked ← ask (bluer.is_blocked address) AuraFailureReason.device_connection_failed
    ensure (verified_stable_device address_type paired trusted blocked)
        AuraFailureReason.device_connection_failed

  unfoldable pub connect_raw_att :
      DeviceIdentity → AuraAcquisitionRoute → Action W AuraFailureReason (RawAttBearer K)
  unfolding open_adapter check_stable_device connect_notifying
  connect_raw_att expected_identity acquisition_route = do
    local_address ← open_adapter
    check_stable_device (binary expected_identity)
    socket ←
        connect_notifying (br_edr_att_socket_addresses local_address (binary expected_identity))
    pure (record {
      expected_identity = expected_identity;
      transport = AuraBearerTransport.br_edr;
      acquisition_route = acquisition_route;
      socket = socket;
    })

  unfoldable pub scan_for : DeviceIdentity → List (List ℕ) → Action W AuraFailureReason (List ℕ)
  unfolding scan_once
  scan_for expected_identity known = do
    found ← λ w.
        let (trace, w1) = bluer.scan known w in
        (scan_once known service_uuid expected_identity trace, w1)
    ask (λ w. (found, w)) AuraFailureReason.verified_advertisement_not_found

  unfoldable pub connect_le_raw_attempt : DeviceIdentity → List ℕ → Action W AuraFailureReason K
  unfolding scan_for connect_notifying
  connect_le_raw_attempt expected_identity local_address = do
    known ← ask bluer.device_addresses AuraFailureReason.discovery_unavailable
    device ← scan_for expected_identity known
    connect_notifying (le_fixed_att_socket_addresses local_address device)

  unfoldable pub connect_le_raw : ℕ → DeviceIdentity → Action W AuraFailureReason (RawAttBearer K)
  unfolding open_adapter retry_connect_attempts connect_le_raw_attempt
  connect_le_raw scan_attempts expected_identity = do
    local_address ← open_adapter
    ask bluer.set_discovery_filter AuraFailureReason.discovery_unavailable
    socket ←
        retry_connect_attempts bluer.deadline_passed bluer.sleep
          (connect_le_raw_attempt expected_identity local_address) scan_attempts
    pure (record {
      expected_identity = expected_identity;
      transport = AuraBearerTransport.le;
      acquisition_route = AuraAcquisitionRoute.fresh_le;
      socket = socket;
    })
