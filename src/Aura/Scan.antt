-- ===== src/Aura/Scan.antt =====
-- One scan of rust/src/aura_bluez.rs for a fresh advertisement. An address is its six bytes; the
-- events arrive in a list, whose end is the deadline.
pub mod Fresh
use jbl_aura_play_together.Base.{
  ℕ, Bool, true, false, not, ◌&&◌, ◌||◌, ◌==◌, Option, some, none, List, [], ◌∷◌, Result, ok, err,
  same, if◌then◌else◌,
}
use jbl_aura_play_together.Model.{DeviceIdentity}
use jbl_aura_play_together.AuraProtocol.{harman_fddf_uuid, matches_verified_fddf}
use jbl_aura_play_together.Native.Types.{AuraFailureReason}

abbrev pub Address : Type 0
Address = List ℕ

-- `HashSet<Address>`.
abbrev pub contains : List Address → Address → Bool
contains [] a = false
contains (x ∷ xs) a = same x a || contains xs a

abbrev pub insert : Address → List Address → List Address
insert a xs = if contains xs a then xs else a ∷ xs

abbrev pub remove : Address → List Address → List Address
remove a [] = []
remove a (x ∷ xs) = if same x a then remove a xs else x ∷ remove a xs

-- `HashMap<Uuid, Vec<u8>>`, and its `get`.
abbrev pub ServiceData : Type 0
ServiceData = List (ℕ × List ℕ)

abbrev pub get : ServiceData → ℕ → Option (List ℕ)
get [] uuid = none
get ((key, payload) ∷ rest) uuid = if key == uuid then some payload else get rest uuid

pub data AddressType : Type 0 where
  br_edr le_public le_random : AddressType

abbrev pub is_le_random : AddressType → Bool
is_le_random le_random = true
is_le_random _ = false

-- `bluer::DeviceProperty`, as far as the scan tells its variants apart.
pub data DeviceProperty : Type 0 where
  service_data : ServiceData → DeviceProperty
  other_property : DeviceProperty

pub data FreshAdvertisementEvidence : Type 0 where
  known_device_property : DeviceProperty → FreshAdvertisementEvidence
  new_object_current_service_data : Option ServiceData → FreshAdvertisementEvidence

unfoldable pub verified_scan_advertisement : AddressType → List ℕ → DeviceIdentity → Bool
unfolding matches_verified_fddf
verified_scan_advertisement address_type fddf_payload expected_identity =
    is_le_random address_type
    && matches_verified_fddf harman_fddf_uuid fddf_payload expected_identity

-- The last expression of `reduce_fresh_advertisement`.
unfoldable pub verified_payload : Option (List ℕ) → AddressType → DeviceIdentity → Bool
unfolding verified_scan_advertisement
verified_payload none address_type expected_identity = false
verified_payload (some payload) address_type expected_identity =
    verified_scan_advertisement address_type payload expected_identity

unfoldable pub reduce_fresh_advertisement :
    FreshAdvertisementEvidence → AddressType → ℕ → DeviceIdentity → Bool
unfolding verified_payload
reduce_fresh_advertisement (known_device_property (service_data map)) address_type uuid identity =
    verified_payload (get map uuid) address_type identity
reduce_fresh_advertisement (known_device_property other_property) address_type uuid identity = false
reduce_fresh_advertisement (new_object_current_service_data (some map)) address_type uuid identity =
    verified_payload (get map uuid) address_type identity
reduce_fresh_advertisement (new_object_current_service_data none) address_type uuid identity = false

-- What the scan learns about a device that was added: whether it can be opened and subscribed to, and
-- its properties, `none` where they cannot be read in time.
pub record Added : Type 0 where
  pub opened : Bool
  pub subscribes : Bool
  pub address_type : Option AddressType
  pub current : Option (Option ServiceData)

pub data ScanEvent : Type 0 where
  adapter_ended device_events_ended adapter_property_changed : ScanEvent
  device_removed : Address → ScanEvent
  device_added : Address → Added → ScanEvent
  -- A property change, with whether the device can be opened and its address type read.
  device_changed : Address → DeviceProperty → Bool → Option AddressType → ScanEvent

pub record ScanState : Type 0 where
  pub preexisting : List Address
  pub subscribed : List Address

-- One turn of the loop ends the scan, or goes on.
pub data Turn : Type 0 where
  return : Result (Option Address) AuraFailureReason → Turn
  continue : ScanState → Turn

abbrev pub is_service_data : DeviceProperty → Bool
is_service_data (service_data map) = true
is_service_data other_property = false

module _ (uuid : ℕ) (expected_identity : DeviceIdentity) where
  -- The current properties of a new object.
  unfoldable pub inspect_new : Address → Added → ScanState → Turn
  unfolding reduce_fresh_advertisement
  inspect_new a added s = elim added.address_type [
    | none ↦ continue s
    | some address_type ↦ elim added.current [
      | none ↦ continue s
      | some current ↦
          if reduce_fresh_advertisement (new_object_current_service_data current) address_type uuid
            expected_identity
          then return (ok (some a))
          else continue s
    ]
  ]

  unfoldable pub on_device_added : Address → Added → ScanState → Turn
  unfolding inspect_new
  on_device_added a added s =
      let s1 = record s { subscribed = insert a s.subscribed } in
      if contains s.preexisting a
      then if contains s.subscribed a
        then continue s
        else if added.opened && added.subscribes
        then continue s1
        else continue s
      else if contains s.subscribed a
      then continue s
      else if added.opened && added.subscribes
      then inspect_new a added s1
      else continue s

  unfoldable pub on_device_changed :
      Address → DeviceProperty → Bool → Option AddressType → ScanState → Turn
  unfolding reduce_fresh_advertisement
  on_device_changed a property opened address_type s =
      if is_service_data property && opened
      then elim address_type [
        | none ↦ continue s
        | some t ↦
            if reduce_fresh_advertisement (known_device_property property) t uuid expected_identity
            then return (ok (some a))
            else continue s
      ]
      else continue s

  unfoldable pub turn : ScanState → ScanEvent → Turn
  unfolding on_device_added on_device_changed
  turn s adapter_ended = return (err AuraFailureReason.discovery_unavailable)
  turn s device_events_ended = continue s
  turn s adapter_property_changed = continue s
  turn s (device_removed a) =
      continue (record { preexisting = remove a s.preexisting; subscribed = remove a s.subscribed })
  turn s (device_added a added) = on_device_added a added s
  turn s (device_changed a property opened address_type) =
      on_device_changed a property opened address_type s

  unfoldable pub loop : ScanState → List ScanEvent → Result (Option Address) AuraFailureReason
  unfolding turn
  loop s [] = ok none
  loop s (e ∷ events) = elim (turn s e) [ return result ↦ result | continue s1 ↦ loop s1 events ]

-- The addresses to which the first loop of `scan_once` subscribes.
abbrev pub subscribe_known : (Address → Bool) → List Address → List Address
subscribe_known subscribes [] = []
subscribe_known subscribes (a ∷ known) =
    if subscribes a then a ∷ subscribe_known subscribes known else subscribe_known subscribes known

-- What `bluer` answers in one scan: whether a known device can be subscribed to, whether the
-- discovery starts, and the events.
pub record ScanTrace : Type 0 where
  pub subscribes : Address → Bool
  pub discovers : Bool
  pub events : List ScanEvent

unfoldable pub scan_once :
    List Address → ℕ → DeviceIdentity → ScanTrace → Result (Option Address) AuraFailureReason
unfolding loop
scan_once known uuid expected_identity trace =
    if trace.discovers
    then loop uuid expected_identity
        (record { preexisting = known; subscribed = subscribe_known trace.subscribes known })
        trace.events
    else err AuraFailureReason.discovery_unavailable
