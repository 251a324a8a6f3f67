-- ===== src/Aura/Scan/Fresh.antt =====
-- Which advertisement ends a scan of rust/src/aura_bluez.rs.
use jbl_aura_play_together.Base.{
  ℕ, ◌≡◌, refl, ◌⊎◌, inl, inr, arith, Bool, true, false, Option, some, none, List, [], ◌∷◌, Result,
  ◌&&◌, if◌then◌else◌, ok, Option-cases,
}
use mathlib.Core.Path.{subst}
use jbl_aura_play_together.Model.{DeviceIdentity}
use jbl_aura_play_together.Native.Types.{AuraFailureReason}
use jbl_aura_play_together.Aura.Scan.{
  Address, contains, insert, remove, ServiceData, get, AddressType, DeviceProperty, service_data,
  other_property, verified_payload, verified_scan_advertisement, reduce_fresh_advertisement, Added,
  ScanEvent, adapter_ended, device_events_ended, adapter_property_changed, device_removed,
  device_added, device_changed, ScanState, Turn, return, continue, inspect_new, on_device_added,
  on_device_changed, turn, loop, ScanTrace, subscribe_known, scan_once,
}

Turn-cases :
    (t : Turn)
    → ((r : Result (Option Address) AuraFailureReason) × (t ≡ return r))
      ⊎ ((s : ScanState) × (t ≡ continue s))
Turn-cases (return r) = inl (r, refl)
Turn-cases (continue s) = inr (s, refl)

-- The objects subscribed to behind an event for `x`.
abbrev pub sight : Added → Address → List Address → List Address
sight added x sighted = if added.opened && added.subscribes then insert x sighted else sighted

module _ (uuid : ℕ) (identity : DeviceIdentity) where
  -- A map that an event carried, and the address type read behind it, verify the identity.
  abbrev pub Verifies : ServiceData → AddressType → Type 0
  Verifies map address_type =
      (payload : List ℕ) × (get map uuid ≡ some payload)
      × (verified_scan_advertisement address_type payload identity ≡ true)

  abbrev pub VerifiesAdded : Added → Type 0
  VerifiesAdded added =
      (t : AddressType) × (map : ServiceData) × (added.address_type ≡ some t)
      × (added.current ≡ some (some map))
      × Verifies map t

  abbrev pub VerifiesChange : DeviceProperty → Option AddressType → Type 0
  VerifiesChange property address_type =
      (t : AddressType) × (map : ServiceData) × (address_type ≡ some t)
      × (property ≡ service_data map)
      × Verifies map t

  -- The events up to one that is fresh evidence for the device at `a`: a change that carries the
  -- verifying map itself, or the first sight of an object that is neither `protected` nor `sighted`,
  -- with a verifying snapshot. Protected are the objects known before the scan, and sighted those that
  -- the scan has subscribed to, each until it is removed.
  abbrev pub Evidence : List Address → List Address → List ScanEvent → Address → Type 0
  Evidence protected sighted [] a = ⊥
  Evidence protected sighted (adapter_ended ∷ events) a = ⊥
  Evidence protected sighted (device_events_ended ∷ events) a = Evidence protected sighted events a
  Evidence protected sighted (adapter_property_changed ∷ events) a =
      Evidence protected sighted events a
  Evidence protected sighted (device_removed x ∷ events) a =
      Evidence (remove x protected) (remove x sighted) events a
  Evidence protected sighted (device_added x added ∷ events) a =
      ((x ≡ a)
        × (contains protected a ≡ false)
        × (contains sighted a ≡ false)
        × VerifiesAdded added)
      ⊎ Evidence protected (sight added x sighted) events a
  Evidence protected sighted (device_changed x property opened address_type ∷ events) a =
      ((x ≡ a) × VerifiesChange property address_type) ⊎ Evidence protected sighted events a

  verified_payload-Verifies :
      (map : ServiceData) (t : AddressType)
      → verified_payload (get map uuid) t identity ≡ true
      → Verifies map t
  unfolding verified_payload
  verified_payload-Verifies map t h = elim (Option-cases (get map uuid)) [
    | inl e ↦ absurd (ground arith)
    | inr (payload, e) ↦ (payload, e, ground arith)
  ]

  inspect_new-VerifiesAdded :
      (x a : Address) (added : Added) (s : ScanState)
      → inspect_new uuid identity x added s ≡ return (ok (some a))
      → (x ≡ a) × VerifiesAdded added
  unfolding inspect_new reduce_fresh_advertisement
  inspect_new-VerifiesAdded x a added s h = elim (Option-cases added.address_type) [
    | inl e ↦ absurd (ground arith)
    | inr (t, e) ↦ elim (Option-cases added.current) [
      | inl c ↦ absurd (ground arith)
      | inr (current, c) ↦ elim (Option-cases current) [
        | inl m ↦ absurd (ground arith)
        | inr (map, m) ↦ (
          ground arith,
          (t, map, e, ground arith, verified_payload-Verifies map t (ground arith)),
        )
      ]
    ]
  ]

  on_device_added-Evidence :
      (x a : Address) (added : Added) (s : ScanState)
      → on_device_added uuid identity x added s ≡ return (ok (some a))
      → (x ≡ a)
        × (contains s.preexisting a ≡ false)
        × (contains s.subscribed a ≡ false)
        × VerifiesAdded added
  unfolding on_device_added
  on_device_added-Evidence x a added s h =
      let s1 = record s { subscribed = insert x s.subscribed } in
      let (same_address, verifies) = inspect_new-VerifiesAdded x a added s1 (ground arith) in
      (same_address, ground arith, ground arith, verifies)

  on_device_changed-Evidence :
      (x a : Address) (property : DeviceProperty) (opened : Bool) (t : Option AddressType)
      (s : ScanState)
      → on_device_changed uuid identity x property opened t s ≡ return (ok (some a))
      → (x ≡ a) × VerifiesChange property t
  unfolding on_device_changed reduce_fresh_advertisement
  on_device_changed-Evidence x a (service_data map) opened none s h = absurd (ground arith)
  on_device_changed-Evidence x a (service_data map) opened (some t) s h =
      (ground arith, (t, map, refl, refl, verified_payload-Verifies map t (ground arith)))
  on_device_changed-Evidence x a other_property opened t s h = absurd (ground arith)

  added_keeps :
      (x : Address) (added : Added) (s s1 : ScanState)
      → on_device_added uuid identity x added s ≡ continue s1
      → (s1.preexisting ≡ s.preexisting) × (s1.subscribed ≡ sight added x s.subscribed)
  unfolding on_device_added inspect_new
  added_keeps x added s s1 h = ground arith

  changed_keeps :
      (x : Address) (property : DeviceProperty) (opened : Bool) (t : Option AddressType)
      (s s1 : ScanState)
      → on_device_changed uuid identity x property opened t s ≡ continue s1
      → s1 ≡ s
  unfolding on_device_changed
  changed_keeps x property opened t s s1 h = ground arith

  loop_step :
      (s : ScanState) (e : ScanEvent) (events : List ScanEvent) (a : Address)
      → loop uuid identity s (e ∷ events) ≡ ok (some a)
      → (turn uuid identity s e ≡ return (ok (some a)))
        ⊎ ((s1 : ScanState) × (turn uuid identity s e ≡ continue s1)
            × (loop uuid identity s1 events ≡ ok (some a)))
  unfolding loop
  loop_step s e events a h = elim (Turn-cases (turn uuid identity s e)) [
    | inl (result, r) ↦ inl (ground arith)
    | inr (s1, c) ↦ inr (s1, c, ground arith)
  ]

  loop-Evidence :
      (s : ScanState) (events : List ScanEvent) (a : Address)
      → loop uuid identity s events ≡ ok (some a)
      → Evidence s.preexisting s.subscribed events a
  unfolding loop turn
  loop-Evidence s [] a h = absurd (ground arith)
  loop-Evidence s (adapter_ended ∷ events) a h = absurd (ground arith)
  loop-Evidence s (device_events_ended ∷ events) a h = loop-Evidence s events a h
  loop-Evidence s (adapter_property_changed ∷ events) a h = loop-Evidence s events a h
  loop-Evidence s (device_removed x ∷ events) a h =
      loop-Evidence
        (record { preexisting = remove x s.preexisting; subscribed = remove x s.subscribed }) events
        a h
  loop-Evidence s (device_added x added ∷ events) a h =
      elim (loop_step s (device_added x added) events a h) [
        | inl r ↦ inl (on_device_added-Evidence x a added s r)
        | inr (s1, c, rest) ↦ inr (
            let (kept, sighted) = added_keeps x added s s1 c in
            subst (λ p. Evidence p (sight added x s.subscribed) events a) kept
              (subst (λ q. Evidence s1.preexisting q events a) sighted
                (loop-Evidence s1 events a rest)))
      ]
  loop-Evidence s (device_changed x property opened t ∷ events) a h =
      elim (loop_step s (device_changed x property opened t) events a h) [
        | inl r ↦ inl (on_device_changed-Evidence x a property opened t s r)
        | inr (s1, c, rest) ↦ inr (
            subst (λ r. Evidence r.preexisting r.subscribed events a)
              (changed_keeps x property opened t s s1 c) (loop-Evidence s1 events a rest))
      ]

  -- A scan finds a device only by fresh evidence: a change that carries the verifying map in the event
  -- itself, or the first snapshot of an object that was not known before the scan, or was removed
  -- since. The cached properties of a known object never end it, and neither does another snapshot of
  -- an object that the scan has subscribed to.
  pub scan_once-Evidence :
      (known : List Address) (trace : ScanTrace) (a : Address)
      → scan_once known uuid identity trace ≡ ok (some a)
      → Evidence known (subscribe_known trace.subscribes known) trace.events a
  unfolding scan_once
  scan_once-Evidence known trace a h =
      loop-Evidence
        (record { preexisting = known; subscribed = subscribe_known trace.subscribes known })
        trace.events a (ground arith)
