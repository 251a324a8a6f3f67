-- ===== src/Aura/Release.antt =====
-- How rust/src/aura_bluez.rs waits for the temporary profile to be released. An `Instant` is a number
-- of nanoseconds, and the D-Bus calls and the clock act on the world `W`.
use jbl_aura_play_together.Base.{
  ℕ, zero, suc, ◌+◌, ◌*◌, ◌/◌, ◌-◌, ◌≤◌, ◌≡◌, inl, inr, arith, min, Bool, true, false, ◌||◌, leb,
  ◌==◌, Option, none, some, List, [], ◌∷◌, codes, same, Result, ok, err, Option-cases,
  if◌then◌else◌,
}
use jbl_aura_play_together.Wake.{AuraWakeIoFailure, timed_out, rejected}

abbrev pub media_control_release_poll : ℕ
media_control_release_poll = 100000000

abbrev pub media_control_interface : List ℕ
media_control_interface = codes "org.bluez.MediaControl1"

abbrev pub media_control_connected_property : List ℕ
media_control_connected_property = codes "Connected"

pub data MediaControlReleaseObservation : Type 0 where
  released connected invalid : MediaControlReleaseObservation

-- A D-Bus value, as far as a cast to `bool` tells.
pub data Variant : Type 0 where
  boolean : Bool → Variant
  other : Variant

-- `HashMap<String, _>`, and its `get`.
abbrev pub get {ℓ} : {A : Type ℓ} → List (List ℕ × A) → List ℕ → Option A
get [] key = none
get ((k, value) ∷ rest) key = if same k key then some value else get rest key

abbrev pub PropMap : Type 0
PropMap = List (List ℕ × Variant)

abbrev pub cast_bool : Variant → MediaControlReleaseObservation
cast_bool (boolean false) = released
cast_bool (boolean true) = connected
cast_bool other = invalid

unfoldable pub classify_media_control_release :
    Option (List (List ℕ × PropMap)) → MediaControlReleaseObservation
classify_media_control_release none = released
classify_media_control_release (some interfaces) = elim (get interfaces media_control_interface) [
  | none ↦ released
  | some properties ↦ elim (get properties media_control_connected_property) [
    | none ↦ invalid
    | some value ↦ cast_bool value
  ]
]

-- `wake_operation_deadline` at `now`.
unfoldable pub wake_operation_deadline : ℕ → ℕ → ℕ → Result ℕ AuraWakeIoFailure
wake_operation_deadline now overall_deadline requested =
    if leb overall_deadline now || requested == 0
    then err timed_out
    else ok (min overall_deadline (now + requested))

-- Turns of the poll that a clock before the deadline can need.
abbrev pub poll_fuel : ℕ → ℕ
poll_fuel deadline = suc (suc (deadline / media_control_release_poll))

pub record ReleaseClock (W : Type 0) : Type 0 where
  pub now : W → ℕ × W
  pub observe : ℕ → W → Result MediaControlReleaseObservation AuraWakeIoFailure × W
  pub pause : ℕ → W → W

module _ {W : Type 0} (clock : ReleaseClock W) (deadline : ℕ) where
  -- One turn of the loop: its result, or the world from which the next turn starts.
  unfoldable pub poll_turn : W → Option (Result Bool AuraWakeIoFailure) × W
  poll_turn w =
      let (now, w1) = clock.now w in
      let (observed, w2) = clock.observe (deadline - now) w1 in
      let (later, w3) = clock.now w2 in
      if leb deadline now then (some (err timed_out), w1) else elim observed [
        | err failure ↦ (some (err failure), w2)
        | ok observation ↦ elim observation [
          | released ↦ (some (ok true), w2)
          | invalid ↦ (some (err rejected), w2)
          | connected ↦
              if leb deadline later
              then (some (err timed_out), w3)
              else (none, clock.pause (min media_control_release_poll (deadline - later)) w3)
        ]
      ]

  -- The loop, for at most so many turns; `none` where they are not enough.
  unfoldable pub poll_media_control_release : ℕ → W → Option (Result Bool AuraWakeIoFailure) × W
  unfolding poll_turn
  poll_media_control_release zero w = (none, w)
  poll_media_control_release (suc fuel) w =
      let (result, w1) = poll_turn w in
      let rest = poll_media_control_release fuel w1 in
      elim result [ some r ↦ (some r, w1) | none ↦ rest ]

  -- A clock that shows the `time` of the world, which no call turns back and a pause moves on by what
  -- it was asked for.
  pub record IsClock (time : W → ℕ) : Type 0 where
    pub now_shows : (w : W) → (clock.now w).0 ≡ time (clock.now w).1
    pub now_moves : (w : W) → time w ≤ time (clock.now w).1
    pub observe_moves : (d : ℕ) (w : W) → time w ≤ time (clock.observe d w).1
    pub pause_moves : (d : ℕ) (w : W) → time w + d ≤ time (clock.pause d w)

module _ {W : Type 0} (clock : ReleaseClock W) (deadline : ℕ) (time : W → ℕ)
    (is_clock : IsClock clock deadline time) where
  -- A turn that does not end the loop has moved the clock on by the poll interval, or to the deadline.
  poll_turn_moves :
      (w : W)
      → (poll_turn clock deadline w).0 ≡ none
      → min (time w + media_control_release_poll) deadline ≤ time (poll_turn clock deadline w).1
  unfolding poll_turn
  poll_turn_moves w h =
      let w1 = (clock.now w).1 in
      let now = (clock.now w).0 in
      let w2 = (clock.observe (deadline - now) w1).1 in
      let w3 = (clock.now w2).1 in
      let later = (clock.now w2).0 in
      ground (
        arith,
        is_clock.now_moves w,
        is_clock.observe_moves (deadline - now) w1,
        is_clock.now_moves w2,
        is_clock.now_shows w2,
        is_clock.pause_moves (min media_control_release_poll (deadline - later)) w3,
      )

  poll_late : (w : W) → deadline ≤ time w → ¬ ((poll_turn clock deadline w).0 ≡ none)
  unfolding poll_turn
  poll_late w h = λ e. ground (arith, is_clock.now_moves w, is_clock.now_shows w)

  poll_ends :
      (n : ℕ) (w : W)
      → deadline ≤ time w + n * media_control_release_poll
      → (r : Result Bool AuraWakeIoFailure) × ((poll_media_control_release clock deadline
            (suc n)
            w).0
          ≡ some r)
  unfolding poll_media_control_release
  poll_ends zero w h = elim (Option-cases (poll_turn clock deadline w).0) [
    | inl e ↦ absurd (poll_late w (ground arith) e)
    | inr (r, e) ↦ (r, ground arith)
  ]
  poll_ends (suc n) w h =
      let w1 = (poll_turn clock deadline w).1 in
      elim (Option-cases (poll_turn clock deadline w).0) [
        | inl e ↦
            let (r, rest) = poll_ends n w1 (ground (arith, poll_turn_moves w e)) in
            (r, ground (arith, rest))
        | inr (r, e) ↦ (r, ground arith)
      ]

  -- With a clock that runs, the wait for the release ends within two turns more than the poll intervals
  -- before the deadline, whatever the D-Bus calls answer.
  pub poll_media_control_release_ends :
      (w : W)
      → (r : Result Bool AuraWakeIoFailure) × ((poll_media_control_release clock deadline
            (poll_fuel deadline)
            w).0
          ≡ some r)
  poll_media_control_release_ends w =
      poll_ends (suc (deadline / media_control_release_poll)) w (omega arith)
