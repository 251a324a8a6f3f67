-- ===== src/Aura/Timings.antt =====
-- `AuraBluezTimings` of rust/src/aura_bluez.rs. A `Duration` is its number of nanoseconds.
use jbl_aura_play_together.Base.{
  ℕ, ◌+◌, ◌*◌, ◌-◌, ◌≤◌, ◌≡◌, ◌↔◌, inl, inr, Option-cases, arith, ◌||◌, ltb, leb, ◌==◌, Option,
  none, some, ◌>>=◌, Result, ok, err, u64_max, if◌then◌else◌,
}
use jbl_aura_play_together.Wake.{secs}
use jbl_aura_play_together.Native.Types.{AuraFailureReason}

abbrev pub max_scan_attempts : ℕ
max_scan_attempts = 10

abbrev pub max_total_connect_timeout : ℕ
max_total_connect_timeout = secs 600

pub record AuraBluezTimings : Type 0 where
  pub scan_attempts : ℕ
  pub scan_window : ℕ
  pub retry_delay : ℕ
  pub total_connect_timeout : ℕ
  pub device_connect_timeout : ℕ
  pub gatt_setup_timeout : ℕ
  pub command_write_timeout : ℕ
  pub ack_timeout : ℕ

-- The longest `Duration`, and its checked operations.
abbrev pub duration_max : ℕ
duration_max = secs u64_max + 999999999

abbrev pub within_duration : ℕ → Option ℕ
within_duration n = if leb n duration_max then some n else none

abbrev pub default_timings : AuraBluezTimings
default_timings = record {
  scan_attempts = 3;
  scan_window = secs 30;
  retry_delay = secs 15;
  total_connect_timeout = secs 150;
  device_connect_timeout = secs 15;
  gatt_setup_timeout = secs 15;
  command_write_timeout = secs 5;
  ack_timeout = secs 5;
}

unfoldable pub reserved_budget : AuraBluezTimings → Option ℕ
reserved_budget t = do
  duration ← within_duration (t.scan_window * t.scan_attempts)
  delays ← within_duration (t.retry_delay * (t.scan_attempts - 1))
  scans ← within_duration (duration + delays)
  connect ← within_duration (scans + t.device_connect_timeout)
  within_duration (connect + t.gatt_setup_timeout)

unfoldable pub validate : AuraBluezTimings → Result (Unit {0}) AuraFailureReason
unfolding reserved_budget
validate t =
    if t.scan_attempts == 0
      || ltb max_scan_attempts t.scan_attempts
      || t.scan_window == 0
      || t.total_connect_timeout == 0
      || ltb max_total_connect_timeout t.total_connect_timeout
      || t.device_connect_timeout == 0
      || t.gatt_setup_timeout == 0
      || t.command_write_timeout == 0
      || t.ack_timeout == 0
    then err AuraFailureReason.invalid_configuration
    else elim (reserved_budget t) [
      | none ↦ err AuraFailureReason.invalid_configuration
      | some budget ↦
          if ltb t.total_connect_timeout budget
          then err AuraFailureReason.invalid_configuration
          else ok tt
    ]

-- The timings that leave time for what they plan.
pub record IsPlanned (t : AuraBluezTimings) : Type 0 where
  pub attempts : (1 ≤ t.scan_attempts) × (t.scan_attempts ≤ 10)
  pub windows : (1 ≤ t.scan_window) × (1 ≤ t.device_connect_timeout) × (1 ≤ t.gatt_setup_timeout)
  pub commands : (1 ≤ t.command_write_timeout) × (1 ≤ t.ack_timeout)
  pub budget :
      t.scan_window * t.scan_attempts
        + t.retry_delay * (t.scan_attempts - 1)
        + t.device_connect_timeout
        + t.gatt_setup_timeout
      ≤ t.total_connect_timeout
  pub total : t.total_connect_timeout ≤ secs 600

reserved_budget-some :
    (t : AuraBluezTimings) (b : ℕ)
    → reserved_budget t ≡ some b
    → b
      ≡ t.scan_window * t.scan_attempts
        + t.retry_delay * (t.scan_attempts - 1)
        + t.device_connect_timeout
        + t.gatt_setup_timeout
unfolding reserved_budget
reserved_budget-some t b h = ground arith

reserved_budget_fits :
    (t : AuraBluezTimings)
    → t.scan_window * t.scan_attempts
        + t.retry_delay * (t.scan_attempts - 1)
        + t.device_connect_timeout
        + t.gatt_setup_timeout
      ≤ secs 600
    → reserved_budget t
      ≡ some (
          t.scan_window * t.scan_attempts
          + t.retry_delay * (t.scan_attempts - 1)
          + t.device_connect_timeout
          + t.gatt_setup_timeout)
unfolding reserved_budget
reserved_budget_fits t h = ground arith

validate_ok : (t : AuraBluezTimings) → validate t ≡ ok tt → IsPlanned t
unfolding validate
validate_ok t h = elim (Option-cases (reserved_budget t)) [
  | inl e ↦ absurd (ground arith)
  | inr (b, e) ↦
      let sum = reserved_budget-some t b e in
      record {
        attempts = ground arith;
        windows = ground arith;
        commands = ground arith;
        budget = ground (arith, sum);
        total = ground arith;
      }
]

-- Timings are accepted exactly where they are planned: one to ten scans, no empty window, and the
-- scans, delays, one connection and one setup within a total of at most ten minutes. The checked
-- arithmetic refuses nothing else.
pub validate-IsPlanned : (t : AuraBluezTimings) → (validate t ≡ ok tt) ↔ IsPlanned t
unfolding validate
validate-IsPlanned t = (
  validate_ok t,
  λ p.
      let fits = reserved_budget_fits t (ground (arith, p.budget, p.total)) in
      ground (arith, fits, p.attempts, p.windows, p.commands, p.budget, p.total),
)
