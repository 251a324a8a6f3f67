-- ===== src/Aura/Health.antt =====
-- The non-blocking probe of a raw ATT socket in rust/src/aura_bluez.rs, over `poll` and `recv`.
use jbl_aura_play_together.Base.{
  ℕ, zero, suc, Bool, true, false, not, ◌||◌, Option, none, Result, ok, err, if◌then◌else◌,
}
use jbl_aura_play_together.Native.Types.{AuraHealth}

-- The bits of `revents` that the source reads.
pub record Revents : Type 0 where
  pub pollin : Bool
  pub pollerr : Bool
  pub pollhup : Bool
  pub pollnval : Bool

-- `poll` below zero, or at zero (`false`) or above, with its events.
pub data PollResult : Type 0 where
  poll_failed : PollResult
  poll_returned : Bool → Revents → PollResult

-- `recv` with `MSG_PEEK | MSG_DONTWAIT`: the bytes seen, or the error.
pub data PeekResult : Type 0 where
  peeked : ℕ → PeekResult
  would_block peek_failed : PeekResult

pub record FdProbe (K W : Type 0) : Type 0 where
  pub poll : K → W → PollResult × W
  pub peek : K → W → PeekResult × W

abbrev pub raw_att_poll_revents_are_healthy : Revents → Bool
raw_att_poll_revents_are_healthy r = not (r.pollerr || r.pollhup || r.pollnval)

abbrev pub peek_is_healthy : PeekResult → Result Bool (Unit {0})
peek_is_healthy (peeked zero) = ok false
peek_is_healthy (peeked (suc n)) = ok true
peek_is_healthy would_block = ok true
peek_is_healthy peek_failed = err tt

module _ {K W : Type 0} (fds : FdProbe K W) where
  unfoldable pub raw_att_fd_is_healthy : K → W → Result Bool (Unit {0}) × W
  raw_att_fd_is_healthy socket w =
      let (result, w1) = fds.poll socket w in
      let (received, w2) = fds.peek socket w1 in
      elim result [
        | poll_failed ↦ (err tt, w1)
        | poll_returned some_events revents ↦
            if not (raw_att_poll_revents_are_healthy revents)
            then (ok false, w1)
            else if not some_events || not revents.pollin
            then (ok true, w1)
            else (peek_is_healthy received, w2)
      ]

abbrev pub project_bearer_health :
    {T : Type 0} → Option T → Result Bool (Unit {0}) → AuraHealth × Option T
project_bearer_health bearer (ok true) = (AuraHealth.ready, bearer)
project_bearer_health bearer (ok false) = (AuraHealth.offline, none)
project_bearer_health bearer (err u) = (AuraHealth.unavailable, none)
