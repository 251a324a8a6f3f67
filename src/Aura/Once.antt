-- ===== src/Aura/Once.antt =====
-- How often a command of rust/src/aura_bluez.rs writes, and what follows an uncertain one.
use jbl_aura_play_together.Base.{
  ℕ, ◌+◌, ◌≤◌, ◌≡◌, refl, arith, Bool, true, false, none, some, List, [], ◌∷◌,
}
use jbl_aura_play_together.Model.{DeviceIdentity}
use jbl_aura_play_together.AuraProtocol.{AuraPlayTogetherCommand}
use jbl_aura_play_together.Native.Types.{AuraFailureReason, AuraActionResult}
use jbl_aura_play_together.Aura.{
  AuraIo, AuraControlCore, connect_bearer, connect_verified, health, await_ack, write, prepare,
  command, shutdown,
}

-- What an `AuraIo` promises: `writes` counts the role frames that may have left, and only
-- `begin_write` adds to it, one frame a call.
pub record WritesOnce {I : Type 0} (ops : AuraIo I) (writes : I → ℕ) : Type 0 where
  pub health : (i : I) → writes (ops.health i).1 ≡ writes i
  pub prepare : (i : I) → writes (ops.prepare_command i).1 ≡ writes i
  pub begin_write :
      (cmd : AuraPlayTogetherCommand) (i : I) → writes (ops.begin_write cmd i).1 ≤ writes i + 1
  pub wait : (i : I) → writes (ops.wait_for_ack i).1 ≡ writes i
  pub connect : (k : DeviceIdentity) (i : I) → writes (ops.connect_verified k i).1 ≡ writes i
  pub shutdown : (i : I) → writes (ops.shutdown i).1 ≡ writes i

-- A request to the core.
pub data Request : Type 0 where
  send : AuraPlayTogetherCommand → Request
  connect : DeviceIdentity → Request
  read_health close : Request

abbrev pub sends : List Request → ℕ
sends [] = 0
sends (send cmd ∷ rs) = sends rs + 1
sends (connect k ∷ rs) = sends rs
sends (read_health ∷ rs) = sends rs
sends (close ∷ rs) = sends rs

-- Commands and health reads only.
abbrev pub keeps_bearer : List Request → Bool
keeps_bearer [] = true
keeps_bearer (send cmd ∷ rs) = keeps_bearer rs
keeps_bearer (read_health ∷ rs) = keeps_bearer rs
keeps_bearer (connect k ∷ rs) = false
keeps_bearer (close ∷ rs) = false

module _ {I : Type 0} (ops : AuraIo I) where
  unfoldable pub serve : AuraControlCore I → Request → AuraControlCore I
  serve c (send cmd) = (command ops cmd c).1
  serve c (connect k) = (connect_verified ops k c).1
  serve c read_health = (health ops c).1
  serve c close = (shutdown ops c).1

  unfoldable pub run : AuraControlCore I → List Request → AuraControlCore I
  run c [] = c
  run c (r ∷ rs) = run (serve c r) rs

  latched_command :
      (cmd : AuraPlayTogetherCommand) (c : AuraControlCore I) (f : AuraFailureReason)
      → c.unresolved ≡ some f
      → (command ops cmd c).1 ≡ c
  unfolding command
  latched_command cmd c f h = ground arith

  latched_health :
      (c : AuraControlCore I) (f : AuraFailureReason) → c.unresolved ≡ some f → (health ops c).1 ≡ c
  unfolding health
  latched_health c f h = ground arith

  -- After an uncertain command no sequence of commands and health reads touches the transport or the
  -- latch: only a new connection or a teardown does.
  pub latched_run :
      (c : AuraControlCore I) (f : AuraFailureReason) (rs : List Request)
      → c.unresolved ≡ some f
      → keeps_bearer rs ≡ true
      → run c rs ≡ c
  unfolding run serve
  latched_run c f [] h k = refl
  latched_run c f (send cmd ∷ rs) h k = rw (latched_command cmd c f h) (latched_run c f rs h k)
  latched_run c f (read_health ∷ rs) h k = rw (latched_health c f h) (latched_run c f rs h k)
  latched_run c f (connect i ∷ rs) h k = absurd (ground arith)
  latched_run c f (close ∷ rs) h k = absurd (ground arith)

module _ {I : Type 0} (writes : I → ℕ) where
  -- A command's result tells how often it may have written, and the latch what it left uncertain.
  abbrev pub WroteOnce : AuraControlCore I → AuraActionResult × AuraControlCore I → Type 0
  WroteOnce c (AuraActionResult.accepted, d) =
      (writes d.io ≤ writes c.io + 1) × (d.unresolved ≡ none)
  WroteOnce c (AuraActionResult.rejected_before_send f, d) =
      (writes d.io ≡ writes c.io) × (d.unresolved ≡ none)
  WroteOnce c (AuraActionResult.outcome_unknown f, d) =
      (writes d.io ≤ writes c.io + 1) × (d.unresolved ≡ some f)

module _ {I : Type 0} (ops : AuraIo I) (writes : I → ℕ) (promise : WritesOnce ops writes) where
  await_ack-WroteOnce :
      (c d : AuraControlCore I)
      → writes d.io ≤ writes c.io + 1
      → d.unresolved ≡ none
      → WroteOnce writes c (await_ack ops d)
  unfolding await_ack
  await_ack-WroteOnce c d h u = ground (arith, promise.wait d.io)

  write-WroteOnce :
      (cmd : AuraPlayTogetherCommand) (c d : AuraControlCore I)
      → writes d.io ≡ writes c.io
      → d.unresolved ≡ none
      → WroteOnce writes c (write ops cmd d)
  unfolding write
  write-WroteOnce cmd c d h u =
      let b = promise.begin_write cmd d.io in
      ground (arith, b, await_ack-WroteOnce c (record d { io = (ops.begin_write cmd d.io).1 }))

  prepare-WroteOnce :
      (cmd : AuraPlayTogetherCommand) (c d : AuraControlCore I)
      → writes d.io ≡ writes c.io
      → d.unresolved ≡ none
      → WroteOnce writes c (prepare ops cmd d)
  unfolding prepare
  prepare-WroteOnce cmd c d h u =
      let b = promise.prepare d.io in
      ground (arith, b, write-WroteOnce cmd c (record d { io = (ops.prepare_command d.io).1 }))

  -- Over an interface that keeps its promise, a command that is rejected before send has written
  -- nothing, any other has written once at most, and the latch holds exactly what it left uncertain.
  pub command-WroteOnce :
      (cmd : AuraPlayTogetherCommand) (c : AuraControlCore I)
      → WroteOnce writes c (command ops cmd c)
  unfolding command
  command-WroteOnce cmd c =
      let b = promise.health c.io in
      ground (arith, b, prepare-WroteOnce cmd c (record c { io = (ops.health c.io).1 }))

  connect_keeps :
      (k : DeviceIdentity) (c : AuraControlCore I)
      → writes (connect_verified ops k c).1.io ≡ writes c.io
  unfolding connect_verified connect_bearer
  connect_keeps k c = ground (
    arith,
    promise.shutdown c.io,
    promise.connect k c.io,
    promise.connect k (ops.shutdown c.io).1,
  )

  health_keeps : (c : AuraControlCore I) → writes (health ops c).1.io ≡ writes c.io
  unfolding health
  health_keeps c = ground (arith, promise.health c.io)

  shutdown_keeps : (c : AuraControlCore I) → writes (shutdown ops c).1.io ≡ writes c.io
  unfolding shutdown
  shutdown_keeps c = promise.shutdown c.io

  writes-command :
      (cmd : AuraPlayTogetherCommand) (c : AuraControlCore I)
      → writes (command ops cmd c).1.io ≤ writes c.io + 1
  writes-command cmd c = ground (arith, command-WroteOnce cmd c)

  -- Over an interface that keeps its promise, any session of commands, connections, health reads and
  -- teardowns writes at most as many role frames as it has commands.
  pub writes-run :
      (c : AuraControlCore I) (rs : List Request)
      → writes (run ops c rs).io ≤ writes c.io + sends rs
  unfolding run serve
  writes-run c [] = omega arith
  writes-run c (send cmd ∷ rs) =
      omega (arith, writes-command cmd c, writes-run (command ops cmd c).1 rs)
  writes-run c (connect k ∷ rs) =
      omega (arith, connect_keeps k c, writes-run (connect_verified ops k c).1 rs)
  writes-run c (read_health ∷ rs) = omega (arith, health_keeps c, writes-run (health ops c).1 rs)
  writes-run c (close ∷ rs) = omega (arith, shutdown_keeps c, writes-run (shutdown ops c).1 rs)
