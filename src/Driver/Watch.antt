-- ===== src/Driver/Watch.antt =====
-- handleWait and handleFingerprint of driver.go: loops that send on an unbuffered channel.
pub mod Blocked
use nomad_pot_driver.Base.{
  Bool, true, false, Option, none, some, List, [], ◌∷◌, ◌++◌, if◌then◌else◌,
}
use nomad_pot_driver.Handle.{Handle, ExitResult, ProcState, running, done, unknown}
use nomad_pot_driver.Driver.State.{Driver}
use nomad_pot_driver.Driver.Plugin.{Fingerprint, build_fingerprint}

-- A context is done, or the ticker fires, with the state that the loop then sees, or the caller is
-- ready to receive from the channel.
pub data Select {ℓ} (A : Type ℓ) : Type ℓ where
  stopped : Select A
  tick : A → Select A
  receive : Select A

-- What was received from a channel, oldest first.
pub record Channel {ℓ} (A : Type ℓ) : Type ℓ where
  pub sent : List A
  pub closed : Bool

-- Where a loop waits: in its select, or in a send, which no context can end; or it has returned.
pub data Place {ℓ} (M : Type ℓ) : Type ℓ where
  selecting : Place M
  sending : M → Place M
  returned : Place M

pub record Watch {ℓ} (M : Type ℓ) : Type ℓ where
  pub place : Place M
  pub channel : Channel M

-- The channel is made and the goroutine started.
abbrev pub new_watch {ℓ} : {M : Type ℓ} → Watch M
new_watch = record { place = selecting; channel = record { sent = []; closed = false } }

abbrev pub is_done : ProcState → Bool
is_done done = true
is_done running = false
is_done unknown = false

-- ch <- handle.exitResult, for a task that is exited
unfoldable pub send_result : Handle → Place (Option ExitResult)
send_result h = if is_done h.proc_state then sending h.exit_result else selecting

-- One event of a loop whose body, at a tick, goes to this place. A send goes on when the caller
-- receives, and a return closes the channel.
abbrev pub watch_at {ℓ κ} :
    {A : Type ℓ} {M : Type κ} → (A → Place M) → Place M → Select A → Channel M → Watch M
watch_at body selecting stopped ch = record {
  place = returned;
  channel = record ch { closed = true };
}
watch_at body selecting (tick a) ch = record { place = body a; channel = ch }
watch_at body selecting receive ch = record { place = selecting; channel = ch }
watch_at body (sending m) receive ch = record {
  place = selecting;
  channel = record ch { sent = ch.sent ++ m ∷ [] };
}
watch_at body (sending m) stopped ch = record { place = sending m; channel = ch }
watch_at body (sending m) (tick a) ch = record { place = sending m; channel = ch }
watch_at body returned e ch = record { place = returned; channel = ch }

unfoldable pub watch {ℓ κ} :
    {A : Type ℓ} {M : Type κ} → (A → Place M) → List (Select A) → Watch M → Watch M
watch body [] w = w
watch body (e ∷ es) w = watch body es (watch_at body w.place e w.channel)

unfoldable pub handle_wait :
    List (Select Handle) → Watch (Option ExitResult) → Watch (Option ExitResult)
handle_wait = watch send_result

unfoldable pub handle_fingerprint : List (Select Driver) → Watch Fingerprint → Watch Fingerprint
handle_fingerprint = watch λ d. sending (build_fingerprint d)
