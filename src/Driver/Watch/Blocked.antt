-- ===== src/Driver/Watch/Blocked.antt =====
-- WaitTask's goroutine and a caller that receives every result, or only one.
use nomad_pot_driver.Base.{
  ◌≡◌, refl, sym, ap, ◌∙◌, Bool, true, false, Option, List, [], ◌∷◌, ◌++◌, map, append_assoc,
  append-nil, if◌then◌else◌, inl, inr, Bool-cases,
}
use nomad_pot_driver.Handle.{Handle, ExitResult}
use nomad_pot_driver.Driver.Watch.{
  Select, stopped, tick, receive, Channel, Place, selecting, sending, returned, Watch, new_watch,
  watch, watch_at, is_done, send_result, handle_wait,
}

-- The caller receives what a tick sends, before the next tick.
abbrev pub attended : List Handle → List (Select Handle)
attended [] = []
attended (h ∷ hs) = tick h ∷ receive ∷ attended hs

abbrev pub exited_only : List Handle → List Handle
exited_only [] = []
exited_only (h ∷ hs) = let rest = exited_only hs in if is_done h.proc_state then h ∷ rest else rest

abbrev pub results : List Handle → List (Option ExitResult)
results hs = map (λ (h : Handle). h.exit_result) (exited_only hs)

-- No event lets the caller receive.
abbrev pub unattended : List (Select Handle) → Bool
unattended [] = true
unattended (receive ∷ es) = false
unattended (stopped ∷ es) = unattended es
unattended (tick h ∷ es) = unattended es

-- The goroutine has returned, and these results were received.
abbrev pub left_with : List (Option ExitResult) → Watch (Option ExitResult)
left_with rs = record { place = returned; channel = record { sent = rs; closed = true } }

watch-attended :
    (hs : List Handle) (ch : Channel (Option ExitResult))
    → handle_wait (attended hs ++ stopped ∷ []) (record { place = selecting; channel = ch })
      ≡ left_with (ch.sent ++ results hs)
unfolding handle_wait watch send_result
watch-attended [] ch = ap left_with (sym (append-nil ch.sent))
watch-attended (h ∷ hs) ch =
    let after = λ (q : Place (Option ExitResult)).
      watch send_result (attended hs ++ stopped ∷ []) (watch_at send_result q receive ch) in
    elim (Bool-cases (is_done h.proc_state)) [
      | inl over ↦
          let ready : send_result h ≡ sending h.exit_result = rw over refl in
          let listed : results (h ∷ hs) ≡ h.exit_result ∷ results hs = rw over refl in
          ap after ready
          ∙ (watch-attended hs (record ch { sent = ch.sent ++ h.exit_result ∷ [] })
              ∙ ap left_with (
                  append_assoc ch.sent (h.exit_result ∷ []) (results hs)
                  ∙ ap (λ rs. ch.sent ++ rs) (sym listed)))
      | inr runs ↦
          let waits : send_result h ≡ selecting = rw runs refl in
          let listed : results (h ∷ hs) ≡ results hs = rw runs refl in
          ap after waits
          ∙ (watch-attended hs ch ∙ ap (λ rs. left_with (ch.sent ++ rs)) (sym listed))
    ]

-- To a caller that receives after every tick, handleWait sends the exit result at each tick at
-- which the task is exited, not only at the first one. When a context is done, it returns and
-- closes the channel.
pub handle_wait_lem :
    (hs : List Handle)
    → handle_wait (attended hs ++ stopped ∷ []) new_watch ≡ left_with (results hs)
handle_wait_lem hs = watch-attended hs (record { sent = []; closed = false })

blocked :
    (m : Option ExitResult) (es : List (Select Handle)) (ch : Channel (Option ExitResult))
    → unattended es ≡ true
    → handle_wait es (record { place = sending m; channel = ch })
      ≡ record { place = sending m; channel = ch }
unfolding handle_wait watch
blocked m [] ch h = refl
blocked m (stopped ∷ es) ch h = blocked m es ch h
blocked m (tick a ∷ es) ch h = blocked m es ch h
blocked m (receive ∷ es) ch h = cc

-- To a caller that receives one exit result and no more, handleWait blocks in its second send:
-- after the next tick at which the task is exited, it neither returns nor closes the channel,
-- whatever contexts are done and whatever ticks come.
pub handle_wait_blocks :
    (h h' : Handle) (es : List (Select Handle))
    → is_done h.proc_state ≡ true
    → is_done h'.proc_state ≡ true
    → unattended es ≡ true
    → handle_wait (tick h ∷ receive ∷ tick h' ∷ es) new_watch ≡ record {
      place = sending h'.exit_result;
      channel = record { sent = h.exit_result ∷ []; closed = false };
    }
unfolding handle_wait watch send_result
handle_wait_blocks h h' es over over' alone = rw (over, over') (blocked h'.exit_result es _ alone)
