-- ===== src/Sessions/Tests.antt =====
-- session_tracker.h: a session that is admitted, evicted and admitted again.
use usb_proxy_udp.Base.{◌≡◌, refl, true, false, [], leb, arith}
use usb_proxy_udp.Sessions.{
  Tracker, admit, accept, stale, find, pruned, max_ℕ, prune, erase, admit_new, make_room,
}
use usb_proxy_udp.Sessions.Laws.{IsWellFormed}
use usb_proxy_udp.Sessions.Memory.{
  admit-IsWellFormed, accept-IsWellFormed, stale-accept-admit, remembered, or_zero,
}

abbrev empty_tracker : Tracker
empty_tracker = record { active = []; retired = [] }

empty_tracker-IsWellFormed : IsWellFormed empty_tracker
unfolding find
empty_tracker-IsWellFormed = ground arith

-- Session 7 with command 40 accepted.
abbrev one_session : Tracker
one_session = accept (admit empty_tracker 7 100 false (λ _. false)).0 7 40 200

one_session-IsWellFormed : IsWellFormed one_session
one_session-IsWellFormed =
    accept-IsWellFormed (admit empty_tracker 7 100 false (λ _. false)).0 7 40 200
      (admit-IsWellFormed empty_tracker 7 100 false (λ _. false) empty_tracker-IsWellFormed)

admit-IsWellFormed_example : IsWellFormed (admit one_session 8 300 true (λ _. true)).0
admit-IsWellFormed_example =
    admit-IsWellFormed one_session 8 300 true (λ _. true) one_session-IsWellFormed

stale-accept-admit_example :
    (stale (accept (admit one_session 7 300 false (λ _. false)).0 7 50 300) 7 45 400).1
    ≡ leb 45 (max_ℕ (or_zero (remembered (pruned one_session 300) 7)) 50)
unfolding admit accept prune erase find admit_new make_room
stale-accept-admit_example =
    stale-accept-admit one_session 7 50 300 400 false (λ _. false) 45 one_session-IsWellFormed refl
