-- ===== src/Executor/Reports.antt =====
-- move_executor.h: which reports `tick` hands to the mixer.
use usb_proxy_udp.Base.{ℕ, ◌≡◌, true, false, List, [], ◌∷◌, arith, length, ◌≤◌, ◌^◌, ◌-◌, ◌%◌}
use usb_proxy_udp.Mouse.{EnqueueResult, EndpointSnapshot, ReportRequest, is_transaction, ok}
use usb_proxy_udp.Executor.{
  Executor, is_running, tick, redirect, act, submit, dispatch, transaction_press, no_command,
  transaction_release, transaction_out, transaction_return, neg, Action, MouseCommand, ReportKind,
  rest, send,
}
use usb_proxy_udp.Executor.Cases.{tick_cases}
use usb_proxy_udp.Executor.Invariant.{Inv, pressed, released}

-- A mixer that notes what it is handed and answers as it is told.
abbrev pub noting :
    EnqueueResult → ReportRequest → List ReportRequest → EnqueueResult × List ReportRequest
noting answer r noted = (answer, r ∷ noted)

-- What a report must be, by its kind, for the executor that hands it over.
pub record Fits (s : Executor) (c : MouseCommand) (kind : ReportKind) (scheduled : ℕ) : Type 0 where
  pub transaction : is_transaction kind ≡ true
  pub press_once :
      kind ≡ transaction_press
      → (pressed s ≡ false)
        × (s.cancel_asked ≡ false)
        × (scheduled ≡ 2 ^ (s.request.button - 1) % 256)
        × (c ≡ no_command)
  pub release_owed :
      kind ≡ transaction_release
      → (pressed s ≡ true) × (released s ≡ false) × (scheduled ≡ 0) × (c ≡ no_command)
  pub goes_out :
      kind ≡ transaction_out
      → (s.cancel_asked ≡ false)
        × (scheduled ≡ 0)
        × (c ≡ record no_command { x = s.request.dx; y = s.request.dy })
  pub comes_back :
      kind ≡ transaction_return
      → (pressed s ≡ true → released s ≡ true)
        × (scheduled ≡ 0)
        × (c ≡ record no_command { x = neg s.ack.residual_x; y = neg s.ack.residual_y })

pub record Justified (s : Executor) (r : ReportRequest) : Type 0 where
  pub running : is_running s ≡ true
  pub free : s.pending ≡ false
  pub identified :
      (r.session ≡ s.request.session)
      × (r.command_id ≡ s.request.command)
      × (r.expected_generation ≡ s.request.generation)
      × (r.expected_activity ≡ s.activity)
  pub fits : Fits s r.command r.kind r.scheduled

abbrev pub AllJustified : Executor → List ReportRequest → Type 0
AllJustified s [] = Unit {0}
AllJustified s (r ∷ rs) = Justified s r × AllJustified s rs

abbrev ActFits : Executor → Action → Type 0
ActFits s (rest t) = Unit {0}
ActFits s (send command kind scheduled) = Fits s command kind scheduled

act-Fits :
    (s : Executor) (now : ℕ)
    → Inv s
    → is_running s ≡ true
    → s.pending ≡ false
    → ActFits s (act (redirect s now).ack.stage (redirect s now) now)
unfolding act redirect
act-Fits s now v run free = ground arith

dispatch-Justified :
    (answer : EnqueueResult) (s t : Executor) (a : Action) (now : ℕ)
    → is_running s ≡ true
    → s.pending ≡ false
    → t.request ≡ s.request
    → t.activity ≡ s.activity
    → ActFits s a
    → AllJustified s (dispatch (noting answer) a t now []).2
      × (length (dispatch (noting answer) a t now []).2 ≤ 1)
unfolding dispatch submit
dispatch-Justified answer s t (rest u) now run free same act h = (tt, omega arith)
dispatch-Justified ok s t (send command kind scheduled) now run free same act h =
    ((record { running = run; free = free; identified = ground arith; fits = h }, tt), omega arith)
dispatch-Justified _ s t (send command kind scheduled) now run free same act h =
    ((record { running = run; free = free; identified = ground arith; fits = h }, tt), omega arith)

redirect_same :
    (s : Executor) (now : ℕ)
    → ((redirect s now).request ≡ s.request) × ((redirect s now).activity ≡ s.activity)
unfolding redirect
redirect_same s now = ground arith

-- For a transaction that satisfies the invariant, one tick hands over at most one report, and only
-- with no other pending. A press is handed over only when none was written and no cancel was
-- asked; a release only for a press that was written and not released; the outward motion is the
-- requested one and the return motion the opposite of the residual, after any release that was
-- owed.
pub tick-Justified :
    (answer : EnqueueResult) (s : Executor) (e : EndpointSnapshot) (now : ℕ)
    → Inv s
    → let noted = (tick (noting answer) s e now []).2 in AllJustified s noted × (length noted ≤ 1)
tick-Justified answer s e now v =
    tick_cases (noting answer) (λ r. AllJustified s r.2 × (length r.2 ≤ 1)) s e now []
      (λ _. (tt, omega arith)) (λ _ _ _. (tt, omega arith)) (λ _ _ _. (tt, omega arith))
      λ run g free.
        let same = redirect_same s now in
        dispatch-Justified answer s (redirect s now)
          (act (redirect s now).ack.stage (redirect s now) now) now run free same.0 same.1
          (act-Fits s now v run free)
