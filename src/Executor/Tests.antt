-- ===== src/Executor/Tests.antt =====
-- move_executor.h: one transaction of 5 counts to the right with a left click, followed through its
-- stages.
use usb_proxy_udp.Executor.Reach.{reached_account, reported, ticked, started}
use usb_proxy_udp.Executor.Progress.{stage_rank, event_forward, tick_forward, tick_guarded}
use usb_proxy_udp.Executor.Motion.{run_events, out_reaches, return_restores}
use usb_proxy_udp.Executor.Reports.{AllJustified, noting, tick-Justified}
use usb_proxy_udp.Base.{
  ℕ, refl, true, false, Bool, ◌∷◌, ◌≤◌, [], length, ◌≡◌, if◌then◌else◌, not, ◌||◌, ◌==◌, bit_or,
  inr, arith,
}
use usb_proxy_udp.Base.Int.{pos, negsuc, ◌+ℤ◌, neg}
use usb_proxy_udp.Mouse.{EndpointSnapshot, WriterEvent, ReportKind}
use usb_proxy_udp.Move.{Request, execute}
use usb_proxy_udp.Executor.{
  Executor, start, empty_ack, active, completed, event, tick, transaction_return, done, guards,
  return, transaction_out, ok, redirect, act, dispatch, is_running, settle, cancelled, submit,
  timeout, endpoint_changed, interrupted,
}
use usb_proxy_udp.Executor.Invariant.{Inv, start-Inv, Expected, released, pressed}

abbrev click_right : Request
click_right = record {
  operation = execute;
  flags = 0;
  button = 1;
  session = 7;
  command = 3;
  epoch = 11;
  generation = 2;
  dx = pos 5;
  dy = pos 0;
  settle_us = 10;
  press_us = 20;
  return_us = 30;
  budget_us = 1000;
  wait_us = 0;
}

abbrev endpoint : EndpointSnapshot
endpoint = record {
  ready = true;
  physical = 0;
  persistent = 0;
  scheduled = 0;
  supported = 1;
  xmin = negsuc 126;
  xmax = pos 127;
  ymin = negsuc 126;
  ymax = pos 127;
  physical_dx = pos 0;
  physical_dy = pos 0;
  poll_us = 1000;
  physical_age_us = 0;
  physical_received = 0;
  physical_submitted = 0;
  superseded = 0;
  writer_failures = 0;
  output_queue = 0;
  synthetic_pending = 0;
  generation = 2;
  snapshot_ns = 0;
  last_motion_ns = 0;
  p99_residence_ns = 0;
  activity = 4;
  layout = 1;
  cumulative_x = pos 0;
  cumulative_y = pos 0;
}

abbrev no_executor : Executor
no_executor = record {
  request = click_right;
  ack = empty_ack;
  due = 0;
  deadline = 0;
  activity = 0;
  pending = false;
  continued = false;
  cancel_asked = false;
}

abbrev fresh : Executor
fresh = start no_executor click_right endpoint 100

-- The outward report is pending.
abbrev moving : Executor
moving = record fresh { pending = true }

abbrev part : ReportKind → ℕ → ℕ → Bool → WriterEvent
part kind n written last = record {
  session = 7;
  command = 3;
  generation = 2;
  written_ns = written;
  index = 0;
  kind = kind;
  button = 1;
  blocked = false;
  final_buttons = 0;
  success = true;
  dx = pos n;
  dy = pos 0;
  finished = last;
}

moving-Inv : Inv moving
unfolding start
moving-Inv =
    let v = start-Inv no_executor click_right endpoint 100 in
    record {
      flags_small = v.flags_small;
      residual_x = v.residual_x;
      residual_y = v.residual_y;
      released_pressed = v.released_pressed;
      stage_fits = λ _. refl;
      ended_clean = v.ended_clean;
    }

-- The event of the whole outward motion answers the pending report.
answered : Expected moving (part transaction_out 5 200 true)
unfolding start
answered = λ _ _ _. (refl, refl)

-- The click is done, 5 counts are left to take back, and the return report is pending.
abbrev returning : Executor
returning = record no_executor {
  ack = record empty_ack {
    status = active;
    stage = return;
    flags = 6;
    out_x = pos 5;
    residual_x = pos 5;
  };
  pending = true;
}

abbrev taken_back : ℕ → ℕ → Bool → WriterEvent
taken_back n written last = record (part transaction_return 0 written last) { dx = negsuc n }

abbrev finished_executor : Executor
finished_executor = record returning {
  ack = record (returning.ack) { status = completed; stage = done };
}

reached_account_example :
    (let s = event (tick (noting ok) fresh endpoint 150 []).0 (part transaction_out 5 200 true) in
      (s.ack.residual_x ≡ s.ack.out_x +ℤ s.ack.return_x)
      × (s.ack.residual_y ≡ s.ack.out_y +ℤ s.ack.return_y)
      × (released s ≡ true → pressed s ≡ true)
      × (s.ack.status ≡ completed → pressed s ≡ true → released s ≡ true))
unfolding start tick guards redirect act dispatch submit
reached_account_example = reached_account (noting ok) (
    reported (part transaction_out 5 200 true) (λ _ _ _. (refl, refl))
      (ticked endpoint 150 [] (started no_executor click_right endpoint 100)))

tick-Justified_example :
    AllJustified fresh (tick (noting ok) fresh endpoint 150 []).2
    × (length (tick (noting ok) fresh endpoint 150 []).2 ≤ 1)
tick-Justified_example =
    tick-Justified ok fresh endpoint 150 (start-Inv no_executor click_right endpoint 100)

return_restores_example :
    (let t = run_events returning (taken_back 1 300 false ∷ taken_back 2 400 true ∷ []) in
      (t.ack.residual_x ≡ pos 0)
      × (t.ack.residual_y ≡ pos 0)
      × (t.ack.stage ≡ done)
      × (t.ack.flags ≡ returning.ack.flags)
      × (t.ack.status ≡ (if returning.cancel_asked then cancelled else completed)))
unfolding ◌+ℤ◌ neg
return_restores_example =
    return_restores returning (taken_back 1 300 false ∷ taken_back 2 400 true ∷ []) refl refl refl
      (
        record { concerned = refl; written = refl; of_kind = refl; is_last = refl },
        record { concerned = refl; written = refl; of_kind = refl; is_last = refl },
      )
      refl refl

out_reaches_example :
    (let t =
        run_events moving
          (part transaction_out 3 200 false ∷ part transaction_out 2 300 true ∷ []) in
      (t.ack.out_x ≡ moving.request.dx)
      × (t.ack.out_y ≡ moving.request.dy)
      × (t.ack.residual_x ≡ moving.request.dx)
      × (t.ack.residual_y ≡ moving.request.dy)
      × (t.ack.stage ≡ settle)
      × (is_running t ≡ true)
      × (t.pending ≡ false))
unfolding start ◌+ℤ◌
out_reaches_example =
    out_reaches moving (part transaction_out 3 200 false ∷ part transaction_out 2 300 true ∷ [])
      refl refl refl
      (
        record { concerned = refl; written = refl; of_kind = refl; is_last = refl },
        record { concerned = refl; written = refl; of_kind = refl; is_last = refl },
      )
      refl refl

event_forward_example :
    stage_rank moving ≤ stage_rank (event moving (part transaction_out 5 200 true))
event_forward_example = event_forward moving (part transaction_out 5 200 true) answered moving-Inv

tick_forward_example : stage_rank fresh ≤ stage_rank (tick (noting ok) fresh endpoint 150 []).0
tick_forward_example =
    tick_forward (noting ok) fresh endpoint 150 [] (start-Inv no_executor click_right endpoint 100)

-- The budget of 1 ms runs out while the outward report is pending.
tick_guarded_example :
    (let (t, reset, m') = tick (noting ok) moving endpoint 1_000_100 [] in
      (reset ≡ true)
      × (m' ≡ [])
      × (is_running t ≡ false)
      × (t.ack.stage ≡ done)
      × (t.ack.status ≡ (
          if not endpoint.ready || not (endpoint.generation == moving.request.generation)
          then endpoint_changed
          else if not (endpoint.activity == moving.activity)
          then interrupted
          else timeout))
      × (t.ack.residual_x ≡ moving.ack.residual_x)
      × (t.ack.residual_y ≡ moving.ack.residual_y)
      × (t.ack.flags ≡ (if moving.pending then bit_or moving.ack.flags 1 else moving.ack.flags)))
unfolding start
tick_guarded_example =
    tick_guarded (noting ok) moving endpoint 1_000_100 [] refl (inr (inr (inr (omega arith))))
