-- ===== src/Executor/Progress.antt =====
-- move_executor.h: a transaction goes forward through its stages, ends by its deadline, and stays as
-- it ended.
use usb_proxy_udp.Base.{
  ℕ, ◌≤◌, ◌≡◌, true, false, arith, ◌⊎◌, ◌≢◌, if◌then◌else◌, not, ◌||◌, ◌==◌, bit_or,
}
use usb_proxy_udp.Mouse.{EnqueueResult, EndpointSnapshot, WriterEvent, ReportRequest}
use usb_proxy_udp.Move.{Status, stage_code, done}
use usb_proxy_udp.Executor.{
  Executor, is_running, stop, event, tick, redirect, act, submit, dispatch, guards, Action,
  displaced, accounted, rest, finish, send, endpoint_changed, interrupted, timeout,
}
use usb_proxy_udp.Executor.Cases.{tick_cases}
use usb_proxy_udp.Executor.Invariant.{Inv, Expected}

abbrev pub stage_rank : Executor → ℕ
stage_rank s = stage_code s.ack.stage

-- A writer event, whose success answers the pending report, never takes a transaction that
-- satisfies the invariant back to an earlier stage.
pub event_forward :
    (s : Executor) (e : WriterEvent) → Expected s e → Inv s → stage_rank s ≤ stage_rank (event s e)
unfolding event displaced accounted finish stop
event_forward s e x v = ground arith

redirect_forward :
    (s : Executor) (now : ℕ)
    → s.pending ≡ false
    → is_running s ≡ true
    → Inv s
    → stage_rank s ≤ stage_rank (redirect s now)
unfolding redirect
redirect_forward s now free run v = ground arith

ActForward : Executor → Action → Type 0
ActForward s (rest t) = stage_rank s ≤ stage_rank t
ActForward s (send command kind scheduled) = Unit {0}

act_forward : (s : Executor) (now : ℕ) → ActForward s (act s.ack.stage s now)
unfolding act ActForward
act_forward s now = ground arith

stop_forward :
    (s : Executor) (reason : Status) (now : ℕ) → stage_rank s ≤ stage_rank (stop s reason now)
unfolding stop
stop_forward s reason now = ground arith

module _ {M : Type 0} (enqueue : ReportRequest → M → EnqueueResult × M) where
  dispatch_forward :
      (a : Action) (s : Executor) (now : ℕ) (m : M)
      → ActForward s a
      → stage_rank s ≤ stage_rank (dispatch enqueue a s now m).0
  unfolding dispatch submit ActForward
  dispatch_forward (rest t) s now m h = h
  dispatch_forward (send command kind scheduled) s now m h =
      ground (arith, stop_forward s endpoint_changed now)

  -- A tick, whatever the mixer answers, never takes a transaction that satisfies the invariant
  -- back to an earlier stage.
  pub tick_forward :
      (s : Executor) (e : EndpointSnapshot) (now : ℕ) (m : M)
      → Inv s
      → stage_rank s ≤ stage_rank (tick enqueue s e now m).0
  tick_forward s e now m v =
      tick_cases enqueue (λ r. stage_rank s ≤ stage_rank r.0) s e now m (λ _. omega arith)
        (λ reason _ _. stop_forward s reason now) (λ _ _ _. omega arith)
        λ run g free. omega (
          arith,
          redirect_forward s now free run v,
          dispatch_forward (act (redirect s now).ack.stage (redirect s now) now) (redirect s now)
              now m (act_forward (redirect s now) now),
        )

  -- A tick at or after the deadline ends a running transaction and asks for a reset; so does one that
  -- finds the endpoint lost, replaced or used by the physical mouse. The status is the first of these
  -- reasons that applies, the displacements stay, and bit 0 of the flags says whether a report was
  -- pending.
  pub tick_guarded :
      (s : Executor) (e : EndpointSnapshot) (now : ℕ) (m : M)
      → is_running s ≡ true
      → (e.ready ≡ false)
        ⊎ (e.generation ≢ s.request.generation)
        ⊎ (e.activity ≢ s.activity)
        ⊎ (s.deadline ≤ now)
      → let (t, reset, m') = tick enqueue s e now m in
        (reset ≡ true)
        × (m' ≡ m)
        × (is_running t ≡ false)
        × (t.ack.stage ≡ done)
        × (t.ack.status ≡ (
            if not e.ready || not (e.generation == s.request.generation)
            then endpoint_changed
            else if not (e.activity == s.activity)
            then interrupted
            else timeout))
        × (t.ack.residual_x ≡ s.ack.residual_x)
        × (t.ack.residual_y ≡ s.ack.residual_y)
        × (t.ack.flags ≡ (if s.pending then bit_or s.ack.flags 1 else s.ack.flags))
  unfolding tick guards stop
  tick_guarded s e now m run h = ground arith
