-- ===== src/Executor/Running.antt =====
-- move_executor.h: only `start` makes an executor run.
use usb_proxy_udp.Base.{◌≡◌, true, arith, false, ℕ, Bool-cases, inl, inr, ap}
use usb_proxy_udp.Executor.{Executor, is_running, stop, event, tick, proceed, cancel}
use usb_proxy_udp.Move.{cancelled}
use usb_proxy_udp.Mouse.{WriterEvent, EndpointSnapshot, ReportRequest, EnqueueResult}

-- What leaves an executor that does not run as it is, starts none.
starts_none :
    (s t : Executor) → (is_running s ≡ false → t ≡ s) → is_running t ≡ true → is_running s ≡ true
starts_none s t stays run = elim (Bool-cases (is_running s)) [
  | inl on ↦ on
  | inr off ↦ absurd (cc (run, ap is_running (stays off), off))
]

event_ended : (s : Executor) (e : WriterEvent) → is_running s ≡ false → event s e ≡ s
unfolding event
event_ended s e off = ground arith

pub event_running :
    (s : Executor) (e : WriterEvent) → is_running (event s e) ≡ true → is_running s ≡ true
event_running s e = starts_none s (event s e) (event_ended s e)

-- `stop` takes a reason other than `active`.
pub stop_running : (s : Executor) (now : ℕ) → is_running (stop s cancelled now) ≡ false
unfolding stop
stop_running s now = ground arith

pub proceed_running : (s : Executor) → is_running (proceed s) ≡ true → is_running s ≡ true
unfolding proceed
proceed_running s run = ground arith

pub cancel_running : (s : Executor) → is_running (cancel s) ≡ true → is_running s ≡ true
unfolding cancel
cancel_running s run = ground arith

pub tick_running :
    {M : Type 0} (enqueue : ReportRequest → M → EnqueueResult × M) (s : Executor)
    (e : EndpointSnapshot) (now : ℕ) (m : M)
    → is_running (tick enqueue s e now m).0 ≡ true
    → is_running s ≡ true
unfolding tick
tick_running enqueue s e now m = starts_none s (tick enqueue s e now m).0 (λ off. ground arith)
