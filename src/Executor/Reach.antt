-- ===== src/Executor/Reach.antt =====
-- move_executor.h: the executors that calls of its methods lead to, in any order, with any clock and
-- any answers of the mixer.
use usb_proxy_udp.Base.{ℕ, ◌≡◌, ◌≢◌, true}
use usb_proxy_udp.Base.Int.{◌+ℤ◌}
use usb_proxy_udp.Mouse.{EnqueueResult, EndpointSnapshot, WriterEvent, ReportRequest}
use usb_proxy_udp.Move.{Request, Status}
use usb_proxy_udp.Executor.{
  Executor, start, stop, proceed, cancel, event, tick, completed, active, accepted,
}
use usb_proxy_udp.Executor.Invariant.{
  Inv, Expected, pressed, released, start-Inv, stop-Inv, proceed-Inv, cancel-Inv, event-Inv,
  tick-Inv,
}

-- The callers of `stop` pass an error status; the writer reports what was handed to it.
pub data Reach {M : Type 0} (enqueue : ReportRequest → M → EnqueueResult × M)
    : Executor → Type 0 where
  started :
      (s : Executor) (r : Request) (e : EndpointSnapshot) (now : ℕ)
      → Reach enqueue (start s r e now)
  stopped :
      {s : Executor} (reason : Status) (now : ℕ)
      → reason ≢ completed
      → reason ≢ active
      → reason ≢ accepted
      → Reach enqueue s
      → Reach enqueue (stop s reason now)
  proceeded : {s : Executor} → Reach enqueue s → Reach enqueue (proceed s)
  was_cancelled : {s : Executor} → Reach enqueue s → Reach enqueue (cancel s)
  reported :
      {s : Executor} (e : WriterEvent) → Expected s e → Reach enqueue s → Reach enqueue (event s e)
  ticked :
      {s : Executor} (e : EndpointSnapshot) (now : ℕ) (m : M)
      → Reach enqueue s
      → Reach enqueue (tick enqueue s e now m).0

module _ {M : Type 0} (enqueue : ReportRequest → M → EnqueueResult × M) where
  pub Reach-Inv : {s : Executor} → Reach enqueue s → Inv s
  Reach-Inv (started s r e now) = start-Inv s r e now
  Reach-Inv (stopped reason now h a c reached) = stop-Inv _ reason now h a c (Reach-Inv reached)
  Reach-Inv (proceeded reached) = proceed-Inv _ (Reach-Inv reached)
  Reach-Inv (was_cancelled reached) = cancel-Inv _ (Reach-Inv reached)
  Reach-Inv (reported e expected reached) = event-Inv _ e expected (Reach-Inv reached)
  Reach-Inv (ticked e now m reached) = tick-Inv enqueue _ e now m (Reach-Inv reached)

  -- After any calls of the executor's methods, in any order, with any snapshots, clock and answers of the
  -- mixer, where a stop is for another reason than completed, active or accepted, and a successful event of
  -- the writer about the transaction is about the report that the executor waits for: the
  -- acknowledgment's residual is the sum of the two displacements, a release is reported only with a
  -- press, and the transaction is completed only if a press that was written was also released.
  pub reached_account :
      {s : Executor}
      → Reach enqueue s
      → (s.ack.residual_x ≡ s.ack.out_x +ℤ s.ack.return_x)
        × (s.ack.residual_y ≡ s.ack.out_y +ℤ s.ack.return_y)
        × (released s ≡ true → pressed s ≡ true)
        × (s.ack.status ≡ completed → pressed s ≡ true → released s ≡ true)
  reached_account reached =
      let v = Reach-Inv reached in (v.residual_x, v.residual_y, v.released_pressed, v.ended_clean)
