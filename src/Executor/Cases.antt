-- ===== src/Executor/Cases.antt =====
-- The four ways through `tick` of move_executor.h, as one rule.
use usb_proxy_udp.Base.{ℕ, ◌≡◌, Bool, true, false, some, none, Bool-cases, inr, inl, Option-cases}
use usb_proxy_udp.Mouse.{EnqueueResult, EndpointSnapshot, ReportRequest}
use usb_proxy_udp.Executor.{
  Executor, is_running, stop, tick, redirect, act, dispatch, guards, Status,
}

module _ {M : Type 0} (enqueue : ReportRequest → M → EnqueueResult × M) where
  pub tick_cases {ℓ} :
      (P : Executor × Bool × M → Type ℓ) (s : Executor) (e : EndpointSnapshot) (now : ℕ) (m : M)
      → (is_running s ≡ false → P (s, false, m))
      → ((reason : Status)
          → is_running s ≡ true
          → guards s e now ≡ some reason
          → P (stop s reason now, true, m))
      → (is_running s ≡ true → guards s e now ≡ none → s.pending ≡ true → P (s, false, m))
      → (is_running s ≡ true
          → guards s e now ≡ none
          → s.pending ≡ false
          → P (
              dispatch enqueue
                (act (redirect s now).ack.stage (redirect s now) now)
                (redirect s now)
                now
                m))
      → P (tick enqueue s e now m)
  unfolding tick
  tick_cases P s e now m ended guarded waits goes = elim (Bool-cases (is_running s)) [
    | inr off ↦ rw (off, tick) (ended off)
    | inl run ↦ elim (Option-cases (guards s e now)) [
      | inr (reason, g) ↦ rw (run, tick) (rw (g, tick) (guarded reason run g))
      | inl g ↦ elim (Bool-cases s.pending) [
        | inl wait ↦ rw (run, tick) (rw (g, tick) (simp wait (waits run g wait)))
        | inr free ↦ rw (run, tick) (rw (g, tick) (simp free (goes run g free)))
      ]
    ]
  ]
