-- ===== src/Executor/Invariant.antt =====
-- move_executor.h: what holds of an executor between two calls, whatever the caller does, as long as
-- the writer reports only what was handed to it.
use usb_proxy_udp.Executor.Cases.{tick_cases}
use Prim.Native.Nat.{zero}
use usb_proxy_udp.Base.{
  ℕ, ◌<◌, ◌≡◌, refl, Bool, true, false, not, ◌&&◌, ◌||◌, arith, ◌==◌, bit_and, bit_or, suc, ◌≢◌,
  some, ◌∙◌,
}
use usb_proxy_udp.Base.Int.{◌+ℤ◌}
use usb_proxy_udp.Mouse.{ReportKind, EndpointSnapshot, WriterEvent, none_kind}
use usb_proxy_udp.Move.{
  Request, Status, Stage, out, settle, waiting, press, hold, release, delay, return,
}
use usb_proxy_udp.Executor.{
  Executor, is_running, concerns, start, stop, proceed, cancel, event, completed, transaction_out,
  active, transaction_press, accepted, transaction_release, transaction_return, Action, act,
  redirect, rest, send, ReportRequest, guards, EnqueueResult, dispatch, submit, tick, MouseCommand,
  endpoint_changed, displaced, accounted, finish,
}

-- Bits 1 and 2 of the acknowledgment's flags: a press and a release were written.
abbrev pub pressed : Executor → Bool
pressed s = not (bit_and s.ack.flags 2 == 0)

abbrev pub released : Executor → Bool
released s = not (bit_and s.ack.flags 4 == 0)

-- Which flags and which `pending_` go with a stage of a running transaction.
abbrev pub stage_ok : Stage → Bool → Bool → Bool → Bool
stage_ok out p r wait = not p && not r
stage_ok settle p r wait = not p && not r && not wait
stage_ok waiting p r wait = not p && not r && not wait
stage_ok press p r wait = not p && not r
stage_ok hold p r wait = p && not r && not wait
stage_ok release p r wait = p && not r
stage_ok delay p r wait = (not p || r) && not wait
stage_ok return p r wait = not p || r
stage_ok _ p r wait = false

pub record Inv (s : Executor) : Type 0 where
  pub flags_small : s.ack.flags < 8
  pub residual_x : s.ack.residual_x ≡ s.ack.out_x +ℤ s.ack.return_x
  pub residual_y : s.ack.residual_y ≡ s.ack.out_y +ℤ s.ack.return_y
  pub released_pressed : released s ≡ true → pressed s ≡ true
  pub stage_fits :
      is_running s ≡ true → stage_ok s.ack.stage (pressed s) (released s) s.pending ≡ true
  pub ended_clean : s.ack.status ≡ completed → pressed s ≡ true → released s ≡ true

-- The kind of report that a stage hands to the mixer.
abbrev pub stage_kind : Stage → ReportKind
stage_kind out = transaction_out
stage_kind press = transaction_press
stage_kind release = transaction_release
stage_kind return = transaction_return
stage_kind _ = none_kind

-- The writer's part: a successful event about this transaction answers the report that is pending.
abbrev pub Expected : Executor → WriterEvent → Type 0
Expected s e =
    is_running s ≡ true
    → concerns s.request e ≡ true
    → e.success ≡ true
    → (s.pending ≡ true) × (e.kind ≡ stage_kind s.ack.stage)

set_one :
    (x : ℕ)
    → x < 8
    → (bit_or x 1 < 8)
      × (bit_and (bit_or x 1) 2 ≡ bit_and x 2)
      × (bit_and (bit_or x 1) 4 ≡ bit_and x 4)
set_one zero h = (omega arith, refl, refl)
set_one (suc zero) h = (omega arith, refl, refl)
set_one (suc (suc zero)) h = (omega arith, refl, refl)
set_one (suc (suc (suc zero))) h = (omega arith, refl, refl)
set_one (suc (suc (suc (suc zero)))) h = (omega arith, refl, refl)
set_one (suc (suc (suc (suc (suc zero))))) h = (omega arith, refl, refl)
set_one (suc (suc (suc (suc (suc (suc zero)))))) h = (omega arith, refl, refl)
set_one (suc (suc (suc (suc (suc (suc (suc zero))))))) h = (omega arith, refl, refl)
set_one (suc (suc (suc (suc (suc (suc (suc (suc x)))))))) h = absurd (omega arith)

set_two :
    (x : ℕ)
    → x < 8
    → (bit_or x 2 < 8) × (bit_and (bit_or x 2) 2 ≡ 2) × (bit_and (bit_or x 2) 4 ≡ bit_and x 4)
set_two zero h = (omega arith, refl, refl)
set_two (suc zero) h = (omega arith, refl, refl)
set_two (suc (suc zero)) h = (omega arith, refl, refl)
set_two (suc (suc (suc zero))) h = (omega arith, refl, refl)
set_two (suc (suc (suc (suc zero)))) h = (omega arith, refl, refl)
set_two (suc (suc (suc (suc (suc zero))))) h = (omega arith, refl, refl)
set_two (suc (suc (suc (suc (suc (suc zero)))))) h = (omega arith, refl, refl)
set_two (suc (suc (suc (suc (suc (suc (suc zero))))))) h = (omega arith, refl, refl)
set_two (suc (suc (suc (suc (suc (suc (suc (suc x)))))))) h = absurd (omega arith)

set_four :
    (x : ℕ)
    → x < 8
    → (bit_or x 4 < 8) × (bit_and (bit_or x 4) 4 ≡ 4) × (bit_and (bit_or x 4) 2 ≡ bit_and x 2)
set_four zero h = (omega arith, refl, refl)
set_four (suc zero) h = (omega arith, refl, refl)
set_four (suc (suc zero)) h = (omega arith, refl, refl)
set_four (suc (suc (suc zero))) h = (omega arith, refl, refl)
set_four (suc (suc (suc (suc zero)))) h = (omega arith, refl, refl)
set_four (suc (suc (suc (suc (suc zero))))) h = (omega arith, refl, refl)
set_four (suc (suc (suc (suc (suc (suc zero)))))) h = (omega arith, refl, refl)
set_four (suc (suc (suc (suc (suc (suc (suc zero))))))) h = (omega arith, refl, refl)
set_four (suc (suc (suc (suc (suc (suc (suc (suc x)))))))) h = absurd (omega arith)

pub start-Inv :
    (s : Executor) (r : Request) (e : EndpointSnapshot) (now : ℕ) → Inv (start s r e now)
unfolding start ◌+ℤ◌
start-Inv s r e now = ground arith

pub stop-Inv :
    (s : Executor) (reason : Status) (now : ℕ)
    → reason ≢ completed
    → reason ≢ active
    → reason ≢ accepted
    → Inv s
    → Inv (stop s reason now)
unfolding stop
stop-Inv s reason now h a c v = ground (arith, set_one s.ack.flags v.flags_small)

pub proceed-Inv : (s : Executor) → Inv s → Inv (proceed s)
unfolding proceed
proceed-Inv s v = ground arith

pub cancel-Inv : (s : Executor) → Inv s → Inv (cancel s)
unfolding cancel
cancel-Inv s v = ground arith

-- A writer event keeps the invariant, if its success answers the report that is pending: the residual is
-- the sum of the displacements, a release was written only after a press, the flags fit the stage, and a
-- completed transaction has released what it pressed.
pub event-Inv : (s : Executor) (e : WriterEvent) → Expected s e → Inv s → Inv (event s e)
unfolding event displaced accounted finish
event-Inv s e x v = ground (
  arith,
  set_one s.ack.flags v.flags_small,
  set_two s.ack.flags v.flags_small,
  set_four s.ack.flags v.flags_small,
)

redirect-Inv : (s : Executor) (now : ℕ) → s.pending ≡ false → Inv s → Inv (redirect s now)
unfolding redirect
redirect-Inv s now idle_writer v = ground arith

-- An action keeps the invariant, also when the report of a `send` is marked pending.
ActInv : Executor → Action → Type 0
ActInv s (rest t) = Inv t
ActInv s (send command kind scheduled) = Inv (record s { pending = true })

act-Inv :
    (s : Executor) (now : ℕ)
    → s.pending ≡ false
    → Inv s
    → is_running s ≡ true
    → ActInv s (act s.ack.stage s now)
unfolding act ActInv
act-Inv s now idle_writer v run = ground arith

redirect_running :
    (s : Executor) (now : ℕ)
    → (is_running (redirect s now) ≡ is_running s) × ((redirect s now).pending ≡ s.pending)
unfolding redirect
redirect_running s now = ground arith

guards_reason :
    (s : Executor) (e : EndpointSnapshot) (now : ℕ) {reason : Status}
    → guards s e now ≡ some reason
    → (reason ≢ completed) × (reason ≢ active) × (reason ≢ accepted)
unfolding guards
guards_reason s e now h = ground arith

module _ {M : Type 0} (enqueue : ReportRequest → M → EnqueueResult × M) where
  submit-Inv :
      (s : Executor) (command : MouseCommand) (kind : ReportKind) (scheduled now : ℕ) (m : M)
      → Inv s
      → Inv (record s { pending = true })
      → Inv (submit enqueue s command kind scheduled now m).0
  unfolding submit
  submit-Inv s command kind scheduled now m v w =
      ground (arith, stop-Inv s endpoint_changed now (λ e. cc) (λ e. cc) (λ e. cc) v)

  dispatch-Inv :
      (a : Action) (s : Executor) (now : ℕ) (m : M)
      → Inv s
      → ActInv s a
      → Inv (dispatch enqueue a s now m).0
  unfolding dispatch ActInv
  dispatch-Inv (rest t) s now m v w = w
  dispatch-Inv (send command kind scheduled) s now m v w =
      submit-Inv s command kind scheduled now m v w

  -- A tick keeps the invariant, whatever the mixer answers.
  pub tick-Inv :
      (s : Executor) (e : EndpointSnapshot) (now : ℕ) (m : M)
      → Inv s
      → Inv (tick enqueue s e now m).0
  tick-Inv s e now m v =
      tick_cases enqueue (λ r. Inv r.0) s e now m (λ _. v)
        (λ reason run g. let r = guards_reason s e now g in stop-Inv s reason now r.0 r.1 r.2 v)
        (λ _ _ _. v)
        λ run g free.
          let same = redirect_running s now in
          let v' = redirect-Inv s now free v in
          dispatch-Inv (act (redirect s now).ack.stage (redirect s now) now) (redirect s now) now m
            v' (act-Inv (redirect s now) now (same.1 ∙ free) v' (same.0 ∙ run))
