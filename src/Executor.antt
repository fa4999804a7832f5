-- ===== src/Executor.antt =====
-- move_executor.h: the executor of one out/press/release/return transaction. Its methods return the
-- new executor. `tick` calls `enqueue_report` of the mixer, here a section's parameter over the
-- mixer's state. `int32_t` sums are sums of integers.
mod Cases
pub mod Invariant
pub mod Progress
pub mod Running
pub mod Motion
pub mod Reports
pub mod Reach
mod Tests
use usb_proxy_udp.Base.{
  ℕ, ◌+◌, ◌*◌, ◌%◌, ◌^◌, ◌-◌, Bool, true, false, not, ◌&&◌, ◌||◌, Option, none, some, ◌==◌, leb,
  ltb, if◌then◌else◌, bit_and, bit_or,
}
use usb_proxy_udp.Base.Int.{pos, ◌+ℤ◌, neg, is_zero}
use usb_proxy_udp.Mouse.{
  MouseCommand, no_command, ReportKind, transaction_out, transaction_press, transaction_release,
  transaction_return, EnqueueResult, ok, queue_full, EndpointSnapshot, WriterEvent, ReportRequest,
}
use usb_proxy_udp.Move.{
  Request, Ack, Status, Stage, active, accepted, completed, cancelled, timeout, interrupted,
  writer_failed, endpoint_changed, button_active, idle, out, settle, waiting, press, hold, release,
  delay, return, done, invalid,
}

pub record Executor : Type 0 where
  pub request : Request
  pub ack : Ack
  pub due : ℕ
  pub deadline : ℕ
  pub activity : ℕ
  pub pending : Bool
  pub continued : Bool
  pub cancel_asked : Bool

-- uint64_t a + b
abbrev pub add64 : ℕ → ℕ → ℕ
add64 a b = (a + b) % 2 ^ 64

-- The value-initialised `Ack`.
abbrev pub empty_ack : Ack
empty_ack = record {
  status = invalid;
  stage = idle;
  flags = 0;
  session = 0;
  command = 0;
  epoch = 0;
  generation = 0;
  written_ns = 0;
  out_x = pos 0;
  out_y = pos 0;
  return_x = pos 0;
  return_y = pos 0;
  residual_x = pos 0;
  residual_y = pos 0;
}

abbrev is_active : Status → Bool
is_active active = true
is_active accepted = true
is_active _ = false

abbrev pub is_running : Executor → Bool
is_running s = is_active s.ack.status

-- The private `stage(value, now)`.
abbrev pub set_stage : Executor → Stage → ℕ → Executor
set_stage s value now = record s { ack = record (s.ack) { stage = value; written_ns = now } }

unfoldable pub start : Executor → Request → EndpointSnapshot → ℕ → Executor
start s r e now = record {
  request = r;
  ack = record empty_ack {
    status = active;
    stage = out;
    session = r.session;
    command = r.command;
    epoch = r.epoch;
    generation = r.generation;
    written_ns = now;
  };
  due = now;
  deadline = add64 now (r.budget_us * 1000);
  activity = e.activity;
  pending = false;
  continued = false;
  cancel_asked = false;
}

unfoldable pub stop : Executor → Status → ℕ → Executor
stop s reason now =
    let flags = if s.pending then bit_or s.ack.flags 1 else s.ack.flags in
    if not (is_running s) then s else record s {
      ack = record (s.ack) { flags = flags; status = reason; stage = done; written_ns = now };
      pending = false;
    }

abbrev is_waiting : Stage → Bool
is_waiting waiting = true
is_waiting _ = false

unfoldable pub proceed : Executor → Executor
proceed s = if is_running s && is_waiting s.ack.stage then record s { continued = true } else s

unfoldable pub cancel : Executor → Executor
cancel s = if is_running s then record s { cancel_asked = true } else s

-- The displacement that a successful event reports; `none` for the kinds that return early.
displaced : ReportKind → Ack → WriterEvent → Option Ack
displaced transaction_out a e = some (record a { out_x = a.out_x +ℤ e.dx; out_y = a.out_y +ℤ e.dy })
displaced transaction_return a e =
    some (record a { return_x = a.return_x +ℤ e.dx; return_y = a.return_y +ℤ e.dy })
displaced transaction_press a e = some a
displaced transaction_release a e = some a
displaced _ a e = none

accounted : Ack → WriterEvent → Ack
accounted a e = record a {
  residual_x = a.out_x +ℤ a.return_x;
  residual_y = a.out_y +ℤ a.return_y;
  written_ns = e.written_ns;
}

-- The stage change after the last report of an item, with `pending_` already cleared.
finish : ReportKind → Executor → WriterEvent → Executor
unfolding stop
finish transaction_out s e = record (set_stage s settle e.written_ns) {
  due = add64 e.written_ns (s.request.settle_us * 1000);
}
finish transaction_press s e =
    let pressed = record s { ack = record (s.ack) { flags = bit_or s.ack.flags 2 } } in
    if e.blocked
    then stop s button_active e.written_ns
    else record (set_stage pressed hold e.written_ns) {
      due = add64 e.written_ns (s.request.press_us * 1000);
    }
finish transaction_release s e =
    let released = record s { ack = record (s.ack) { flags = bit_or s.ack.flags 4 } } in
    record (set_stage released delay e.written_ns) {
      due = add64 e.written_ns (s.request.return_us * 1000);
    }
finish _ s e =
    let ended = record s {
      ack = record (s.ack) { status = if s.cancel_asked then cancelled else completed };
    } in
    set_stage ended done e.written_ns

abbrev pub concerns : Request → WriterEvent → Bool
concerns r e = e.session == r.session && e.command == r.command && e.generation == r.generation

pub event : Executor → WriterEvent → Executor
event s e =
    if not (is_running s) || not (concerns s.request e)
    then s
    else if not e.success
    then stop s writer_failed e.written_ns
    else elim (displaced e.kind s.ack e) [
      | none ↦ s
      | some a ↦
          let t = record s { ack = accounted a e } in
          if not e.finished then t else finish e.kind (record t { pending = false }) e
    ]

-- What a stage does when its turn comes: hand a report to the mixer, or go on with a new state.
pub data Action : Type 0 where
  send : MouseCommand → ReportKind → ℕ → Action
  rest : Executor → Action

-- `switch(ack_.stage)` of `tick`.
pub act : Stage → Executor → ℕ → Action
act out s now =
    if is_zero s.request.dx && is_zero s.request.dy
    then rest (record (set_stage s settle now) { due = add64 now (s.request.settle_us * 1000) })
    else send (record no_command { x = s.request.dx; y = s.request.dy }) transaction_out 0
act settle s now =
    if ltb now s.due
    then rest s
    else if not (bit_and s.request.flags 1 == 0)
    then rest (record (set_stage s waiting now) { due = add64 now (s.request.wait_us * 1000) })
    else rest (record (set_stage s (if s.request.button == 0 then delay else press) now) {
      due = add64 now (s.request.return_us * 1000);
    })
act waiting s now =
    let cancel_now = if s.continued then s.cancel_asked else true in
    if not s.continued && ltb now s.due
    then rest s
    else rest
        (record (set_stage s
          (if not cancel_now && not (s.request.button == 0) then press else delay) now) {
            due = now;
            cancel_asked = cancel_now;
          })
act press s now = send no_command transaction_press (2 ^ (s.request.button - 1) % 256)
act hold s now = if ltb now s.due then rest s else rest (set_stage s release now)
act release s now = send no_command transaction_release 0
act delay s now =
    let ended = record s {
      ack = record (s.ack) { status = if s.cancel_asked then cancelled else completed };
    } in
    if ltb now s.due
    then rest s
    else if is_zero s.ack.residual_x && is_zero s.ack.residual_y
    then rest (set_stage ended done now)
    else rest (set_stage s return now)
act return s now =
    send (record no_command { x = neg s.ack.residual_x; y = neg s.ack.residual_y })
      transaction_return 0
act _ s now = rest s

abbrev is_return : Stage → Bool
is_return return = true
is_return _ = false

-- `if (cancelled_ && ack_.stage != Stage::Return) …`
pub redirect : Executor → ℕ → Executor
redirect s now =
    if s.cancel_asked && not (is_return s.ack.stage)
    then (if not (bit_and s.ack.flags 2 == 0) && bit_and s.ack.flags 4 == 0
        then set_stage s release now
        else record (set_stage s delay now) { due = now })
    else s

-- The tests of `tick` that end the transaction, in order: the reason, and that the caller has to
-- reset.
pub guards : Executor → EndpointSnapshot → ℕ → Option Status
guards s e now =
    if not e.ready || not (e.generation == s.request.generation)
    then some endpoint_changed
    else if not (e.activity == s.activity)
    then some interrupted
    else if leb s.deadline now
    then some timeout
    else none

module _ {M : Type 0} (enqueue : ReportRequest → M → EnqueueResult × M) where
  -- The call of `enqueue_report` and what `tick` makes of its result.
  submit : Executor → MouseCommand → ReportKind → ℕ → ℕ → M → Executor × Bool × M
  unfolding stop
  submit s command kind scheduled now m =
      let (result, m') =
        enqueue
          (record {
            command = command;
            persistent = 0;
            scheduled = scheduled;
            kind = kind;
            latest = false;
            session = s.request.session;
            command_id = s.request.command;
            click_index = 0;
            click_button = s.request.button;
            expected_activity = s.activity;
            expected_generation = s.request.generation;
          })
          m in
      elim result [
        | ok ↦ (record s { pending = true }, false, m')
        | queue_full ↦ (s, false, m')
        | _ ↦ (stop s endpoint_changed now, true, m')
      ]

  pub dispatch : Action → Executor → ℕ → M → Executor × Bool × M
  unfolding submit
  dispatch (send command kind scheduled) s now m = submit s command kind scheduled now m
  dispatch (rest t) s now m = (t, false, m)

  -- The flag of the result is the function's: the caller has to release all and reset.
  pub tick : Executor → EndpointSnapshot → ℕ → M → Executor × Bool × M
  tick s e now m =
      let s' = redirect s now in
      if not (is_running s) then (s, false, m) else elim (guards s e now) [
        | some reason ↦ (stop s reason now, true, m)
        | none ↦ if s.pending then (s, false, m) else dispatch (act s'.ack.stage s' now) s' now m
      ]
