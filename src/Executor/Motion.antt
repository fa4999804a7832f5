-- ===== src/Executor/Motion.antt =====
-- move_executor.h: the displacement account of a transaction over the writer events of one report,
-- which the writer may split into any number of parts.
use usb_proxy_udp.Base.{refl, ◌≡◌, Bool, true, false, List, [], ◌∷◌, arith, if◌then◌else◌, ◌∙◌}
use usb_proxy_udp.Base.Int.{ℤ, pos, ◌+ℤ◌, neg, int_laws, parts_of_eq}
use usb_proxy_udp.Mouse.{ReportKind, WriterEvent, transaction_out, transaction_return}
use usb_proxy_udp.Move.{settle, done, completed, cancelled}
use usb_proxy_udp.Executor.{
  Executor, is_running, concerns, event, displaced, accounted, finish, Request,
}

-- The loop of `process_writer_events` over the events of one transaction.
pub run_events : Executor → List WriterEvent → Executor
run_events s [] = s
run_events s (e ∷ es) = run_events (event s e) es

abbrev pub sum_dx : List WriterEvent → ℤ
sum_dx [] = pos 0
sum_dx (e ∷ es) = e.dx +ℤ sum_dx es

abbrev pub sum_dy : List WriterEvent → ℤ
sum_dy [] = pos 0
sum_dy (e ∷ es) = e.dy +ℤ sum_dy es

-- A successful event of this transaction for a report of the given kind, its last one or not.
pub record Part (r : Request) (kind : ReportKind) (last : Bool) (e : WriterEvent) : Type 0 where
  pub concerned : concerns r e ≡ true
  pub written : e.success ≡ true
  pub of_kind : e.kind ≡ kind
  pub is_last : e.finished ≡ last

-- Any number of parts, then the last one.
abbrev pub Parts : Request → ReportKind → List WriterEvent → Type 0
Parts r kind [] = ⊥
Parts r kind (e ∷ []) = Part r kind true e
Parts r kind (e ∷ f ∷ es) = Part r kind false e × Parts r kind (f ∷ es)

-- What a part that is not the last leaves.
partly_out : Executor → WriterEvent → Executor
partly_out s e = record s {
  ack = record (s.ack) {
    out_x = s.ack.out_x +ℤ e.dx;
    out_y = s.ack.out_y +ℤ e.dy;
    residual_x = s.ack.out_x +ℤ e.dx +ℤ s.ack.return_x;
    residual_y = s.ack.out_y +ℤ e.dy +ℤ s.ack.return_y;
    written_ns = e.written_ns;
  };
}

partly_return : Executor → WriterEvent → Executor
partly_return s e = record s {
  ack = record (s.ack) {
    return_x = s.ack.return_x +ℤ e.dx;
    return_y = s.ack.return_y +ℤ e.dy;
    residual_x = s.ack.out_x +ℤ (s.ack.return_x +ℤ e.dx);
    residual_y = s.ack.out_y +ℤ (s.ack.return_y +ℤ e.dy);
    written_ns = e.written_ns;
  };
}

event-partly_return :
    (s : Executor) (e : WriterEvent)
    → is_running s ≡ true
    → Part s.request transaction_return false e
    → event s e ≡ partly_return s e
unfolding event displaced accounted partly_return
event-partly_return s e run part = ground arith

event_last_return :
    (s : Executor) (e : WriterEvent)
    → is_running s ≡ true
    → Part s.request transaction_return true e
    → let t = event s e in
      (t.ack.residual_x ≡ s.ack.out_x +ℤ (s.ack.return_x +ℤ e.dx))
      × (t.ack.residual_y ≡ s.ack.out_y +ℤ (s.ack.return_y +ℤ e.dy))
      × (t.ack.stage ≡ done)
      × (t.ack.flags ≡ s.ack.flags)
      × (t.ack.status ≡ (if s.cancel_asked then cancelled else completed))
unfolding event displaced accounted finish
event_last_return s e run part = ground arith

-- Where the residual is the sum of the two displacements, a total that cancels it leaves none.
cancels : (o r d t res : ℤ) → res ≡ o +ℤ r → d +ℤ t ≡ neg res → t ≡ neg (o +ℤ (r +ℤ d))
cancels o r d t res e f =
    omega (int_laws, parts_of_eq res (o +ℤ r) e, parts_of_eq (d +ℤ t) (neg res) f)

cancels_last : (o r d res : ℤ) → res ≡ o +ℤ r → d +ℤ pos 0 ≡ neg res → o +ℤ (r +ℤ d) ≡ pos 0
cancels_last o r d res e f =
    omega (int_laws, parts_of_eq res (o +ℤ r) e, parts_of_eq (d +ℤ pos 0) (neg res) f)

-- In a running transaction whose residual is the sum of the two displacements, when the successful
-- parts of the return report add up to the opposite of the residual, the transaction ends with no
-- displacement left and its flags as they were: cancelled if that was asked, else completed.
pub return_restores :
    (s : Executor) (es : List WriterEvent)
    → is_running s ≡ true
    → s.ack.residual_x ≡ s.ack.out_x +ℤ s.ack.return_x
    → s.ack.residual_y ≡ s.ack.out_y +ℤ s.ack.return_y
    → Parts s.request transaction_return es
    → sum_dx es ≡ neg s.ack.residual_x
    → sum_dy es ≡ neg s.ack.residual_y
    → let t = run_events s es in
      (t.ack.residual_x ≡ pos 0)
      × (t.ack.residual_y ≡ pos 0)
      × (t.ack.stage ≡ done)
      × (t.ack.flags ≡ s.ack.flags)
      × (t.ack.status ≡ (if s.cancel_asked then cancelled else completed))
unfolding run_events partly_return
return_restores s [] run rx ry parts sx sy = absurd parts
return_restores s (e ∷ []) run rx ry parts sx sy =
    let last = event_last_return s e run parts in
    (
      last.0 ∙ cancels_last _ _ _ _ rx sx,
      last.1 ∙ cancels_last _ _ _ _ ry sy,
      last.2,
      last.3,
      last.4,
    )
return_restores s (e ∷ f ∷ es) run rx ry parts sx sy =
    rw (event-partly_return s e run parts.0, run_events)
      (return_restores (partly_return s e) (f ∷ es) run refl refl parts.1 (cancels _ _ _ _ _ rx sx)
        (cancels _ _ _ _ _ ry sy))

event-partly_out :
    (s : Executor) (e : WriterEvent)
    → is_running s ≡ true
    → Part s.request transaction_out false e
    → event s e ≡ partly_out s e
unfolding event displaced accounted partly_out
event-partly_out s e run part = ground arith

event_last_out :
    (s : Executor) (e : WriterEvent)
    → is_running s ≡ true
    → Part s.request transaction_out true e
    → let t = event s e in
      (t.ack.out_x ≡ s.ack.out_x +ℤ e.dx)
      × (t.ack.out_y ≡ s.ack.out_y +ℤ e.dy)
      × (t.ack.residual_x ≡ s.ack.out_x +ℤ e.dx +ℤ s.ack.return_x)
      × (t.ack.residual_y ≡ s.ack.out_y +ℤ e.dy +ℤ s.ack.return_y)
      × (t.ack.stage ≡ settle)
      × (is_running t ≡ true)
      × (t.pending ≡ false)
unfolding event displaced accounted finish
event_last_out s e run part = ground arith

adds_last : (o d x : ℤ) → o +ℤ (d +ℤ pos 0) ≡ x → o +ℤ d ≡ x
adds_last o d x e = omega (int_laws, parts_of_eq (o +ℤ (d +ℤ pos 0)) x e)

adds : (o d t x : ℤ) → o +ℤ (d +ℤ t) ≡ x → o +ℤ d +ℤ t ≡ x
adds o d t x e = omega (int_laws, parts_of_eq (o +ℤ (d +ℤ t)) x e)

-- In a running transaction that has taken nothing back, when the successful parts of the outward
-- report add up to what is missing of the requested displacement, the transaction settles exactly
-- there, with that as its residual and no report pending.
pub out_reaches :
    (s : Executor) (es : List WriterEvent)
    → is_running s ≡ true
    → s.ack.return_x ≡ pos 0
    → s.ack.return_y ≡ pos 0
    → Parts s.request transaction_out es
    → s.ack.out_x +ℤ sum_dx es ≡ s.request.dx
    → s.ack.out_y +ℤ sum_dy es ≡ s.request.dy
    → let t = run_events s es in
      (t.ack.out_x ≡ s.request.dx)
      × (t.ack.out_y ≡ s.request.dy)
      × (t.ack.residual_x ≡ s.request.dx)
      × (t.ack.residual_y ≡ s.request.dy)
      × (t.ack.stage ≡ settle)
      × (is_running t ≡ true)
      × (t.pending ≡ false)
unfolding run_events partly_out
out_reaches s [] run rx ry parts sx sy = absurd parts
out_reaches s (e ∷ []) run rx ry parts sx sy =
    let last = event_last_out s e run parts in
    let x = adds_last _ _ _ sx in
    let y = adds_last _ _ _ sy in
    (
      last.0 ∙ x,
      last.1 ∙ y,
      last.2 ∙ with_zero _ _ _ x rx,
      last.3 ∙ with_zero _ _ _ y ry,
      last.4,
      last.5,
      last.6,
    )
  where
    with_zero : (a r x : ℤ) → a ≡ x → r ≡ pos 0 → a +ℤ r ≡ x
    with_zero a r x p q = omega (int_laws, parts_of_eq a x p, parts_of_eq r (pos 0) q)
out_reaches s (e ∷ f ∷ es) run rx ry parts sx sy =
    rw (event-partly_out s e run parts.0, run_events)
      (out_reaches (partly_out s e) (f ∷ es) run rx ry parts.1 (adds _ _ _ _ sx) (adds _ _ _ _ sy))
