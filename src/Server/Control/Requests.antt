-- ===== src/Server/Control/Requests.antt =====
-- udp_server.cpp: transaction and click requests keep the rules of the output.
use usb_proxy_udp.Sessions.{admit}
use usb_proxy_udp.Server.Book.{remove_old_cache, session_protected, is_full, find_cache}
use usb_proxy_udp.Base.{
  ℕ, ◌≡◌, ◌<◌, refl, List, [], ◌∷◌, ◌++◌, true, false, arith, none, length, length-append, ◌∙◌, not,
  ◌||◌, ◌==◌,
}
use usb_proxy_udp.Move
use usb_proxy_udp.Mouse.{EndpointSnapshot}
use usb_proxy_udp.Replay.{Peer}
use usb_proxy_udp.Sessions
use usb_proxy_udp.Executor.{is_running}
use usb_proxy_udp.Executor.Running.{proceed_running, cancel_running}
use usb_proxy_udp.Server.State.{Mixer, Server, ClickWork, await_press, CachedCommand}
use usb_proxy_udp.Server.Control.{
  Inv, Control, IsClick, AreClicks, AllWait, front_mask, hold, quieter, Inv_if, Inv_option,
}
use usb_proxy_udp.Server.Moves.{
  refusal, is_busy, is_pressed, reject, repeat_move, begin_move, admit_move, new_move, move_request,
  on_move, on_query, is_execute, is_owned_by_other, move_key,
}

append_wait :
    (work : List ClickWork) (click : ClickWork)
    → AllWait work
    → IsClick click
    → click.phase ≡ await_press
    → AllWait (work ++ click ∷ [])
append_wait [] click w is p = (is, p, tt)
append_wait (c ∷ cs) click w is p = (w.0, w.1, append_wait cs click w.2 is p)

pub append_clicks :
    (work : List ClickWork) (click : ClickWork)
    → AreClicks work
    → IsClick click
    → click.phase ≡ await_press
    → AreClicks (work ++ click ∷ [])
append_clicks [] click w is p = (is, tt)
append_clicks (c ∷ cs) click w is p = (w.0, append_wait cs click w.1 is p)

pub append_mask :
    (work : List ClickWork) (click : ClickWork)
    → click.phase ≡ await_press
    → front_mask work ≡ front_mask (work ++ click ∷ [])
append_mask [] click p = ground (arith, p)
append_mask (c ∷ cs) click p = refl

length_zero : (work : List ClickWork) → (length work == 0) ≡ true → work ≡ []
length_zero [] e = refl
length_zero (c ∷ cs) e = absurd (ground (arith, e))

module _ {M : Type 0} where
  -- A click is queued behind the others, while no transaction runs.
  pub append-Control :
      (s : Server M) (click : ClickWork)
      → Inv s
      → is_running s.mover ≡ false
      → length s.work < 64
      → IsClick click
      → click.phase ≡ await_press
      → Control s.mover
          (s.work ++ click ∷ [])
          s.release_pending
          s.release_inflight
          s.persistent_buttons
          s.scheduled_buttons
  append-Control s click v off room is p =
      let c = v.control in
      record {
        exclusive = λ run. absurd (cc (run, off));
        owed = c.owed;
        bounded = omega (arith, room, length-append s.work (click ∷ []));
        clicks = append_clicks s.work click c.clicks is p;
        mask = c.mask ∙ append_mask s.work click p;
      }

  -- Nothing but a transaction may use the output.
  abbrev IsIdle : Server M → Type 0
  IsIdle s = (s.work ≡ []) × (s.release_pending ≡ false) × (s.persistent_buttons ≡ 0)

  refusal-IsIdle :
      (s : Server M) (r : Move.Request) (e : EndpointSnapshot) → refusal s r e ≡ none → IsIdle s
  unfolding refusal is_busy is_pressed
  refusal-IsIdle s r e fine = ground (arith, fine, length_zero s.work)

  module _ (mixer : Mixer M) where
    repeat_move-Inv :
        (s : Server M) (from : Peer) (r : Move.Request) (prior : CachedCommand) (now : ℕ)
        → Inv s
        → Inv (repeat_move mixer s from r prior now)
    unfolding repeat_move reject
    repeat_move-Inv s from r prior now v =
        Inv_if (not prior.movement || not (Move.same prior.move_request r)) _ _
          (λ _. hold v.control)
          λ _. hold (
            quieter (λ run. ground (arith, proceed_running s.mover, cancel_running s.mover, run))
              v.control)

    begin_move-Inv :
        (s : Server M) (from : Peer) (r : Move.Request) (e : EndpointSnapshot)
        (sessions : Sessions.Tracker) (now : ℕ)
        → IsIdle s
        → Inv s
        → Inv (begin_move mixer s from r e sessions now)
    unfolding begin_move
    begin_move-Inv s from r e sessions now idle v =
        let c = v.control in
        hold (record {
          exclusive = λ _. idle;
          owed = c.owed;
          bounded = c.bounded;
          clicks = c.clicks;
          mask = c.mask;
        })

    admit_move-Inv :
        (s : Server M) (from : Peer) (r : Move.Request) (e : EndpointSnapshot) (now : ℕ)
        → IsIdle s
        → Inv s
        → Inv (admit_move mixer s from r e now)
    unfolding admit_move reject
    admit_move-Inv s from r e now idle v =
        let trimmed = record s {
          book = record (s.book) { cache = remove_old_cache s.book.cache };
        } in
        let asked = admit s.sessions r.session now false (session_protected trimmed.book.cache) in
        Inv_if (is_full trimmed.book.cache) _ _ (λ _. hold v.control)
          λ _.
            Inv_if (not asked.1) _ _ (λ _. hold v.control)
              λ _. begin_move-Inv trimmed from r e asked.0 now idle (hold v.control)

    new_move-Inv :
        (s : Server M) (from : Peer) (r : Move.Request) (now : ℕ)
        → Inv s
        → Inv (new_move mixer s from r now)
    unfolding new_move reject
    new_move-Inv s from r now v =
        let asked = Sessions.stale s.sessions r.session r.command now in
        let looked = record s { sessions = asked.0 } in
        let e = mixer.endpoint_snapshot now s.mixer in
        Inv_if (not (is_execute r.operation)) _ _ (λ _. hold v.control)
          λ _.
            Inv_if asked.1 _ _ (λ _. hold v.control)
              λ _.
                Inv_option (refusal looked r e) _ _
                  (λ fine.
                    admit_move-Inv looked from r e now (refusal-IsIdle looked r e fine)
                      (hold v.control))
                  (λ _ _. hold v.control)

    move_request-Inv :
        (s : Server M) (from : Peer) (r : Move.Request) (now : ℕ)
        → Inv s
        → Inv (move_request mixer s from r now)
    unfolding move_request reject
    move_request-Inv s from r now v =
        Inv_if (is_owned_by_other s.owner from) _ _ (λ _. hold v.control)
          λ _.
            Inv_if (not (r.epoch == s.server_epoch)) _ _ (λ _. hold v.control)
              λ _.
                Inv_option (find_cache s.book.cache (move_key r)) _ _
                  (λ _. new_move-Inv s from r now v) λ prior _. repeat_move-Inv s from r prior now v

    pub on_move-Inv :
        (s : Server M) (from : Peer) (bytes : List ℕ) (now : ℕ)
        → Inv s
        → Inv (on_move mixer s from bytes now)
    unfolding on_move
    on_move-Inv s from bytes now v =
        Inv_option (Move.parse bytes) _ _ (λ _. v) λ r _. move_request-Inv s from r now v

    pub on_query-Inv :
        (s : Server M) (from : Peer) (bytes : List ℕ) (now : ℕ)
        → Inv s
        → Inv (on_query mixer s from bytes now)
    unfolding on_query
    on_query-Inv s from bytes now v =
        Inv_option (Move.parse_query bytes) _ _ (λ _. v) λ asked _. hold v.control
