-- ===== src/Server/Desk/Reset.antt =====
-- udp_server.cpp with mouse_mixer.cpp: a reset, and the tick after it, leave the release as the only thing
-- that the mixer has to send.
use usb_proxy_udp.Base.{
  ℕ, ◌≡◌, refl, List, [], ◌∷◌, Bool, true, false, none, some, arith, Option, sym, subst, ◌∙◌,
  option_cases,
}
use usb_proxy_udp.Mouse.{
  release_all_kind, ok, no_command, ReportRequest, EnqueueResult, EndpointSnapshot,
}
use usb_proxy_udp.Hid.{split_mouse_command}
use usb_proxy_udp.Mixer.State.{Endpoint}
use usb_proxy_udp.Mixer.Enqueue.{
  enqueue, clear_synthetic, is_empty, new_item, supersede, is_outdated,
}
use usb_proxy_udp.Mixer.Registry.{Registered, find}
use usb_proxy_udp.Server.State.{Key, Server}
use usb_proxy_udp.Server.Reset.{sync_move, displace_release, begin_reset, cancel_work}
use usb_proxy_udp.Server.Scheduler.{edge, scheduler_tick}
use usb_proxy_udp.Server.Release.Served.{tick_sends}
use usb_proxy_udp.Server.Desk.{
  Desk, selected, put, put_selected, enqueue_report, clear_synthetic_state, mixer,
}

find-put :
    (address : ℕ) (e f : Endpoint) (rs : List Registered)
    → find address rs ≡ some e
    → find address (put address f rs) ≡ some f
unfolding find put
find-put address e f [] h = absurd (ground (arith, h))
find-put address e f (r ∷ rs) h = ground (arith, h, find-put address e f rs)

-- The desk with an endpoint selected, or none.
abbrev select : Desk → Option ℕ → Desk
select d choice = record d { registry = record (d.registry) { selected = choice } }

put_choice :
    (choice : Option ℕ) (d : Desk) (e f : Endpoint)
    → selected (select d choice).registry ≡ some e
    → selected (put_selected (select d choice) f).registry ≡ some f
unfolding selected put_selected
put_choice none d e f h = absurd (ground (arith, h))
put_choice (some address) d e f h = find-put address e f d.registry.endpoints h

selected-put_selected :
    (d : Desk) (e f : Endpoint)
    → selected d.registry ≡ some e
    → selected (put_selected d f).registry ≡ some f
selected-put_selected d = put_choice d.registry.selected d

-- The request that `scheduler_tick` makes for a release.
abbrev pub release_request : Key → ReportRequest
release_request key = edge 0 0 release_all_kind key 0 0

-- An endpoint with nothing queued takes the release.
enqueue_release :
    (e : Endpoint) (key : Key) (now : ℕ)
    → is_empty e.latest ≡ false
    → is_empty (split_mouse_command e.profile no_command) ≡ false
    → let (result, f) = enqueue (release_request key) now (clear_synthetic e) in
      (result ≡ ok)
      × (f.synthetic ≡ new_item (clear_synthetic e) (release_request key) now ∷ [])
      × (f.inflight ≡ false)
      × (f.persistent_buttons ≡ e.persistent_buttons)
      × (f.scheduled_buttons ≡ e.scheduled_buttons)
unfolding enqueue supersede is_outdated clear_synthetic
enqueue_release e key now ready fits = ground (arith, ready, fits)

-- What the selected endpoint is after an enqueue, and the answer.
enqueue_selected :
    (r : ReportRequest) (now : ℕ) (d : Desk) (e : Endpoint)
    → selected d.registry ≡ some e
    → ((enqueue_report r now d).0 ≡ (enqueue r now e).0)
      × (selected (enqueue_report r now d).1.registry ≡ some (enqueue r now e).1)
unfolding enqueue_report
enqueue_selected r now d e h =
    option_cases
      (λ (x : EnqueueResult × Desk).
        (x.0 ≡ (enqueue r now e).0) × (selected x.1.registry ≡ some (enqueue r now e).1))
      (selected d.registry) _ _ (λ absent. absurd (cc (absent, h)))
      λ found given.
        let same : found ≡ e = cc (given, h) in
        subst
          (λ (x : Endpoint).
            ((enqueue r now x).0 ≡ (enqueue r now e).0)
            × (selected (put_selected d (enqueue r now x).1).registry ≡ some (enqueue r now e).1))
          (sym same) (refl, selected-put_selected d e (enqueue r now e).1 h)

clear_selected :
    (poll_us : ℕ → ℕ) (now : ℕ) (d : Desk) (e : Endpoint)
    → selected d.registry ≡ some e
    → selected (clear_synthetic_state poll_us now d).1.registry ≡ some (clear_synthetic e)
unfolding clear_synthetic_state
clear_selected poll_us now d e h =
    option_cases (λ (x : EndpointSnapshot × Desk). selected x.1.registry ≡ some (clear_synthetic e))
      (selected d.registry) _ _ (λ absent. absurd (cc (absent, h)))
      λ found given.
        let same : found ≡ e = cc (given, h) in
        subst
          (λ (x : Endpoint).
            selected (put_selected d (clear_synthetic x)).registry ≡ some (clear_synthetic e))
          (sym same) (selected-put_selected d e (clear_synthetic e) h)

-- A release is on its way, and is all that the endpoint, which was `e`, has to send.
abbrev pub IsReleasing : Endpoint → ℕ → Server Desk → Type 0
IsReleasing e now t =
    (t.release_inflight ≡ true)
    × ((f : Endpoint) × (selected t.mixer.registry ≡ some f)
        × (f.synthetic ≡ new_item (clear_synthetic e) (release_request t.release_key) now ∷ [])
        × (f.inflight ≡ false)
        × (f.persistent_buttons ≡ e.persistent_buttons)
        × (f.scheduled_buttons ≡ e.scheduled_buttons))

-- A reset, and the tick after it, on the server over the mixer: the release is on its way, and the selected
-- endpoint, if it has had a report and its layout can carry a report without motion, has the release as
-- the only item of its queue, nothing in flight, and the masks that the host has last seen.
pub reset_then_release :
    (poll_us : ℕ → ℕ) (s : Server Desk) (attach : Bool) (key : Key) (now later : ℕ) (e : Endpoint)
    → selected s.mixer.registry ≡ some e
    → is_empty e.latest ≡ false
    → is_empty (split_mouse_command e.profile no_command) ≡ false
    → IsReleasing e later
        (scheduler_tick (mixer poll_us) (begin_reset (mixer poll_us) s attach key now) later)
unfolding begin_reset cancel_work mixer sync_move displace_release
reset_then_release poll_us s attach key now later e here ready fits =
    let u = begin_reset (mixer poll_us) s attach key now in
    let cleared = clear_selected poll_us now s.mixer e here in
    let sent =
      enqueue_selected (release_request u.release_key) later u.mixer (clear_synthetic e) cleared in
    let queued = enqueue_release e u.release_key later ready fits in
    subst (λ (t : Server Desk). IsReleasing e later t)
      (sym (tick_sends (mixer poll_us) u later refl refl (sent.0 ∙ queued.0)))
      (
        refl,
        (
          (enqueue (release_request u.release_key) later (clear_synthetic e)).1,
          sent.1,
          queued.1,
          queued.2,
          queued.3,
          queued.4,
        ),
      )
