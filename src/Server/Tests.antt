-- ===== src/Server/Tests.antt =====
-- udp_server.cpp: a server over a mixer that takes every report, two clients, and a request to click.
use usb_proxy_udp.Server.Scheduler.{scheduler_tick}
use usb_proxy_udp.Server.Events.{writer_event}
use usb_proxy_udp.Server.Release.Rounds.{round_keeps_release}
use usb_proxy_udp.Server.Release.Served.{IsServed, release-IsServed}
use usb_proxy_udp.Server.Release.{begin_reset_cancels, is_queued}
use usb_proxy_udp.Executor.{stop}
use usb_proxy_udp.Server.Cached.{find-remove_old_cache, length-remove_old_cache}
use usb_proxy_udp.Server.Reset.{begin_reset, cancel_work, sync_move, displace_release}
use usb_proxy_udp.Server.Cached.Once.{Answered, scheduled_once}
use usb_proxy_udp.Server.Clicks.{
  click_request, new_click, fresh_click, schedule_click, click_refusal, is_invalid, admit_click,
  accept_record, queue_click, send_accepted,
}
use usb_proxy_udp.Base.{refl, List, [], ◌∷◌, true, false, none, some, length, ◌≡◌, ◌≢◌, arith, ap}
use usb_proxy_udp.Base.Int.{pos, negsuc}
use usb_proxy_udp.Click
use usb_proxy_udp.Sessions
use usb_proxy_udp.Mouse.{
  EndpointSnapshot, WriterEvent, ReportRequest, ok, click_press, release_all_kind,
}
use usb_proxy_udp.Replay.{Peer}
use usb_proxy_udp.Server.State.{CachedCommand, Mixer, Server}
use usb_proxy_udp.Server.Book.{
  new_record, find_cache, remove_old_cache, erase_terminal, session_protected, sync_ack, cancel_all,
  terminal, send_cached, send_ack, send_packet, put_cache,
}
use usb_proxy_udp.Server.Start.{initial}
use usb_proxy_udp.Server.Loop.{round, receive}
use usb_proxy_udp.Server.Line.{codes}
use usb_proxy_udp.Server.Owner.{Untouched, receive-Untouched}
use usb_proxy_udp.Server.Control.Reached.{started, went, IsOrderly, Reached-IsOrderly}

abbrev here : Peer
here = record { address = 1; port = 100 }

abbrev there : Peer
there = record { address = 2; port = 100 }

abbrev endpoint : EndpointSnapshot
endpoint = record {
  ready = true;
  physical = 0;
  persistent = 0;
  scheduled = 0;
  supported = 1;
  xmin = negsuc 126;
  xmax = pos 127;
  ymin = negsuc 126;
  ymax = pos 127;
  physical_dx = pos 0;
  physical_dy = pos 0;
  poll_us = 1000;
  physical_age_us = 0;
  physical_received = 0;
  physical_submitted = 0;
  superseded = 0;
  writer_failures = 0;
  output_queue = 0;
  synthetic_pending = 0;
  generation = 2;
  snapshot_ns = 0;
  last_motion_ns = 0;
  p99_residence_ns = 0;
  activity = 4;
  layout = 1;
  cumulative_x = pos 0;
  cumulative_y = pos 0;
}

-- The success of a click's press.
abbrev press_event : WriterEvent
press_event = record {
  session = 7;
  command = 30;
  generation = 2;
  written_ns = 500;
  index = 0;
  kind = click_press;
  button = 1;
  blocked = false;
  final_buttons = 1;
  success = true;
  dx = pos 0;
  dy = pos 0;
  finished = true;
}

-- A mixer that keeps what it was given, and whose writer has always just pressed.
abbrev taker : Mixer (List ReportRequest)
taker = record {
  enqueue_report = λ r now given. (ok, r ∷ given);
  endpoint_snapshot = λ now given. endpoint;
  clear_synthetic_state = λ now given. (endpoint, []);
  take_writer_events = λ given. (press_event ∷ [], given);
  take_writer_overflow = λ given. (false, given);
}

abbrev quiet : Server (List ReportRequest)
quiet = initial 5 [] 0

abbrev two_clicks : Click.Request
two_clicks = record {
  operation = Click.schedule;
  button = 1;
  session = 7;
  command = 30;
  count = 2;
  press_us = 20_000;
  interval_us = 70_000;
  version = 2;
}

abbrev owned : Server (List ReportRequest)
owned = record quiet { owner = some here; persistent_buttons = 1 }

receive-Untouched_example : Untouched owned (receive taker owned there (codes "+release") 10)
receive-Untouched_example = receive-Untouched owned taker there (codes "+release") 10 refl

Reached-IsOrderly_example : IsOrderly (round taker none quiet (some (here, codes "+click 1")) 10)
Reached-IsOrderly_example =
    Reached-IsOrderly taker none 5 [] 0 (round taker none quiet (some (here, codes "+click 1")) 10)
      (went (some (here, codes "+click 1")) 10 started)

-- The record of the two clicks.
abbrev known_click : CachedCommand
known_click = new_record two_clicks here 2

length-remove_old_cache_example : length (remove_old_cache (known_click ∷ [])) ≡ 1
length-remove_old_cache_example = length-remove_old_cache (known_click ∷ [])

find-remove_old_cache_example :
    find_cache (remove_old_cache (known_click ∷ [])) (record { session = 7; command = 30 })
    ≡ some known_click
unfolding new_record find_cache
find-remove_old_cache_example =
    find-remove_old_cache (known_click ∷ []) (record { session = 7; command = 30 }) known_click refl
      refl

abbrev asked_once : Server (List ReportRequest)
asked_once = click_request taker quiet here two_clicks 10

asked_once_queues : asked_once.work ≢ []
unfolding click_request fresh_click schedule_click click_refusal is_invalid admit_click
    accept_record queue_click send_accepted remove_old_cache erase_terminal session_protected
    find_cache Sessions.stale Sessions.admit Sessions.find Sessions.prune Sessions.make_room
    Sessions.admit_new
asked_once_queues e = ground (arith, ap length e)

scheduled_once_example :
    Answered here two_clicks asked_once (click_request taker asked_once here two_clicks 20)
scheduled_once_example = scheduled_once here two_clicks taker quiet 10 20 refl asked_once_queues

-- A click and a button that is held.
abbrev busy : Server (List ReportRequest)
busy = record quiet {
  work = new_click two_clicks 10 ∷ [];
  persistent_buttons = 2;
  book = record { cache = known_click ∷ []; sent = [] };
}

abbrev cancelled_click : CachedCommand
cancelled_click = record known_click { status = Click.cancelled; terminal = true }

busy_queued : is_queued busy.work (record { session = 7; command = 30 }) ≡ true
unfolding new_click
busy_queued = refl

busy_cancelled :
    find_cache
      (begin_reset taker busy false (record { session = 0; command = 0 }) 30).book.cache
      (record { session = 7; command = 30 })
    ≡ some cancelled_click
unfolding begin_reset cancel_work sync_move displace_release sync_ack cancel_all terminal
    send_cached send_ack send_packet find_cache put_cache new_record new_click stop
busy_cancelled = refl

begin_reset_cancels_example :
    (cancelled_click.terminal ≡ true) × (cancelled_click.status ≡ Click.cancelled)
begin_reset_cancels_example =
    begin_reset_cancels taker busy false (record { session = 0; command = 0 }) 30
      (record { session = 7; command = 30 }) cancelled_click busy_queued busy_cancelled

-- The first click asks for a release, which is owed.
abbrev owing : Server (List ReportRequest)
owing = record quiet {
  release_pending = true;
  release_key = record { session = 7; command = 30 };
  book = record { cache = known_click ∷ []; sent = [] };
}

abbrev release_event : WriterEvent
release_event = record press_event { kind = release_all_kind; button = 0; final_buttons = 0 }

owing_found : find_cache owing.book.cache owing.release_key ≡ some known_click
unfolding find_cache new_record
owing_found = refl

release-IsServed_example :
    IsServed owing (writer_event taker (scheduler_tick taker owing 40) release_event 50)
release-IsServed_example =
    release-IsServed taker owing 40 50 release_event known_click refl refl refl
      (λ e. ground (arith, e)) owing_found (refl, refl, refl, refl)

round_keeps_release_example : (round taker none owing none 40).release_pending ≡ true
round_keeps_release_example = round_keeps_release taker none owing none 40 refl refl
