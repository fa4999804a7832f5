-- ===== src/Server/Release/Rounds.antt =====
-- udp_server.cpp: a release that is owed stays owed over every round in which the writer does not report it.
use usb_proxy_udp.Telemetry.{alive, same_state, sub64}
use usb_proxy_udp.Replay.{Peer}
use usb_proxy_udp.Server.Scheduler.{scheduler_tick, owe_release}
use usb_proxy_udp.Server.Loop.{
  check_overflow, housekeeping, mover_tick, round, send_telemetry, track_layout, check_lease,
  telemetry_of, is_owned, is_allowed, receive,
}
use usb_proxy_udp.Server.Reset.{abandon, sync_move, begin_reset}
use usb_proxy_udp.Base.{
  ℕ, ◌≡◌, List, true, false, none, some, Option, ◌&&◌, ◌||◌, not, if_cases, if◌then◌else◌, length,
  ◌==◌, ltb, leb, ◌+◌,
}
use usb_proxy_udp.Executor.{tick}
use usb_proxy_udp.Server.State.{no_key, Mixer, Server, lease_ns}
use usb_proxy_udp.Server.Release.Kept.{Owes, still, begin_reset-Owes, process_keeps, has_release}
use usb_proxy_udp.Server.Release.Requests.{receive-Owes}

module _ {M : Type 0} (mixer : Mixer M) where
  abandon-Owes : (s : Server M) (now : ℕ) → Owes (abandon mixer s now)
  abandon-Owes s now = still (begin_reset-Owes mixer s false no_key now).pending

  track_layout-Owes : (s : Server M) (now : ℕ) → Owes s → Owes (track_layout mixer s now)
  unfolding track_layout
  track_layout-Owes s now o =
      let e = mixer.endpoint_snapshot now s.mixer in
      let tracked =
        if s.tracked_generation == 0 && e.ready then e.generation else s.tracked_generation in
      if_cases Owes (not (tracked == 0) && not (e.generation == tracked)) _ _
        (λ _. still (abandon-Owes (record s { tracked_generation = tracked }) now).pending)
        (λ _. still o.pending)

  checks-Owes :
      (s : Server M) (now : ℕ) → Owes s → Owes (check_lease mixer (check_overflow mixer s now) now)
  unfolding check_overflow check_lease
  checks-Owes s now o =
      let taken = check_overflow mixer s now in
      let first : Owes taken =
        if_cases Owes (mixer.take_writer_overflow s.mixer).0 _ _ (λ _. abandon-Owes _ now)
          (λ _. still o.pending) in
      if_cases Owes (is_owned taken.owner && ltb (taken.last + lease_ns) now) _ _
        (λ _. abandon-Owes taken now) (λ _. first)

  mover_tick-Owes : (s : Server M) (now : ℕ) → Owes s → Owes (mover_tick mixer s now)
  unfolding mover_tick sync_move
  mover_tick-Owes s now o =
      let ticked =
        tick (λ r. mixer.enqueue_report r now) s.mover (mixer.endpoint_snapshot now s.mixer) now
          s.mixer in
      let t = record s { mover = ticked.0; mixer = ticked.2 } in
      let u = if ticked.1 then begin_reset mixer (sync_move t) false no_key now else t in
      let p : Owes u =
        if_cases Owes ticked.1 (begin_reset mixer (sync_move t) false no_key now) t
          (λ _. begin_reset-Owes mixer (sync_move t) false no_key now) (λ _. still o.pending) in
      still p.pending

  scheduler_tick-Owes : (s : Server M) (now : ℕ) → Owes s → Owes (scheduler_tick mixer s now)
  unfolding scheduler_tick owe_release
  scheduler_tick-Owes s now o =
      if_cases Owes s.release_pending _ _ (λ _. still o.pending)
        (λ settled. absurd (cc (settled, o.pending)))

  send_telemetry-Owes : (s : Server M) (now : ℕ) → Owes s → Owes (send_telemetry mixer s now)
  unfolding send_telemetry
  send_telemetry-Owes s now o =
      let t = telemetry_of s (mixer.endpoint_snapshot now s.mixer) in
      if_cases Owes
        (alive s.subscription now
          && (not (same_state t s.previous_telemetry)
              || leb 10_000_000 (sub64 now s.last_telemetry)))
        _ _ (λ _. still o.pending) (λ _. o)

  housekeeping-Owes :
      (s : Server M) (now : ℕ)
      → has_release (mixer.take_writer_events (track_layout mixer s now).mixer).0 ≡ false
      → Owes s
      → Owes (housekeeping mixer s now)
  unfolding housekeeping
  housekeeping-Owes s now none_yet o =
      let events =
        process_keeps mixer (track_layout mixer s now) now none_yet (track_layout-Owes s now o) in
      send_telemetry-Owes _ now
        (scheduler_tick-Owes _ now (mover_tick-Owes _ now (checks-Owes _ now events)))

  -- A release that is owed before a round is owed after it, whatever is received and whatever the mixer
  -- answers, unless one of the events that the round takes from the writer is the success of a release.
  pub round_keeps_release :
      (filter : Option ℕ) (s : Server M) (arrived : Option (Peer × List ℕ)) (now : ℕ)
      → s.release_pending ≡ true
      → has_release (mixer.take_writer_events (track_layout mixer s now).mixer).0 ≡ false
      → (round mixer filter s arrived now).release_pending ≡ true
  unfolding round
  round_keeps_release filter s none now pending none_yet =
      (housekeeping-Owes s now none_yet (still pending)).pending
  round_keeps_release filter s (some (from, p)) now pending none_yet =
      let o = housekeeping-Owes s now none_yet (still pending) in
      (if_cases Owes (length p == 0 || ltb 1024 (length p) || not (is_allowed filter from))
        (housekeeping mixer s now) (receive mixer (housekeeping mixer s now) from p now) (λ _. o)
        (λ _. receive-Owes mixer (housekeeping mixer s now) from p now o)).pending
