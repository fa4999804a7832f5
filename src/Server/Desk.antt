-- ===== src/Server/Desk.antt =====
-- mouse_mixer.cpp as the server calls it: the operations of the mixer on its registry and its writer's
-- events, which fill the interface that the server is modelled over. `poll_us` gives the polling interval
-- of the endpoint at an address.
pub mod Reset
mod Tests
use usb_proxy_udp.Base.{ℕ, List, [], ◌∷◌, Bool, not, Option, none, some, ◌==◌, if◌then◌else◌, max}
use usb_proxy_udp.Mouse.{ReportRequest, EnqueueResult, not_ready, EndpointSnapshot}
use usb_proxy_udp.Mixer.State.{Endpoint}
use usb_proxy_udp.Mixer.Enqueue.{enqueue, clear_synthetic, is_empty}
use usb_proxy_udp.Mixer.Written.{EventQueue, take_events, take_overflow}
use usb_proxy_udp.Mixer.Registry.{Registered, Registry, find}
use usb_proxy_udp.Mixer.Snapshot.{no_endpoint, endpoint_snapshot}
use usb_proxy_udp.Server.State.{Mixer}

pub record Desk : Type 0 where
  pub registry : Registry
  pub events : EventQueue

-- endpoints.find(selected)
unfoldable pub selected : Registry → Option Endpoint
selected g = elim g.selected [ none ↦ none | some address ↦ find address g.endpoints ]

-- A write through the iterator.
unfoldable pub put : ℕ → Endpoint → List Registered → List Registered
put address e [] = []
put address e (r ∷ rs) =
    if r.address == address then record r { endpoint = e } ∷ rs else r ∷ put address e rs

unfoldable pub put_selected : Desk → Endpoint → Desk
put_selected d e = elim d.registry.selected [
  | none ↦ d
  | some address ↦ record d {
    registry = record (d.registry) { endpoints = put address e d.registry.endpoints };
  }
]

unfoldable pub enqueue_report : ReportRequest → ℕ → Desk → EnqueueResult × Desk
enqueue_report r now d = elim (selected d.registry) [
  | none ↦ (not_ready, d)
  | some e ↦ let (result, e') = enqueue r now e in (result, put_selected d e')
]

abbrev poll_of : (ℕ → ℕ) → Registry → ℕ
poll_of poll_us g = elim g.selected [ none ↦ 0 | some address ↦ poll_us address ]

unfoldable pub clear_synthetic_state : (ℕ → ℕ) → ℕ → Desk → EndpointSnapshot × Desk
clear_synthetic_state poll_us now d = elim (selected d.registry) [
  | none ↦ (no_endpoint d.registry.next_generation now, d)
  | some e ↦ (
    record (no_endpoint e.generation now) {
      ready = not (is_empty e.latest);
      physical = e.physical_buttons;
      poll_us = max 1 (poll_of poll_us d.registry);
    },
    put_selected d (clear_synthetic e),
  )
]

unfoldable pub mixer : (ℕ → ℕ) → Mixer Desk
mixer poll_us = record {
  enqueue_report = enqueue_report;
  endpoint_snapshot = λ now d.
      endpoint_snapshot (selected d.registry) d.registry.next_generation
        (poll_of poll_us d.registry) now;
  clear_synthetic_state = clear_synthetic_state poll_us;
  take_writer_events = λ d. let (es, q) = take_events d.events in (es, record d { events = q });
  take_writer_overflow =
      λ d. let (overflow, q) = take_overflow d.events in (overflow, record d { events = q });
}
