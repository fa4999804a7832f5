-- ===== src/Lib.antt =====
-- usb-proxy-udp: a proxy between a USB mouse and its host, which mixes movements and clicks that it is
-- sent over UDP into the reports of the mouse.
--
-- The UDP server parses packets (click_protocol.h, move_protocol.h) and refuses repeated ones
-- (session_tracker.h, upx_replay.h). A transaction (out, click, return) is driven by MoveExecutor
-- (move_executor.h), whose reports go to the mixer (mouse_mixer.cpp); the mixer splits and encodes
-- motions by the mouse's own report layout (mouse_protocol.h), joins them with the physical reports on
-- their way to the host, and gives back an event for each report that was written.
--
-- The files:
--   Base, Base/*: the library's names, integers with order, lemmas on lists and bits.
--   Wire, Wire/*: the byte accessors of the protocol headers, packets as lists of bytes.
--   Click, Click/*: click_protocol.h. Move, Move/*: move_protocol.h.
--   Sessions, Sessions/*: session_tracker.h. Replay, Replay/*: upx_replay.h, and sequence_newer of
--     mouse_protocol.h.
--   Mouse: the types of mouse_mixer.h. Hid, Hid/*, Hid/Parser/*: the fields, profiles,
--     the split and the descriptor parser of mouse_protocol.h.
--   Telemetry, Telemetry/*: telemetry_protocol.h.
--   Executor, Executor/*: move_executor.h, one function for each method. tick is over an arbitrary
--     enqueue function, which stands for enqueue_report of the mixer.
--   Mixer, Mixer/*: mouse_mixer.cpp, one function for each operation, over the endpoint that the
--     operation finds: Enqueue (enqueue_report, clear_synthetic_state), Take (take_mouse_report),
--     Written (notify_mouse_report_written and the writer's events), Physical
--     (queue_physical_mouse_report, seed_mouse_report, invalidate_interface); Registry has the maps of the
--     endpoints, with the choice of the selected one, and the operations on them.
--   Server, Server/*: udp_server.cpp. State has the variables of server_loop in one record, and the
--     calls of the mixer as a record of functions over any state of it; Book has the cache of commands
--     with the packets that are sent; Reset, Scheduler and Events have the lambdas; Moves, Clicks, Motion
--     and Text have what is done with a datagram, Line the reading and printing of texts; Loop has one
--     round of the loop and what stands after it, Start the variables before the first. Control, Release,
--     Owner, Cached and Cycle, with the files below them, have the theorems. Desk fills the calls of the
--     mixer with the modelled mixer, whose snapshot of the selected endpoint is Mixer/Snapshot.
--   The modules named Tests hold concrete cases.
--
-- A pointer with a length is a list of bytes; a parser that returns false gives none, since no caller
-- reads what it has written then. The int fields of motions are integers without a bound; counters
-- and times of 64 bits keep their wrap-around. The clock is an argument. Locks are left out, since each
-- operation of the mixer holds the registry's for its whole run; so are the condition variables that
-- wake the writer. The split loop of mouse_protocol.h has room for 32 reports, which is the limit in
-- the source; the loop of the descriptor parser has a round for each byte, and each round takes one at
-- least. The digits of a number are printed with a round for each unit of it and one more, and each round divides it by ten. No other
-- loop needs a bound: they follow a list or a count.
--
-- Not modelled: the USB side (proxy.cpp, usb-proxy.cpp, host-raw-gadget.cpp, device-libusb.cpp) and
-- usb_capture.cpp, which call the kernel, libusb and the file system; start, stop and join
-- of the UDP server, its random epoch, and its calls of poll and recvfrom, whose results are arguments of a
-- round; and the replay of recorded devices. A round has one time, where the
-- source reads the clock at each step.
pub mod Base
pub mod Wire
pub mod Click
pub mod Move
pub mod Sessions
pub mod Replay
pub mod Mouse
pub mod Hid
pub mod Executor
pub mod Mixer
pub mod Telemetry
pub mod Server
