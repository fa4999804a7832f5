-- ===== src/Server/Book.antt =====
-- udp_server.cpp: the lambdas that search the cache, drop old records from it, and answer from it.
-- `depth` is an argument of those that send, since the acknowledgment carries it.
use usb_proxy_udp.Base.{
  ℕ, zero, suc, ◌+◌, ◌-◌, List, [], ◌∷◌, ◌++◌, Bool, true, false, not, ◌&&◌, ◌||◌, Option, none,
  some, length, ◌==◌, leb, if◌then◌else◌, min,
}
use usb_proxy_udp.Click
use usb_proxy_udp.Move
use usb_proxy_udp.Move.{bytes_eq}
use usb_proxy_udp.Base.Int.{pos}
use usb_proxy_udp.Executor.{empty_ack}
use usb_proxy_udp.Replay.{Peer}
use usb_proxy_udp.Server.State.{Key, same_key, CachedCommand, ClickWork, Book, max_cache_records}

unfoldable pub find_cache : List CachedCommand → Key → Option CachedCommand
find_cache [] key = none
find_cache (c ∷ cs) key = if same_key c.key key then some c else find_cache cs key

-- A write through the pointer that `find_cache` gives.
unfoldable pub put_cache : List CachedCommand → CachedCommand → List CachedCommand
put_cache [] d = []
put_cache (c ∷ cs) d = if same_key c.key d.key then d ∷ cs else c ∷ put_cache cs d

unfoldable pub send_packet : Book → Peer → List ℕ → Book
send_packet b to bytes = record b { sent = b.sent ++ (to, bytes) ∷ [] }

unfoldable pub send_ack : ℕ → ℕ → Book → Peer → Key → ℕ → Click.Status → ℕ → ℕ → ℕ → Book
send_ack epoch depth b to key button status accepted completed version = send_packet b to (
    Click.packet (record {
      status = status;
      button = button;
      session = key.session;
      command = key.command;
      server_epoch = epoch;
      accepted_count = accepted;
      completed_count = completed;
      queue_depth = depth;
      version = version;
    }))

unfoldable pub send_cached : ℕ → ℕ → Book → CachedCommand → Click.Status → Book
send_cached epoch depth b c status =
    if c.movement
    then send_packet b c.peer (Move.ack_packet c.move_ack)
    else send_ack epoch depth b c.peer c.key c.button status c.accepted c.completed
        c.request.version

unfoldable pub terminal : ℕ → ℕ → Book → Key → Click.Status → Book
terminal epoch depth b key status = elim (find_cache b.cache key) [
  | none ↦ b
  | some c ↦
      let d = record c { status = status; terminal = true } in
      send_cached epoch depth (record b { cache = put_cache b.cache d }) d status
]

-- The acknowledgment of the transaction `a`, if it has changed.
unfoldable pub sync_ack : ℕ → ℕ → Book → Move.Ack → Book
sync_ack epoch depth b a =
    elim (find_cache b.cache (record { session = a.session; command = a.command })) [
      | none ↦ b
      | some c ↦
          let d = record c { move_ack = a; terminal = Move.terminal a.status } in
          let kept = record b { cache = put_cache b.cache d } in
          if a.session == 0
          then b
          else if bytes_eq (Move.ack_packet c.move_ack) (Move.ack_packet a)
          then kept
          else send_cached epoch depth kept d d.status
    ]

-- The first `n` terminal records are erased.
unfoldable pub erase_terminal : ℕ → List CachedCommand → List CachedCommand
erase_terminal n [] = []
erase_terminal zero (c ∷ cs) = c ∷ cs
erase_terminal (suc n) (c ∷ cs) =
    if c.terminal then erase_terminal n cs else c ∷ erase_terminal (suc n) cs

-- The loop erases one record at a time, while there are 256 or more.
unfoldable pub remove_old_cache : List CachedCommand → List CachedCommand
remove_old_cache cs = erase_terminal (length cs + 1 - max_cache_records) cs

abbrev pub is_full : List CachedCommand → Bool
is_full cs = leb max_cache_records (length cs)

-- A session with a command that has not ended.
unfoldable pub session_protected : List CachedCommand → ℕ → Bool
session_protected [] session = false
session_protected (c ∷ cs) session =
    (c.key.session == session && not c.terminal) || session_protected cs session

-- The loop of `cancel_work`: `pending` is 1 while a release is pending.
unfoldable pub cancel_all : ℕ → ℕ → Book → List ClickWork → Book
cancel_all epoch pending b [] = b
cancel_all epoch pending b (click ∷ work) =
    let next =
      if click.binary
      then terminal epoch (min 65535 (length work + pending)) b click.key Click.cancelled
      else b in
    cancel_all epoch pending next work

-- The value-initialised `move_protocol::Request`.
abbrev pub default_move : Move.Request
default_move = record {
  operation = Move.execute;
  flags = 0;
  button = 0;
  session = 0;
  command = 0;
  epoch = 0;
  generation = 0;
  dx = pos 0;
  dy = pos 0;
  settle_us = 1000;
  press_us = 10000;
  return_us = 0;
  budget_us = 2000000;
  wait_us = 1000000;
}

-- The record that `accept_record` appends.
unfoldable pub new_record : Click.Request → Peer → ℕ → CachedCommand
new_record request from accepted = record {
  key = record { session = request.session; command = request.command };
  request = request;
  button = request.button;
  accepted = accepted;
  completed = 0;
  status = Click.accepted;
  terminal = false;
  peer = from;
  movement = false;
  move_request = default_move;
  move_ack = empty_ack;
}
