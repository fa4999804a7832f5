-- ===== src/Server/Release.antt =====
-- udp_server.cpp: a reset cancels what runs and owes the mouse a full release, which stays owed until
-- the writer has written it.
pub mod Served
pub mod Kept
pub mod Lines
pub mod Requests
pub mod Rounds
use usb_proxy_udp.Base.{
  ℕ, ◌≡◌, refl, List, [], ◌∷◌, Bool, true, false, none, some, arith, Option, if◌then◌else◌, ◌&&◌,
  ◌||◌, ap, Bool-cases, option_cases, inl, ◌∙◌, subst, inr, sym, min, length, ◌+◌,
}
use usb_proxy_udp.Click
use usb_proxy_udp.Executor.{is_running, stop}
use usb_proxy_udp.Executor.Running.{stop_running}
use usb_proxy_udp.Server.State.{Key, same_key, CachedCommand, ClickWork, Book, Mixer, Server}
use usb_proxy_udp.Server.Book.{
  find_cache, put_cache, terminal, send_cached, send_ack, send_packet, cancel_all,
}
use usb_proxy_udp.Server.Reset.{begin_reset, sync_move, cancel_work, displace_release}
use usb_proxy_udp.Server.Cached.{find-put_same, find-put_other}

-- The record of a command that has ended.
abbrev pub ended : Click.Status → CachedCommand → CachedCommand
ended status c = record c { status = status; terminal = true }

-- What is found for a key after some records have ended.
abbrev pub ended_if : Bool → Click.Status → Option CachedCommand → Option CachedCommand
ended_if b status none = none
ended_if b status (some c) = some (if b then ended status c else c)

pub cache-send_cached :
    (epoch depth : ℕ) (b : Book) (c : CachedCommand) (status : Click.Status)
    → (send_cached epoch depth b c status).cache ≡ b.cache
unfolding send_cached send_ack send_packet
cache-send_cached epoch depth b c status = ground arith

pub found_key :
    (cs : List CachedCommand) (key : Key) (c : CachedCommand)
    → find_cache cs key ≡ some c
    → same_key c.key key ≡ true
unfolding find_cache
found_key [] key c e = absurd (ground (arith, e))
found_key (d ∷ cs) key c e = ground (arith, e, found_key cs key c)

same_key-eq : (a b : Key) → same_key a b ≡ true → a ≡ b
same_key-eq a b e = ground (arith, e)

ended_if-false : (status : Click.Status) (o : Option CachedCommand) → o ≡ ended_if false status o
ended_if-false status none = refl
ended_if-false status (some c) = refl

-- A record is ended in its place.
find-put_ended :
    (cs : List CachedCommand) (k key : Key) (c : CachedCommand) (status : Click.Status)
    → find_cache cs k ≡ some c
    → find_cache (put_cache cs (ended status c)) key
      ≡ ended_if (same_key k key) status (find_cache cs key)
find-put_ended cs k key c status e = elim (Bool-cases (same_key k key)) [
  | inl same ↦
      let here : find_cache cs key ≡ some c =
        subst (λ j. find_cache cs j ≡ some c) (same_key-eq k key same) e in
      find-put_same cs c (ended status c) key here (found_key cs key c here)
      ∙ cc (ap (ended_if true status) here, same)
  | inr other ↦
      let at : c.key ≡ k = same_key-eq c.key k (found_key cs k c e) in
      find-put_other cs (ended status c) key (cc (other, at))
      ∙ ended_if-false status (find_cache cs key)
      ∙ cc other
]

find_absent :
    (cs : List CachedCommand) (k key : Key) (status : Click.Status)
    → find_cache cs k ≡ none
    → find_cache cs key ≡ ended_if (same_key k key) status (find_cache cs key)
find_absent cs k key status e = elim (Bool-cases (same_key k key)) [
  | inl same ↦
      let here : find_cache cs key ≡ none =
        subst (λ j. find_cache cs j ≡ none) (same_key-eq k key same) e in
      here ∙ ap (ended_if (same_key k key) status) (sym here)
  | inr other ↦ ended_if-false status (find_cache cs key) ∙ cc other
]

pub find-terminal :
    (epoch depth : ℕ) (b : Book) (k key : Key) (status : Click.Status)
    → find_cache (terminal epoch depth b k status).cache key
      ≡ ended_if (same_key k key) status (find_cache b.cache key)
unfolding terminal
find-terminal epoch depth b k key status =
    option_cases
      (λ (u : Book).
        find_cache u.cache key ≡ ended_if (same_key k key) status (find_cache b.cache key))
      (find_cache b.cache k) _ _ (find_absent b.cache k key status)
      (λ c e.
        ap (λ cs. find_cache cs key) (cache-send_cached _ _ _ _ _)
        ∙ find-put_ended b.cache k key c status e)

-- A binary click of the queue has the key.
abbrev pub is_queued : List ClickWork → Key → Bool
is_queued [] key = false
is_queued (click ∷ work) key = (click.binary && same_key click.key key) || is_queued work key

ended_if_twice :
    (p q : Bool) (status : Click.Status) (o : Option CachedCommand)
    → ended_if q status (ended_if p status o) ≡ ended_if (p || q) status o
ended_if_twice p q status none = refl
ended_if_twice true true status (some c) = refl
ended_if_twice true false status (some c) = refl
ended_if_twice false true status (some c) = refl
ended_if_twice false false status (some c) = refl

cancelled_if :
    (binary : Bool) (epoch depth : ℕ) (b : Book) (k key : Key)
    → find_cache (if binary then terminal epoch depth b k Click.cancelled else b).cache key
      ≡ ended_if (binary && same_key k key) Click.cancelled (find_cache b.cache key)
cancelled_if true epoch depth b k key = find-terminal epoch depth b k key Click.cancelled
cancelled_if false epoch depth b k key = ended_if-false Click.cancelled (find_cache b.cache key)

pub find-cancel_all :
    (epoch pending : ℕ) (b : Book) (work : List ClickWork) (key : Key)
    → find_cache (cancel_all epoch pending b work).cache key
      ≡ ended_if (is_queued work key) Click.cancelled (find_cache b.cache key)
unfolding cancel_all
find-cancel_all epoch pending b [] key = ended_if-false Click.cancelled (find_cache b.cache key)
find-cancel_all epoch pending b (click ∷ work) key =
    let depth = min 65535 (length work + pending) in
    let next = if click.binary then terminal epoch depth b click.key Click.cancelled else b in
    find-cancel_all epoch pending next work key
    ∙ ap (ended_if (is_queued work key) Click.cancelled)
        (cancelled_if click.binary epoch depth b click.key key)
    ∙ ended_if_twice (click.binary && same_key click.key key) (is_queued work key) _ _

ended_found :
    (b : Bool) (o : Option CachedCommand) (d : CachedCommand)
    → b ≡ true
    → ended_if b Click.cancelled o ≡ some d
    → (d.terminal ≡ true) × (d.status ≡ Click.cancelled)
ended_found b none d q e = absurd (cc e)
ended_found false (some c) d q e = absurd (cc q)
ended_found true (some c) d q e =
    let same : ended Click.cancelled c ≡ d = cc e in
    subst (λ (x : CachedCommand). (x.terminal ≡ true) × (x.status ≡ Click.cancelled)) same
      (refl, refl)

module _ {M : Type 0} (mixer : Mixer M) where
  -- After a reset the record of each command whose clicks were queued, if there is one, says that the
  -- command has ended as cancelled.
  pub begin_reset_cancels :
      (s : Server M) (attach : Bool) (key : Key) (now : ℕ) (k : Key) (d : CachedCommand)
      → is_queued s.work k ≡ true
      → find_cache (begin_reset mixer s attach key now).book.cache k ≡ some d
      → (d.terminal ≡ true) × (d.status ≡ Click.cancelled)
  unfolding begin_reset cancel_work sync_move displace_release
  begin_reset_cancels s attach key now k d queued found =
      ended_found (is_queued s.work k) _ d queued (sym (find-cancel_all _ _ _ s.work k) ∙ found)
