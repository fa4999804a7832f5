-- ===== src/Server/Cached.antt =====
-- udp_server.cpp: the cache of commands. Records that have ended make room for new ones, and a command
-- that is repeated is answered from its record.
pub mod Once
use usb_proxy_udp.Base.{
  ℕ, ◌+◌, ◌-◌, ◌≡◌, ◌≤◌, refl, List, [], ◌∷◌, ◌++◌, Bool, true, false, none, some, arith, length,
  ◌==◌, if◌then◌else◌, max, min, zero, suc, Option, leb,
}
use usb_proxy_udp.Server.State.{Key, same_key, CachedCommand}
use usb_proxy_udp.Server.Book.{find_cache, put_cache, erase_terminal, remove_old_cache}

-- The records of commands that have not ended.
abbrev pub live : List CachedCommand → ℕ
live [] = 0
live (c ∷ cs) = if c.terminal then live cs else live cs + 1

live_bound : (cs : List CachedCommand) → live cs ≤ length cs
live_bound [] = omega arith
live_bound (c ∷ cs) = ground (arith, live_bound cs)

length-erase_terminal :
    (n : ℕ) (cs : List CachedCommand) → length (erase_terminal n cs) ≡ max (length cs - n) (live cs)
unfolding erase_terminal
length-erase_terminal n [] = ground arith
length-erase_terminal zero (c ∷ cs) = omega (arith, live_bound (c ∷ cs))
length-erase_terminal (suc n) (c ∷ cs) =
    ground (arith, length-erase_terminal n cs, length-erase_terminal (suc n) cs, live_bound cs)

pub find-erase_none :
    (n : ℕ) (cs : List CachedCommand) (key : Key)
    → find_cache cs key ≡ none
    → find_cache (erase_terminal n cs) key ≡ none
unfolding erase_terminal find_cache
find-erase_none n [] key e = refl
find-erase_none zero (c ∷ cs) key e = e
find-erase_none (suc n) (c ∷ cs) key e =
    ground (arith, e, find-erase_none n cs key, find-erase_none (suc n) cs key)

find-erase_live :
    (n : ℕ) (cs : List CachedCommand) (key : Key) (c : CachedCommand)
    → find_cache cs key ≡ some c
    → c.terminal ≡ false
    → find_cache (erase_terminal n cs) key ≡ some c
unfolding erase_terminal find_cache
find-erase_live n [] key c e live = absurd (ground (arith, e))
find-erase_live zero (d ∷ cs) key c e live = e
find-erase_live (suc n) (d ∷ cs) key c e live =
    ground (arith, e, live, find-erase_live n cs key c, find-erase_live (suc n) cs key c)

-- Room is made for one record: of 256 records or more, as many are dropped as leave 255, or as have
-- ended if those are fewer.
pub length-remove_old_cache :
    (cs : List CachedCommand)
    → length (remove_old_cache cs) ≡ (if leb (length cs) 255 then length cs else max 255 (live cs))
unfolding remove_old_cache
length-remove_old_cache cs =
    ground (arith, length-erase_terminal (length cs + 1 - 256) cs, live_bound cs)

-- A record of a command that has not ended is found as before when room is made.
pub find-remove_old_cache :
    (cs : List CachedCommand) (key : Key) (c : CachedCommand)
    → find_cache cs key ≡ some c
    → c.terminal ≡ false
    → find_cache (remove_old_cache cs) key ≡ some c
unfolding remove_old_cache
find-remove_old_cache cs key c = find-erase_live (length cs + 1 - 256) cs key c

pub find-append_none :
    (cs : List CachedCommand) (c : CachedCommand) (key : Key)
    → find_cache cs key ≡ none
    → same_key c.key key ≡ true
    → find_cache (cs ++ c ∷ []) key ≡ some c
unfolding find_cache
find-append_none [] c key e same = ground (arith, same)
find-append_none (d ∷ cs) c key e same = ground (arith, e, find-append_none cs c key, same)

pub find-put_same :
    (cs : List CachedCommand) (c d : CachedCommand) (key : Key)
    → find_cache cs key ≡ some c
    → same_key d.key key ≡ true
    → find_cache (put_cache cs d) key ≡ some d
unfolding find_cache put_cache
find-put_same [] c d key e same = absurd (ground (arith, e))
find-put_same (b ∷ cs) c d key e same = ground (arith, e, same, find-put_same cs c d key)

pub find-put_other :
    (cs : List CachedCommand) (d : CachedCommand) (key : Key)
    → same_key d.key key ≡ false
    → find_cache (put_cache cs d) key ≡ find_cache cs key
unfolding find_cache put_cache
find-put_other [] d key other = refl
find-put_other (b ∷ cs) d key other = ground (arith, other, find-put_other cs d key)
