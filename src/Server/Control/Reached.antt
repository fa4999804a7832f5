-- ===== src/Server/Control/Reached.antt =====
-- udp_server.cpp: what holds of the server in every state that `server_loop` reaches.
use usb_proxy_udp.Base.{
  ℕ, ◌≤◌, ◌≡◌, refl, List, [], true, false, arith, Option, length, Bool, ◌⊎◌, inr, inl,
}
use usb_proxy_udp.Replay.{Peer}
use usb_proxy_udp.Executor.{is_running}
use usb_proxy_udp.Server.State.{Mixer, Server}
use usb_proxy_udp.Server.Start.{initial}
use usb_proxy_udp.Server.Loop.{round}
use usb_proxy_udp.Server.Control.{Inv, AreClicks, front_mask, hold}
use usb_proxy_udp.Server.Control.Rounds.{round-Inv}

-- The states after any number of rounds, at any times, with any datagrams.
pub data Reached {M : Type 0} (mixer : Mixer M) (filter : Option ℕ) (start : Server M)
    : Server M → Type 0 where
  started : Reached mixer filter start start
  went :
      {s : Server M} (arrived : Option (Peer × List ℕ)) (now : ℕ)
      → Reached mixer filter start s
      → Reached mixer filter start (round mixer filter s arrived now)

abbrev pub IsOrderly : {M : Type 0} → Server M → Type 0
IsOrderly s =
    ((is_running s.mover ≡ false)
      ⊎ ((s.work ≡ []) × (s.release_pending ≡ false) × (s.persistent_buttons ≡ 0)))
    × ((s.release_inflight ≡ false) ⊎ (s.release_pending ≡ true))
    × (length s.work ≤ 64)
    × AreClicks s.work
    × (s.scheduled_buttons ≡ front_mask s.work)

or_else : (b : Bool) {P : Type 0} → (b ≡ true → P) → (b ≡ false) ⊎ P
or_else true h = inr (h refl)
or_else false h = inl refl

module _ {M : Type 0} where
  initial-Inv : (epoch : ℕ) (m : M) (now : ℕ) → Inv (initial epoch m now)
  initial-Inv epoch m now = hold (record {
    exclusive = λ run. absurd (ground (arith, run));
    owed = λ on. absurd (ground (arith, on));
    bounded = omega arith;
    clicks = tt;
    mask = refl;
  })

  module _ (mixer : Mixer M) (filter : Option ℕ) where
    reached-Inv : {start s : Server M} → Reached mixer filter start s → Inv start → Inv s
    reached-Inv started v = v
    reached-Inv (went arrived now r) v = round-Inv mixer filter _ arrived now (reached-Inv r v)

    -- In every state that the server reaches from its start, by any rounds and over any mixer, the output
    -- is used in order: while a transaction runs, no click is queued, no release is owed and no button is
    -- held by a client; a release that is on its way is owed; at most 64 clicks are queued, each of 1 to
    -- 10,000 presses of a button from 1 to 8 that are not all done, and all but the first wait; and the
    -- mask of scheduled buttons is the one of the first click's phase.
    pub Reached-IsOrderly :
        (epoch : ℕ) (m : M) (now : ℕ) (s : Server M)
        → Reached mixer filter (initial epoch m now) s
        → IsOrderly s
    Reached-IsOrderly epoch m now s r =
        let c = (reached-Inv r (initial-Inv epoch m now)).control in
        (
          or_else (is_running s.mover) c.exclusive,
          or_else s.release_inflight c.owed,
          c.bounded,
          c.clicks,
          c.mask,
        )
