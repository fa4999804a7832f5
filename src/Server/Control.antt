-- ===== src/Server/Control.antt =====
-- udp_server.cpp: who may use the synthetic output. A transaction has it alone; the first click of the
-- queue has it otherwise; a release that is owed goes before both.
pub mod Reset
pub mod Scheduler
pub mod Events
pub mod Requests
pub mod Clicks
pub mod Lines
pub mod Rounds
pub mod Reached
use usb_proxy_udp.Base.{
  ℕ, ◌≤◌, ◌<◌, ◌≡◌, List, [], ◌∷◌, Bool, true, false, length, if◌then◌else◌, refl, Option, none,
  some,
}
use usb_proxy_udp.Executor.{Executor, is_running}
use usb_proxy_udp.Server.State.{
  ClickPhase, ClickWork, Server, max_click_commands, await_press, release_inflight,
}
use usb_proxy_udp.Server.Scheduler.{bit_of}

-- The mask that the first click has handed to the mixer.
abbrev pub phase_mask : ClickPhase → ℕ → ℕ
phase_mask await_press button = 0
phase_mask release_inflight button = 0
phase_mask _ button = bit_of button

abbrev pub front_mask : List ClickWork → ℕ
front_mask [] = 0
front_mask (click ∷ rest) = phase_mask click.phase click.button

abbrev pub IsClick : ClickWork → Type 0
IsClick c = (1 ≤ c.button) × (c.button ≤ 8) × (c.index < c.count) × (c.count ≤ 10_000)

-- The clicks behind the first one have not begun.
abbrev pub AllWait : List ClickWork → Type 0
AllWait [] = Unit {0}
AllWait (c ∷ cs) = IsClick c × (c.phase ≡ await_press) × AllWait cs

abbrev pub AreClicks : List ClickWork → Type 0
AreClicks [] = Unit {0}
AreClicks (c ∷ cs) = IsClick c × AllWait cs

pub record Control (mover : Executor) (work : List ClickWork) (pending inflight : Bool)
    (held scheduled : ℕ) : Type 0 where
  pub exclusive : is_running mover ≡ true → (work ≡ []) × (pending ≡ false) × (held ≡ 0)
  pub owed : inflight ≡ true → pending ≡ true
  pub bounded : length work ≤ max_click_commands
  pub clicks : AreClicks work
  pub mask : scheduled ≡ front_mask work

pub record Inv {M : Type 0} (s : Server M) : Type 0 where
  pub control :
      Control s.mover s.work s.release_pending s.release_inflight s.persistent_buttons
        s.scheduled_buttons

-- The invariant of a state with the fields of another that has it.
abbrev pub hold :
    {M : Type 0} {s : Server M}
    → Control s.mover s.work s.release_pending s.release_inflight s.persistent_buttons
        s.scheduled_buttons
    → Inv s
hold c = record { control = c }

-- An executor that ran only if another did, as far as the invariant goes.
pub quieter :
    {m n : Executor} {work : List ClickWork} {pending inflight : Bool} {held scheduled : ℕ}
    → (is_running n ≡ true → is_running m ≡ true)
    → Control m work pending inflight held scheduled
    → Control n work pending inflight held scheduled
quieter runs c = record {
  exclusive = λ run. c.exclusive (runs run);
  owed = c.owed;
  bounded = c.bounded;
  clicks = c.clicks;
  mask = c.mask;
}

pub Inv_if :
    {M : Type 0} (b : Bool) (s t : Server M)
    → (b ≡ true → Inv s)
    → (b ≡ false → Inv t)
    → Inv (if b then s else t)
Inv_if true s t then_Inv else_Inv = then_Inv refl
Inv_if false s t then_Inv else_Inv = else_Inv refl

pub Inv_option :
    {M A : Type 0} (o : Option A) (s : Server M) (f : A → Server M)
    → (o ≡ none → Inv s)
    → ((a : A) → o ≡ some a → Inv (f a))
    → Inv (elim o [ none ↦ s | some a ↦ f a ])
Inv_option none s f none_Inv some_Inv = none_Inv refl
Inv_option (some a) s f none_Inv some_Inv = some_Inv a refl
