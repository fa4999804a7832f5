-- ===== src/Mixer/Registry.antt =====
-- mouse_mixer.cpp: the registry of the mouse endpoints, with the report layouts of their interfaces.
-- The maps are association lists by increasing key; `descriptors`, `report_descriptors` and
-- `boot_protocol`, which all have an interface's number as key, are functions.
use usb_proxy_udp.Base.{ℕ, List, [], ◌∷◌, Bool, false, Option, none, some, ◌==◌, ltb, if◌then◌else◌}
use usb_proxy_udp.Base.Int.{pos, negsuc}
use usb_proxy_udp.Hid.{HidField, MouseProfile}
use usb_proxy_udp.Hid.Parser.{parse_mouse_descriptor, blank_profile}
use usb_proxy_udp.Mixer.State.{Transfer, Endpoint, add64}
use usb_proxy_udp.Mixer.Physical.{invalidate, matching_profile, queue_physical, seed}

-- A registered endpoint, with its address and its interface.
pub record Registered : Type 0 where
  pub address : ℕ
  pub interface_number : ℕ
  pub endpoint : Endpoint

pub record Registry : Type 0 where
  pub endpoints : List Registered
  pub descriptors : ℕ → List MouseProfile
  pub report_descriptors : ℕ → List MouseProfile
  pub boot_protocol : ℕ → Bool
  pub selected : Option ℕ
  pub next_generation : ℕ
  pub next_instance : ℕ

unfoldable pub find : ℕ → List Registered → Option Endpoint
find address [] = none
find address (r ∷ rs) = if r.address == address then some r.endpoint else find address rs

-- Every endpoint of the interface gets a generation of its own.
unfoldable pub invalidate_all : ℕ → List Registered → ℕ → List Registered × ℕ
invalidate_all number [] generation = ([], generation)
invalidate_all number (r ∷ rs) generation =
    let next = if r.interface_number == number then add64 generation 1 else generation in
    let (rest, last) = invalidate_all number rs next in
    let first =
      if r.interface_number == number
      then record r { endpoint = invalidate r.endpoint next }
      else r in
    (first ∷ rest, last)

unfoldable pub invalidate_interface : Registry → ℕ → Registry
invalidate_interface g number =
    let (endpoints, last) = invalidate_all number g.endpoints g.next_generation in
    record g { endpoints = endpoints; next_generation = last }

abbrev update {ℓ} : {A : Type ℓ} → (ℕ → A) → ℕ → A → ℕ → A
update f key value k = if k == key then value else f k

unfoldable pub learn_mouse_descriptor : Registry → ℕ → List ℕ → Registry
learn_mouse_descriptor g number bytes =
    let profiles = parse_mouse_descriptor bytes in
    let learned = record g { report_descriptors = update g.report_descriptors number profiles } in
    if g.boot_protocol number
    then learned
    else invalidate_interface
        (record learned { descriptors = update g.descriptors number profiles }) number

abbrev axis : ℕ → HidField
axis offset = record { offset = offset; bits = 8; minimum = negsuc 126; maximum = pos 127 }

abbrev button : ℕ → HidField
button offset = record { offset = offset; bits = 1; minimum = pos 0; maximum = pos 1 }

-- The layout of the boot protocol.
abbrev pub boot_profile : MouseProfile
boot_profile = record (blank_profile 0) {
  size = 3;
  x = axis 8;
  y = axis 16;
  relative = axis 8 ∷ axis 16 ∷ [];
  buttons = (1, button 0) ∷ (2, button 1) ∷ (3, button 2) ∷ [];
}

unfoldable pub set_mouse_protocol : Registry → ℕ → Bool → Registry
set_mouse_protocol g number boot =
    let profiles = if boot then boot_profile ∷ [] else g.report_descriptors number in
    invalidate_interface
      (record g {
        boot_protocol = update g.boot_protocol number boot;
        descriptors = update g.descriptors number profiles;
      })
      number

abbrev pub fresh_endpoint : ℕ → ℕ → List Transfer → Endpoint
fresh_endpoint generation instance_id queue = record {
  profile = blank_profile 0;
  latest = [];
  submitted_template = [];
  synthetic = [];
  queue = queue;
  residence_ns = [];
  physical_buttons = 0;
  submitted_physical_buttons = 0;
  persistent_buttons = 0;
  scheduled_buttons = 0;
  physical_dx = pos 0;
  physical_dy = pos 0;
  cumulative_x = pos 0;
  cumulative_y = pos 0;
  generation = generation;
  instance_id = instance_id;
  next_item = 1;
  physical_barrier = 0;
  last_motion_ns = 0;
  physical_received = 0;
  physical_submitted = 0;
  superseded = 0;
  writer_failures = 0;
  activity = 0;
  physical_successes = 0;
  inflight = false;
  inflight_id = 0;
}

unfoldable pub put_endpoint : Registered → List Registered → List Registered
put_endpoint r [] = r ∷ []
put_endpoint r (s ∷ ss) =
    let rest = put_endpoint r ss in
    if s.address == r.address
    then r ∷ ss
    else if ltb r.address s.address
    then r ∷ s ∷ ss
    else s ∷ rest

unfoldable pub drop_endpoint : ℕ → List Registered → List Registered
drop_endpoint address [] = []
drop_endpoint address (r ∷ rs) =
    let rest = drop_endpoint address rs in if r.address == address then rs else r ∷ rest

-- `queue` is the output queue that the endpoint's thread has at this time.
unfoldable pub register_mouse_endpoint : Registry → ℕ → ℕ → List Transfer → Registry
register_mouse_endpoint g address number queue =
    let generation = add64 g.next_generation 1 in
    let instance_id = add64 g.next_instance 1 in
    record g {
      endpoints =
          put_endpoint
            (record {
              address = address;
              interface_number = number;
              endpoint = fresh_endpoint generation instance_id queue;
            })
            g.endpoints;
      next_generation = generation;
      next_instance = instance_id;
    }

abbrev is_selected : Option ℕ → ℕ → Bool
is_selected none address = false
is_selected (some chosen) address = chosen == address

unfoldable pub unregister_mouse_endpoint : Registry → ℕ → Registry
unregister_mouse_endpoint g address =
    let dropped : Registry = elim (find address g.endpoints) [
      | none ↦ g
      | some e ↦ record g {
        endpoints = drop_endpoint address g.endpoints;
        next_generation = add64 g.next_generation 1;
      }
    ] in
    record dropped { selected = if is_selected g.selected address then none else g.selected }

unfoldable pub find_registered : ℕ → List Registered → Option Registered
find_registered address [] = none
find_registered address (r ∷ rs) =
    if r.address == address then some r else find_registered address rs

-- A report that matched a profile of the interface of `r`: `if(selected<0)selected=address;`
unfoldable pub select_matched : Registry → Registered → Option MouseProfile → Endpoint → Registry
select_matched g r matched e =
    let stored : Registry = record g {
      endpoints = put_endpoint (record r { endpoint = e }) g.endpoints;
    } in
    let chosen : Option ℕ = elim g.selected [
      | none ↦ some r.address
      | some address ↦ some address
    ] in
    elim matched [ none ↦ stored | some m ↦ record stored { selected = chosen } ]

unfoldable pub queue_physical_mouse_report : Registry → ℕ → Transfer → ℕ → Registry × Transfer
queue_physical_mouse_report g address io now = elim (find_registered address g.endpoints) [
  | none ↦ (g, io)
  | some r ↦
      let profiles = g.descriptors r.interface_number in
      let (e, queued) = queue_physical profiles r.endpoint io now in
      (select_matched g r (matching_profile profiles r.endpoint io.bytes) e, queued)
]

unfoldable pub seed_mouse_report : Registry → ℕ → Transfer → Registry × Transfer
seed_mouse_report g address io = elim (find_registered address g.endpoints) [
  | none ↦ (g, io)
  | some r ↦
      let profiles = g.descriptors r.interface_number in
      let (e, bytes) = seed profiles r.endpoint io.bytes in
      (
        select_matched g r (matching_profile profiles r.endpoint io.bytes) e,
        record io { bytes = bytes },
      )
]
