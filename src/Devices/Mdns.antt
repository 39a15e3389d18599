-- ===== src/Devices/Mdns.antt =====
-- src/mdns_discovery.cc: what `query_callback` makes of a reply, and the sockets of `MDNS::DoReload`.
-- What src/mdns.h reads from a packet is a parameter.
pub mod Fits
pub mod Named
pub mod Sockets
mod Tests
use droidcam_whip_c.Common.{
  ℕ, zero, suc, ◌+◌, Bool, true, false, ◌==◌, List, [], ◌∷◌, ◌++◌, Option, none, some,
  if◌then◌else◌, take, length,
}
use droidcam_whip_c.Devices.{Device, Slots, strncmp_equal, get_device, add_device}

pub data EntryType : Type 0 where
  question answer authority additional : EntryType

pub data RecordType : Type 0 where
  srv txt other : RecordType

-- An entry of a reply as `mdns_query_recv` hands it over: `address` is the text that `inet_ntop`
-- gives for the sender, if it does; `record_parse_ptr`, `string_extract` and `record_parse_txt` are
-- what those functions give for a capacity.
pub record Reply : Type 0 where
  pub address : Option (List ℕ)
  pub entry_type : EntryType
  pub rtype : RecordType
  pub query_id : ℕ
  pub record_parse_ptr : ℕ → List ℕ
  pub string_extract : ℕ → List ℕ
  pub record_parse_txt : ℕ → List (List ℕ × List ℕ)

-- The string that begins a buffer.
unfoldable pub up_to_nul : List ℕ → List ℕ
up_to_nul [] = []
up_to_nul (c ∷ cs) = let rest = up_to_nul cs in if c == 0 then [] else c ∷ rest

-- `"name"`, and the suffix `"WIFI"` of the class `MDNS`
abbrev pub name_text : List ℕ
name_text = 110 ∷ 97 ∷ 109 ∷ 101 ∷ []

abbrev pub wifi_text : List ℕ
wifi_text = 87 ∷ 73 ∷ 70 ∷ 73 ∷ []

-- `snprintf` of `"%.*s [%s] (%.*s)"` into 80 bytes.
unfoldable pub print_model : List ℕ → List ℕ → List ℕ → List ℕ
unfolding up_to_nul
print_model value suffix address =
    take 79
      (up_to_nul value ++ (32 ∷ 91 ∷ []) ++ suffix ++ (93 ∷ 32 ∷ 40 ∷ []) ++ address ++ 41 ∷ [])

-- A write to the device at an index, through the pointer that the list gave.
unfoldable pub update : Slots → ℕ → (Device → Device) → Slots
update [] i f = []
update (none ∷ slots) zero f = none ∷ slots
update (some d ∷ slots) zero f = some (f d) ∷ slots
update (d ∷ slots) (suc i) f = d ∷ update slots i f

-- The entry ANSWER: the device's model is its address until its name is known.
abbrev pub answered : List ℕ → ℕ → Device → Device
answered address query_id d = record d {
  handle = query_id;
  model = take 63 address;
  address = take 63 address;
}

unfoldable pub add_answer : Slots → List ℕ → List ℕ → ℕ → Slots
add_answer slots serial address query_id =
    elim (add_device slots (up_to_nul serial) (length serial)) [
      | none ↦ slots
      | some (i, slots') ↦ update slots' i (answered address query_id)
    ]

-- The loop over the TXT records, on the model: a value is cut to 80 - 4 - 6 - 16 bytes.
unfoldable pub txt_model : List (List ℕ × List ℕ) → List ℕ → List ℕ → List ℕ
txt_model [] address model = model
txt_model ((key, value) ∷ records) address model =
    let kept = txt_model records address model in
    let named = txt_model records address (print_model (take 54 value) wifi_text address) in
    if length value == 0
    then kept
    else if strncmp_equal name_text key (length key)
    then named
    else kept

abbrev pub with_model : (List ℕ → List ℕ) → Device → Device
with_model f d = record d { model = f d.model }

-- The entry ADDITIONAL, for a device that is listed.
add_additional : Slots → Option (ℕ × Device) → RecordType → List (List ℕ × List ℕ) → List ℕ → Slots
add_additional slots (some (i, d)) txt records address =
    update slots i (with_model (txt_model records address))
add_additional slots found rtype records address = slots

entry_read : Slots → Reply → List ℕ → EntryType → Slots
entry_read slots r address answer = add_answer slots (r.record_parse_ptr 79) address r.query_id
entry_read slots r address additional =
    let name = r.string_extract 79 in
    add_additional slots (get_device slots (up_to_nul name) (length name)) r.rtype
      (r.record_parse_txt 512) address
entry_read slots r address question = slots
entry_read slots r address authority = slots

unfoldable pub query_callback : Slots → Reply → Slots
unfolding entry_read add_additional
query_callback slots r = elim r.address [
  | none ↦ slots
  | some address ↦ entry_read slots r address r.entry_type
]

unfoldable pub query_callbacks : Slots → List Reply → Slots
query_callbacks slots [] = slots
query_callbacks slots (r ∷ replies) = query_callbacks (query_callback slots r) replies
