-- ===== src/Devices/Mdns/Fits.antt =====
-- The strings that the replies of src/mdns_discovery.cc leave, and the arrays of `Device`.
use droidcam_whip_c.Common.{
  ℕ, zero, suc, ◌≤◌, List, [], ◌∷◌, Option, none, some, arith, take, length, All,
}
use droidcam_whip_c.Devices.{get_device, add_device, Device, Slots}
use droidcam_whip_c.Devices.Mdns.{
  srv, txt, other, question, answer, authority, additional, up_to_nul, with_model, EntryType,
  answered, RecordType, entry_read, query_callbacks, add_additional, query_callback, add_answer,
  wifi_text, print_model, txt_model, update, Reply,
}
use droidcam_whip_c.Devices.Fits.{
  add_device-AnswerFits, DeviceFits, AnswerFits, length-take-le, AllFit,
}

pub update-AllFit :
    (slots : Slots) (i : ℕ) (f : Device → Device)
    → AllFit slots
    → ((d : Device) → DeviceFits d → DeviceFits (f d))
    → AllFit (update slots i f)
unfolding update
update-AllFit [] i f a p = a
update-AllFit (none ∷ slots) zero f a p = a
update-AllFit (some d ∷ slots) zero f a p = (p d a.0, a.1)
update-AllFit (none ∷ slots) (suc i) f a p = (a.0, update-AllFit slots i f a.1 p)
update-AllFit (some d ∷ slots) (suc i) f a p = (a.0, update-AllFit slots i f a.1 p)

-- The functions of src/mdns.h keep to their capacity.
abbrev pub IsLimited : Reply → Type 0
IsLimited r = (n : ℕ) → length (r.record_parse_ptr n) ≤ n

pub print_model-fits :
    (value suffix address : List ℕ) → length (print_model value suffix address) ≤ 79
unfolding print_model
print_model-fits value suffix address = length-take-le 79 _

txt_model-fits :
    (records : List (List ℕ × List ℕ)) (address model : List ℕ)
    → length model ≤ 79
    → length (txt_model records address model) ≤ 79
unfolding txt_model
txt_model-fits [] address model h = h
txt_model-fits ((key, value) ∷ records) address model h =
    let printed = print_model (take 54 value) wifi_text address in
    ground (
      arith,
      txt_model-fits records address model h,
      txt_model-fits records address printed (print_model-fits (take 54 value) wifi_text address),
    )

add_answer-AllFit :
    (slots : Slots) (serial address : List ℕ) (query_id : ℕ)
    → AllFit slots
    → length serial ≤ 79
    → AllFit (add_answer slots serial address query_id)
unfolding add_answer
add_answer-AllFit slots serial address query_id a h =
    go (add_device slots (up_to_nul serial) (length serial))
      (add_device-AnswerFits slots (up_to_nul serial) (length serial) a h)
  where
    short : length (take 63 address) ≤ 63
    short = length-take-le 63 address

    go :
        (o : Option (ℕ × Slots))
        → AnswerFits o
        → AllFit (elim o [
          | none ↦ slots
          | some (i, slots') ↦ update slots' i (answered address query_id)
        ])
    go none r = a
    go (some (i, slots')) r =
        update-AllFit slots' i (answered address query_id) r
          (λ d f. (f.0, omega (arith, short), f.2, short))

add_additional-AllFit :
    (slots : Slots) (found : Option (ℕ × Device)) (rtype : RecordType)
    (records : List (List ℕ × List ℕ)) (address : List ℕ)
    → AllFit slots
    → AllFit (add_additional slots found rtype records address)
unfolding add_additional
add_additional-AllFit slots (some (i, d)) txt records address a =
    update-AllFit slots i (with_model (txt_model records address)) a
      (λ e f. (f.0, txt_model-fits records address e.model f.1, f.2, f.3))
add_additional-AllFit slots (some (i, d)) srv records address a = a
add_additional-AllFit slots (some (i, d)) other records address a = a
add_additional-AllFit slots none rtype records address a = a

entry_read-AllFit :
    (slots : Slots) (r : Reply) (address : List ℕ) (t : EntryType)
    → IsLimited r
    → AllFit slots
    → AllFit (entry_read slots r address t)
unfolding entry_read
entry_read-AllFit slots r address answer k a =
    add_answer-AllFit slots (r.record_parse_ptr 79) address r.query_id a (k 79)
entry_read-AllFit slots r address additional k a =
    let name = r.string_extract 79 in
    add_additional-AllFit slots (get_device slots (up_to_nul name) (length name)) r.rtype
      (r.record_parse_txt 512) address a
entry_read-AllFit slots r address question k a = a
entry_read-AllFit slots r address authority k a = a

query_callback-AllFit :
    (slots : Slots) (r : Reply) → IsLimited r → AllFit slots → AllFit (query_callback slots r)
unfolding query_callback
query_callback-AllFit slots r k a = go r.address
  where
    go :
        (o : Option (List ℕ))
        → AllFit (elim o [ none ↦ slots | some address ↦ entry_read slots r address r.entry_type ])
    go none = a
    go (some address) = entry_read-AllFit slots r address r.entry_type k a

pub query_callbacks-AllFit :
    (replies : List Reply) (slots : Slots)
    → All IsLimited replies
    → AllFit slots
    → AllFit (query_callbacks slots replies)
unfolding query_callbacks
query_callbacks-AllFit [] slots k a = a
query_callbacks-AllFit (r ∷ replies) slots k a =
    query_callbacks-AllFit replies (query_callback slots r) k.1
      (query_callback-AllFit slots r k.0 a)
