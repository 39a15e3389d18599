-- ===== src/Devices/Mdns/Named.antt =====
-- A device that answers and then tells its name, in src/mdns_discovery.cc.
use droidcam_whip_c.Common.{
  append_assoc, ◌++◌, ℕ, zero, suc, ◌≤◌, ◌<◌, ◌≡◌, refl, ap, ◌∙◌, true, false, List, [], ◌∷◌,
  Option, none, some, arith, take, length, Bool-cases, inl, inr,
}
use droidcam_whip_c.Devices.Adb.Lines.{take_all}
use droidcam_whip_c.Devices.Lookup.{get_device-add_device}
use droidcam_whip_c.Devices.Mdns.{
  answered, with_model, up_to_nul, add_additional, add_answer, entry_read, query_callback,
  query_callbacks, wifi_text, print_model, update, name_text, txt_model, Reply, txt, other, answer,
  additional,
}
use droidcam_whip_c.Devices.{new_device, add_device, strncmp_equal, Device, Slots, get_device}

abbrev pub answer_of : List ℕ → List ℕ → ℕ → Reply
answer_of name address query_id = record {
  address = some address;
  entry_type = answer;
  rtype = other;
  query_id = query_id;
  record_parse_ptr = λ n. take n name;
  string_extract = λ n. [];
  record_parse_txt = λ n. [];
}

abbrev pub label_of : List ℕ → List ℕ → List ℕ → Reply
label_of name address value = record {
  address = some address;
  entry_type = additional;
  rtype = txt;
  query_id = 0;
  record_parse_ptr = λ n. [];
  string_extract = λ n. take n name;
  record_parse_txt = λ n. (name_text, value) ∷ [];
}

first_found :
    (c : Device) (slots : Slots) (serial : List ℕ) (len : ℕ)
    → strncmp_equal c.serial serial len ≡ true
    → get_device (some c ∷ slots) serial len ≡ some (0, c)
unfolding get_device
first_found c slots serial len p = rw (get_device, p) refl

later_found :
    (c : Device) (slots : Slots) (serial : List ℕ) (len i : ℕ) (d : Device)
    → strncmp_equal c.serial serial len ≡ false
    → get_device slots serial len ≡ some (i, d)
    → get_device (some c ∷ slots) serial len ≡ some (suc i, d)
unfolding get_device
later_found c slots serial len i d p e = rw (get_device, p, e) refl

later_was :
    (c : Device) (slots : Slots) (serial : List ℕ) (len i : ℕ) (d : Device)
    → strncmp_equal c.serial serial len ≡ false
    → get_device (some c ∷ slots) serial len ≡ some (suc i, d)
    → get_device slots serial len ≡ some (i, d)
unfolding get_device
later_was c slots serial len i d p e = go (get_device slots serial len) refl
  where
    go : (o : Option (ℕ × Device)) → get_device slots serial len ≡ o → o ≡ some (i, d)
    go none q = absurd (ground (arith, p, q, e))
    go (some (j, c')) q = ground (arith, p, q, e)

not_first :
    (c : Device) (slots : Slots) (serial : List ℕ) (len : ℕ) (d : Device)
    → strncmp_equal c.serial serial len ≡ false
    → get_device (some c ∷ slots) serial len ≡ some (0, d)
    → ⊥
unfolding get_device
not_first c slots serial len d p e = go (get_device slots serial len) refl
  where
    go : (o : Option (ℕ × Device)) → get_device slots serial len ≡ o → ⊥
    go none q = ground (arith, p, q, e)
    go (some (j, c')) q = ground (arith, p, q, e)

get_device-update :
    (slots : Slots) (i : ℕ) (f : Device → Device) (serial : List ℕ) (len : ℕ) (d : Device)
    → ((e : Device) → (f e).serial ≡ e.serial)
    → get_device slots serial len ≡ some (i, d)
    → get_device (update slots i f) serial len ≡ some (i, f d)
unfolding get_device update
get_device-update [] i f serial len d k e = absurd (ground (arith, e))
get_device-update (none ∷ slots) i f serial len d k e = absurd (ground (arith, e))
get_device-update (some c ∷ slots) zero f serial len d k e =
    elim (Bool-cases (strncmp_equal c.serial serial len)) [
      | inl p ↦
          let t : strncmp_equal (f c).serial serial len ≡ true =
            ap (λ s. strncmp_equal s serial len) (k c) ∙ p in
          let same : c ≡ d = ground (arith, e, p) in
          first_found (f c) slots serial len t ∙ ap (λ x. some (0, f x)) same
      | inr p ↦ absurd (not_first c slots serial len d p e)
    ]
get_device-update (some c ∷ slots) (suc i) f serial len d k e =
    elim (Bool-cases (strncmp_equal c.serial serial len)) [
      | inl p ↦ absurd (ground (arith, e, p))
      | inr p ↦
          later_found c (update slots i f) serial len i (f d) p
            (get_device-update slots i f serial len d k (later_was c slots serial len i d p e))
    ]

txt_model-name :
    (value address model : List ℕ)
    → 0 < length value
    → txt_model ((name_text, value) ∷ []) address model
      ≡ print_model (take 54 value) wifi_text address
unfolding txt_model
txt_model-name value address model h = ground (arith, h)

-- The text `label [WIFI] (address)`, as much of it as has room in 80 bytes with its NUL.
abbrev pub wifi_model : List ℕ → List ℕ → List ℕ
wifi_model label address =
    take 79 (label ++ (32 ∷ 91 ∷ 87 ∷ 73 ∷ 70 ∷ 73 ∷ 93 ∷ 32 ∷ 40 ∷ []) ++ address ++ 41 ∷ [])

print_model-wifi_model :
    (label address : List ℕ)
    → up_to_nul label ≡ label
    → print_model label wifi_text address ≡ wifi_model label address
unfolding print_model
print_model-wifi_model label address plain =
    rw (print_model, plain)
      (ap (λ (text : List ℕ). take 79 (text ++ address ++ 41 ∷ []))
        (append_assoc (label ++ 32 ∷ 91 ∷ []) wifi_text (93 ∷ 32 ∷ 40 ∷ [])
          ∙ append_assoc label (32 ∷ 91 ∷ []) (wifi_text ++ 93 ∷ 32 ∷ 40 ∷ [])))

labelled :
    (name address label : List ℕ) (query_id : ℕ)
    → 0 < length label
    → length label ≤ 54
    → up_to_nul label ≡ label
    → with_model
        (txt_model ((name_text, label) ∷ []) address)
        (answered address query_id (new_device name (length name)))
      ≡ record {
        serial = name;
        model = wifi_model label address;
        state = [];
        address = take 63 address;
        handle = query_id;
      }
labelled name address label query_id some_label short plain =
    rw
      (
        take_all (length name) name (omega arith),
        txt_model-name label address (take 63 address) some_label,
        take_all 54 label short,
        print_model-wifi_model label address plain,
      )
      refl

answer-updates :
    (slots slots' : Slots) (name address : List ℕ) (query_id i : ℕ)
    → length name ≤ 79
    → up_to_nul name ≡ name
    → add_device slots name (length name) ≡ some (i, slots')
    → query_callback slots (answer_of name address query_id)
      ≡ update slots' i (answered address query_id)
unfolding query_callback entry_read add_answer
answer-updates slots slots' name address query_id i h plain added =
    rw (query_callback, add_answer, take_all 79 name h, plain, added) refl

label-updates :
    (slots : Slots) (name address label : List ℕ) (i : ℕ) (d : Device)
    → length name ≤ 79
    → up_to_nul name ≡ name
    → get_device slots name (length name) ≡ some (i, d)
    → query_callback slots (label_of name address label)
      ≡ update slots i (with_model (txt_model ((name_text, label) ∷ []) address))
unfolding query_callback entry_read add_additional
label-updates slots name address label i d h plain found =
    rw (query_callback, take_all 79 name h, plain, found) refl

-- A device that answers under a name of at most 79 bytes and without a NUL, which is not listed and
-- for which there is room, and then tells its label of 1 to 54 bytes and without a NUL, is found in
-- the list by the name; its model is the first 79 bytes of the text `label [WIFI] (address)`, its
-- address the first 63 bytes of the address, its state empty, and its handle the number of the
-- query.
pub query_callbacks-finds :
    (slots slots' : Slots) (name address label : List ℕ) (query_id i : ℕ)
    → length name ≤ 79
    → up_to_nul name ≡ name
    → add_device slots name (length name) ≡ some (i, slots')
    → 0 < length label
    → length label ≤ 54
    → up_to_nul label ≡ label
    → get_device
        (query_callbacks slots (answer_of name address query_id ∷ label_of name address label ∷ []))
        name
        (length name)
      ≡ some (
        i,
        record {
          serial = name;
          model = wifi_model label address;
          state = [];
          address = take 63 address;
          handle = query_id;
        },
      )
unfolding query_callbacks
query_callbacks-finds slots slots' name address label query_id i h plain added some_label short
      text =
    let f = answered address query_id in
    let g = with_model (txt_model ((name_text, label) ∷ []) address) in
    let once = update slots' i f in
    let new = new_device name (length name) in
    let there : get_device slots' name (length name) ≡ some (i, new) =
      get_device-add_device slots slots' name i (length name) (omega arith) added in
    let there' : get_device once name (length name) ≡ some (i, f new) =
      get_device-update slots' i f name (length name) new (λ e. refl) there in
    ap (λ s. get_device (query_callback s (label_of name address label)) name (length name))
      (answer-updates slots slots' name address query_id i h plain added)
    ∙ ap (λ s. get_device s name (length name))
        (label-updates once name address label i (f new) h plain there')
    ∙ get_device-update once i g name (length name) (f new) (λ e. refl) there'
    ∙ ap (λ d. some (i, d)) (labelled name address label query_id some_label short text)
