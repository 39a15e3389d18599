-- ===== src/Devices/Lookup.antt =====
-- What `AddDevice` of src/device_discovery.cc adds, `GetDevice` finds.
use droidcam_whip_c.Common.{
  ◌⊎◌, ◌++◌, inr, zero, [], inl, ap, suc, Bool-cases, arith, true, ◌∷◌, false, ◌≤◌, length, take, ℕ,
  List, Option, some, none, ◌≡◌, refl,
}
use droidcam_whip_c.Devices.{
  new_device, Device, get_device, strncmp_equal, put_device, Slots, add_device,
}

strncmp_refl : (s : List ℕ) (n : ℕ) → strncmp_equal s s n ≡ true
strncmp_refl s zero = refl
strncmp_refl [] (suc n) = refl
strncmp_refl (a ∷ s) (suc n) = let rest = strncmp_refl s n in ground arith

-- Equal in `m` characters, and so in fewer.
strncmp_fewer :
    (s t : List ℕ) (n m : ℕ) → n ≤ m → strncmp_equal s t m ≡ true → strncmp_equal s t n ≡ true
strncmp_fewer s t zero m h e = refl
strncmp_fewer [] [] (suc n) m h e = refl
strncmp_fewer [] (b ∷ t) (suc n) zero h e = absurd (omega arith)
strncmp_fewer [] (b ∷ t) (suc n) (suc m) h e = absurd (ground arith)
strncmp_fewer (a ∷ s) [] (suc n) zero h e = absurd (omega arith)
strncmp_fewer (a ∷ s) [] (suc n) (suc m) h e = absurd (ground arith)
strncmp_fewer (a ∷ s) (b ∷ t) (suc n) zero h e = absurd (omega arith)
strncmp_fewer (a ∷ s) (b ∷ t) (suc n) (suc m) h e =
    let rest : strncmp_equal s t n ≡ true = strncmp_fewer s t n m (omega arith) (ground arith) in
    ground arith

not_equal :
    (s t : List ℕ) (n m : ℕ) → n ≤ m → strncmp_equal s t n ≡ false → strncmp_equal s t m ≡ false
not_equal s t n m h e = elim (Bool-cases (strncmp_equal s t m)) [
  | inl f ↦ let g = strncmp_fewer s t n m h f in absurd (ground arith)
  | inr f ↦ f
]

put_device_finds :
    (slots slots' : Slots) (d : Device) (i : ℕ) (serial : List ℕ) (m len : ℕ)
    → m ≤ len
    → get_device slots serial m ≡ none
    → strncmp_equal d.serial serial len ≡ true
    → put_device slots d ≡ some (i, slots')
    → get_device slots' serial len ≡ some (i, d)
unfolding put_device get_device
put_device_finds [] slots' d i serial m len h g e p = absurd (ground arith)
put_device_finds (none ∷ slots) slots' d i serial m len h g e p = ground arith
put_device_finds (some c ∷ slots) slots' d i serial m len h g e p =
    go (λ slots' i. put_device_finds slots slots' d i serial m len h) (put_device slots d) refl
  where
    differs : strncmp_equal c.serial serial m ≡ false
    differs = ground arith

    rest : get_device slots serial m ≡ none
    rest = ground arith

    go :
        ((slots' : Slots) (i : ℕ)
          → get_device slots serial m ≡ none
          → strncmp_equal d.serial serial len ≡ true
          → put_device slots d ≡ some (i, slots')
          → get_device slots' serial len ≡ some (i, d))
        → (r : Option (ℕ × Slots)) → put_device slots d ≡ r
        → get_device slots' serial len ≡ some (i, d)
    go rec none q = absurd (ground arith)
    go rec (some (j, s)) q =
        let w = rec s j rest e q in
        let n = not_equal c.serial serial m len h differs in ground (arith, w, n)

take-length : (s : List ℕ) → take (length s) s ≡ s
take-length [] = refl
take-length (a ∷ s) = ap (λ t. a ∷ t) (take-length s)

-- If a serial is added, of its length, then the list finds it again by as many or more
-- characters, at the slot where it was put, and as it was put there.
pub get_device-add_device :
    (slots slots' : Slots) (serial : List ℕ) (i len : ℕ)
    → length serial ≤ len
    → add_device slots serial (length serial) ≡ some (i, slots')
    → get_device slots' serial len ≡ some (i, new_device serial (length serial))
unfolding add_device
get_device-add_device slots slots' serial i len h e =
    go (get_device slots serial (length serial)) refl
  where
    same : strncmp_equal (take (length serial) serial) serial len ≡ true
    same = rw (take-length serial) (strncmp_refl serial len)

    go :
        (r : Option (ℕ × Device))
        → get_device slots serial (length serial) ≡ r
        → get_device slots' serial len ≡ some (i, new_device serial (length serial))
    go (some x) q = absurd (ground arith)
    go none q =
        put_device_finds slots slots' (new_device serial (length serial)) i serial (length serial)
          len h q same (ground arith)

strncmp_prefix :
    (c s t : List ℕ)
    → strncmp_equal c (s ++ t) (length s) ≡ true
    → strncmp_equal c s (length s) ≡ true
strncmp_prefix c [] t e = refl
strncmp_prefix [] (a ∷ s) t e = absurd (ground arith)
strncmp_prefix (b ∷ c) (a ∷ s) t e =
    let rest : strncmp_equal c s (length s) ≡ true = strncmp_prefix c s t (ground arith) in
    ground arith

get_device_prefix :
    (slots : Slots) (serial more : List ℕ) (len : ℕ) (r : ℕ × Device)
    → length serial ≤ len
    → get_device slots (serial ++ more) len ≡ some r
    → (q : ℕ × Device) × get_device slots serial (length serial) ≡ some q
unfolding get_device
get_device_prefix [] serial more len r h e = absurd (ground arith)
get_device_prefix (none ∷ slots) serial more len r h e = absurd (ground arith)
get_device_prefix (some c ∷ slots) serial more len r h e =
    go (λ r. get_device_prefix slots serial more len r h)
      (Bool-cases (strncmp_equal c.serial (serial ++ more) len))
      (Bool-cases (strncmp_equal c.serial serial (length serial)))
      (get_device slots (serial ++ more) len) refl
  where
    go :
        ((r : ℕ × Device)
          → get_device slots (serial ++ more) len ≡ some r
          → (q : ℕ × Device) × get_device slots serial (length serial) ≡ some q)
        → (strncmp_equal c.serial (serial ++ more) len ≡ true)
          ⊎ (strncmp_equal c.serial (serial ++ more) len ≡ false)
        → (strncmp_equal c.serial serial (length serial) ≡ true)
          ⊎ (strncmp_equal c.serial serial (length serial) ≡ false)
        → (x : Option (ℕ × Device)) → get_device slots (serial ++ more) len ≡ x
        → (q : ℕ × Device) × get_device (some c ∷ slots) serial (length serial) ≡ some q
    go rec a (inl p) x f = ((0, c), ground arith)
    go rec (inl p) (inr n) x f =
        let k = strncmp_fewer c.serial (serial ++ more) (length serial) len h p in
        let m = strncmp_prefix c.serial serial more k in absurd (ground arith)
    go rec (inr p) (inr n) none f = absurd (ground arith)
    go rec (inr p) (inr n) (some x) f =
        let ((i, d), g) = rec x f in ((suc i, d), ground (arith, g, n))

-- While a serial is listed that begins with another one, that other one is refused as a duplicate.
pub add_device_prefix :
    (slots : Slots) (serial more : List ℕ) (len : ℕ) (r : ℕ × Device)
    → length serial ≤ len
    → get_device slots (serial ++ more) len ≡ some r
    → add_device slots serial (length serial) ≡ none
unfolding add_device
add_device_prefix slots serial more len r h e =
    let (q, f) = get_device_prefix slots serial more len r h e in rw (add_device, f) refl
