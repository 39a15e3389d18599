-- ===== src/Devices/Adb/Lines.antt =====
-- How src/device_discovery.cc reads a line of `adb devices` of the form `serial tab state`.
use droidcam_whip_c.Common.{
  if-cases, ℕ, zero, suc, ◌≤◌, ◌<◌, true, false, ◌||◌, ◌==◌, List, [], ◌∷◌, ◌++◌, none, some, ◌≡◌,
  refl, All, length, take, arith, ap, ◌∙◌,
}
use droidcam_whip_c.Devices.Adb.{
  skipped, split_serial, is_blank_start, tab, newline, carriage_return, space, is_alpha, segments,
  split_at, starts_with, contains, daemon_text, list_text, skip_blanks, alpha_prefix, split_line,
  device, parse_line,
}

-- Bytes that differ from one.
abbrev pub Without : ℕ → List ℕ → Type 0
Without c = All (λ d. (d == c) ≡ false)

pub Without-join :
    (c d : ℕ) (xs ys : List ℕ)
    → (d == c) ≡ false
    → Without c xs
    → Without c ys
    → Without c (xs ++ d ∷ ys)
Without-join c d [] ys e a b = (e, b)
Without-join c d (x ∷ xs) ys e (h, a) b = (h, Without-join c d xs ys e a b)

split_at_misses : (c : ℕ) (xs : List ℕ) → Without c xs → split_at c xs ≡ none
unfolding split_at
split_at_misses c [] a = refl
split_at_misses c (x ∷ xs) (h, a) = rw (h, split_at_misses c xs a) refl

split_at_finds : (c : ℕ) (xs ys : List ℕ) → Without c xs → split_at c (xs ++ c ∷ ys) ≡ some (xs, ys)
unfolding split_at
split_at_finds c [] ys a = let e : (c == c) ≡ true = ground arith in rw e refl
split_at_finds c (x ∷ xs) ys (h, a) = rw (h, split_at_finds c xs ys a) refl

-- A text with a space starts nothing that has none, and stands in nothing that has none.
starts_with-space : (m n ds : List ℕ) → Without space ds → starts_with (m ++ space ∷ n) ds ≡ false
unfolding starts_with
starts_with-space [] n [] a = refl
starts_with-space [] n (d ∷ ds) (h, a) = ground arith
starts_with-space (c ∷ m) n [] a = refl
starts_with-space (c ∷ m) n (d ∷ ds) (h, a) = let r = starts_with-space m n ds a in ground arith

contains-space : (m n ds : List ℕ) → Without space ds → contains (m ++ space ∷ n) ds ≡ false
unfolding contains
contains-space m n [] a = starts_with-space m n [] a
contains-space m n (d ∷ ds) (h, a) =
    rw (starts_with-space m n (d ∷ ds) (h, a)) (contains-space m n ds a)

pub segments-line :
    (xs ys : List ℕ) → Without newline xs → segments (xs ++ newline ∷ ys) ≡ xs ∷ segments ys
unfolding segments
segments-line [] ys a = refl
segments-line (x ∷ xs) ys (h, a) = rw (h, segments-line xs ys a) refl

-- A serial: not empty, without a white space, and short enough.
pub record IsSerial (s : List ℕ) : Type 0 where
  pub no_space : Without space s
  pub no_tab : Without tab s
  pub no_newline : Without newline s
  pub no_return : Without carriage_return s
  pub not_empty : 0 < length s
  pub short : length s ≤ 79

-- A state: letters, at least one, and few enough.
pub record IsState (s : List ℕ) : Type 0 where
  pub letters : All (λ c. is_alpha c ≡ true) s
  pub not_empty : 0 < length s
  pub short : length s ≤ 31

letter_differs : (c x : ℕ) → c < 65 → is_alpha x ≡ true → (x == c) ≡ false
letter_differs c x e h = ground arith

pub letters-Without : (c : ℕ) (s : List ℕ) → c < 65 → All (λ c. is_alpha c ≡ true) s → Without c s
letters-Without c [] e a = tt
letters-Without c (x ∷ s) e (h, a) = (letter_differs c x e h, letters-Without c s e a)

alpha_prefix-All : (s : List ℕ) → All (λ c. is_alpha c ≡ true) s → alpha_prefix s ≡ s
unfolding alpha_prefix
alpha_prefix-All [] a = refl
alpha_prefix-All (x ∷ s) (h, a) = rw (h, alpha_prefix-All s a) refl

pub state_read : (s : List ℕ) → IsState s → alpha_prefix (skip_blanks s) ≡ s
unfolding skip_blanks
state_read [] w = absurd (let h = w.not_empty in omega arith)
state_read (x ∷ s) w =
    let h = w.letters.0 in
    rw (letter_differs space x (omega arith) h, letter_differs tab x (omega arith) h)
      (alpha_prefix-All (x ∷ s) w.letters)

pub take_all : (n : ℕ) (s : List ℕ) → length s ≤ n → take n s ≡ s
take_all zero [] h = refl
take_all (suc n) [] h = refl
take_all zero (x ∷ s) h = absurd (omega arith)
take_all (suc n) (x ∷ s) h = ap (λ t. x ∷ t) (take_all n s (omega arith))

pub parse_line_lem :
    (s t : List ℕ) → IsSerial s → IsState t → parse_line (s ++ tab ∷ t) ≡ device s t
unfolding parse_line split_line split_serial
parse_line_lem [] t w v = absurd (let h = w.not_empty in omega arith)
parse_line_lem (x ∷ s) t w v =
    let line = x ∷ s ++ tab ∷ t in
    let a : Without space line =
      Without-join space tab (x ∷ s) t (ground arith) w.no_space
        (letters-Without space t (omega arith) v.letters) in
    let d : contains daemon_text line ≡ false = contains-space (42 ∷ []) _ line a in
    let l : contains list_text line ≡ false = contains-space (76 ∷ 105 ∷ 115 ∷ 116 ∷ []) _ line a in
    let b : is_blank_start line ≡ false =
      let p = w.no_return.0 in let q = w.no_newline.0 in let r = w.no_space.0 in ground arith in
    let g : split_line line ≡ some (x ∷ s, t) =
      rw (split_line, split_at_misses space line a) (split_at_finds tab (x ∷ s) t w.no_tab) in
    if-cases (λ r. r ≡ device (x ∷ s) t)
      (is_blank_start line || contains daemon_text line || contains list_text line) skipped
      (split_serial (split_line line)) (λ e. absurd (ground arith))
      (λ _. ap split_serial g ∙ ap (λ u. device u t) (take_all 79 (x ∷ s) w.short))
