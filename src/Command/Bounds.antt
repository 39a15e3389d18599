-- ===== src/Command/Bounds.antt =====
-- Where `argv_to_string` of src/device_discovery.cc stays inside of its buffer.
use droidcam_whip_c.Common.{
  ap, ◌-◌, sym, Bool-cases, inr, inl, ◌∙◌, ◌⊎◌, true, length-drop, length-take, refl, drop, ◌++◌,
  arith, false, take, ◌^◌, leb, length-append, ◌≤◌, ◌<◌, ◌≢◌, [], ◌+◌, ◌∷◌, Bool, length, List, ℕ,
  Option, some, none, ◌≡◌,
}
use droidcam_whip_c.Frame.{write_at}
use droidcam_whip_c.Command.{terminate, argv_to_string, space, copied, copy, argv_loop}

-- No argument begins in the last byte of the buffer.
abbrev pub LeavesRoom : ℕ → ℕ → List (List ℕ) → Type 0
LeavesRoom bufsize idx [] = Unit
LeavesRoom bufsize idx (arg ∷ args) =
    (idx + 1 ≢ bufsize) × LeavesRoom bufsize (idx + length arg + 1) args

-- The length of the text with a space behind each argument.
abbrev pub text_length : List (List ℕ) → ℕ
text_length [] = 0
text_length (arg ∷ args) = length arg + 1 + text_length args

write_at_fits :
    (block : List ℕ) (i : ℕ) (bytes : List ℕ)
    → i + length bytes ≤ length block
    → (block' : List ℕ) × (write_at block i bytes ≡ some block') × length block' ≡ length block
unfolding write_at
write_at_fits block i bytes h =
    let a = length-append (take i block) (bytes ++ drop (i + length bytes) block) in
    let b = length-append bytes (drop (i + length bytes) block) in
    let c = length-take i block in
    let d = length-drop (i + length bytes) block in
    (
      take i block ++ (bytes ++ drop (i + length bytes) block),
      ground arith,
      omega (arith, a, b, c, d),
    )

-- What the loop leads to.
abbrev Prints : List (List ℕ) → List ℕ → ℕ → Option (List ℕ × ℕ × Bool) → Type 0
Prints args buf idx r =
    (buf' : List ℕ) × (idx' : ℕ) × (cut : Bool) × (r ≡ some (buf', idx', cut))
    × length buf' ≡ length buf
    × idx' < length buf
    × (cut ≡ leb (length buf) (idx + text_length args))

copied_fits :
    (bufsize idx len : ℕ)
    → bufsize < 2 ^ 64
    → idx + 1 < bufsize
    → copied bufsize idx len ≤ len × idx + copied bufsize idx len + 1 < bufsize
copied_fits bufsize idx len s h = ground arith

-- One argument and its space.
put_fits :
    (buf : List ℕ) (idx : ℕ) (arg : List ℕ)
    → length buf < 2 ^ 64
    → idx + 1 < length buf
    → (buf' : List ℕ) × (buf'' : List ℕ) × (copy buf idx arg (copied (length buf) idx (length arg))
        ≡ some buf')
      × (write_at buf' (idx + copied (length buf) idx (length arg)) (space ∷ []) ≡ some buf'')
      × length buf'' ≡ length buf
put_fits buf idx arg s h =
    let len = copied (length buf) idx (length arg) in
    let (l, b) = copied_fits (length buf) idx (length arg) s h in
    let t = length-take len arg in
    let (buf', e, m) = write_at_fits buf idx (take len arg) (omega (arith, t, l, b)) in
    let (buf'', f, n) = write_at_fits buf' (idx + len) (space ∷ []) (omega (arith, m, b)) in
    let c : copy buf idx arg len ≡ write_at buf idx (take len arg) = ground arith in
    (buf', buf'', c ∙ e, f, n ∙ m)

-- Both are read at equal numbers.
LeavesRoom-moved :
    (args : List (List ℕ)) (b c i j : ℕ) → b ≡ c → i ≡ j → LeavesRoom b i args → LeavesRoom c j args
LeavesRoom-moved args b c i j p q room = rw⁻¹ p (rw⁻¹ q room)

leb-moved : (b c i j : ℕ) → b ≡ c → i ≡ j → leb b i ≡ leb c j
leb-moved b c i j p q = rw (p, q) refl

argv_loop-Prints :
    (args : List (List ℕ)) (buf : List ℕ) (idx : ℕ)
    → length buf < 2 ^ 64
    → idx < length buf
    → LeavesRoom (length buf) idx args
    → Prints args buf idx (argv_loop args buf idx)
unfolding argv_loop
argv_loop-Prints [] buf idx s h room = (buf, idx, false, refl, refl, h, ground arith)
argv_loop-Prints (arg ∷ args) buf idx s h (room, rooms) =
    go (argv_loop-Prints args) (Bool-cases (leb (length buf) (idx + length arg + 1)))
  where
    len : ℕ
    len = copied (length buf) idx (length arg)

    go :
        ((buf : List ℕ) (idx : ℕ)
          → length buf < 2 ^ 64
          → idx < length buf
          → LeavesRoom (length buf) idx args
          → Prints args buf idx (argv_loop args buf idx))
        → (leb (length buf) (idx + length arg + 1) ≡ true)
          ⊎ (leb (length buf) (idx + length arg + 1) ≡ false)
        → Prints (arg ∷ args) buf idx (argv_loop (arg ∷ args) buf idx)
    go rec (inl t) =
        let (buf', buf'', e, f, n) = put_fits buf idx arg s (omega arith) in
        let (l, b) = copied_fits (length buf) idx (length arg) s (omega arith) in
        rw (argv_loop, e, f, t) (buf'', idx + len + 1, true, refl, n, b, ground arith)
    go rec (inr t) =
        let (buf', buf'', e, f, n) = put_fits buf idx arg s (omega arith) in
        let c : len ≡ length arg = ground arith in
        let j = idx + len + 1 in
        let q : j ≡ idx + length arg + 1 = omega (arith, c) in
        let rooms' =
          LeavesRoom-moved args (length buf) (length buf'') (idx + length arg + 1) j (sym n) (sym q)
            rooms in
        let small : length buf'' < 2 ^ 64 = omega (arith, n, s) in
        let inside : j < length buf'' = ground (arith, n, c, t) in
        let (out, idx', cut, g, m, b, k) = rec buf'' j small inside rooms' in
        let w =
          leb-moved (length buf'') (length buf) (j + text_length args)
            (idx + text_length (arg ∷ args)) n (omega (arith, q)) in
        rw (argv_loop, e, f, t) (out, idx', cut, g, m ∙ n, omega (arith, n, b), k ∙ w)

-- If no argument begins in the last byte of the buffer (its size being less than 2 ^ 64), then
-- argv_to_string stays inside of the strings and of the buffer, and it says that the text was cut
-- off exactly when the text, with a space behind each argument, does not leave a byte free.
pub argv_to_string_fits :
    (argv : List (List ℕ)) (buf : List ℕ)
    → 0 < length buf
    → length buf < 2 ^ 64
    → LeavesRoom (length buf) 0 argv
    → (text : List ℕ) × (argv_to_string argv buf ≡ some (text, leb (length buf) (text_length argv)))
      × length text ≡ length buf
unfolding argv_to_string terminate
argv_to_string_fits argv buf z s room =
    let (out, idx, cut, e, m, b, k) = argv_loop-Prints argv buf 0 s z room in
    let (text, f, n) = write_at_fits out (idx - 1) (0 ∷ []) (omega (arith, m, b)) in
    let w =
      leb-moved (length buf) (length buf) (0 + text_length argv) (text_length argv) refl
        (omega arith) in
    rw (argv_to_string, e, terminate, f) (text, ap (λ cut. some (text, cut)) (k ∙ w), n ∙ m)

wraps : (bufsize idx len : ℕ) → idx + 1 ≡ bufsize → copied bufsize idx len ≡ 2 ^ 64 - 1
wraps bufsize idx len e = ground arith

copy_overruns :
    (buf : List ℕ) (idx : ℕ) (arg : List ℕ)
    → idx + 1 ≡ length buf
    → length arg < 2 ^ 64 - 1
    → copy buf idx arg (copied (length buf) idx (length arg)) ≡ none
copy_overruns buf idx arg e h = let w = wraps (length buf) idx (length arg) e in ground (arith, w)

-- An argument that fills the buffer but for two bytes, with another one behind it, makes
-- argv_to_string leave its buffer: the length left for the second one wraps around.
pub argv_to_string_overruns :
    (arg next : List ℕ) (rest : List (List ℕ)) (buf : List ℕ)
    → length buf < 2 ^ 64
    → length arg + 2 ≡ length buf
    → length next < 2 ^ 64 - 1
    → argv_to_string (arg ∷ next ∷ rest) buf ≡ none
unfolding argv_to_string argv_loop
argv_to_string_overruns arg next rest buf z e h =
    let (buf', buf'', f, g, n) = put_fits buf 0 arg z (omega arith) in
    let c : copied (length buf) 0 (length arg) ≡ length arg = ground arith in
    let t : leb (length buf) (0 + length arg + 1) ≡ false = ground arith in
    let o =
      copy_overruns buf'' (0 + copied (length buf) 0 (length arg) + 1) next (omega (arith, n, c))
        h in
    rw (argv_to_string, argv_loop, f, g, t, o) refl
