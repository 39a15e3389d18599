-- ===== src/Devices/Adb/Commands/Arrays.antt =====
-- The arguments of `adb_execute` in src/device_discovery.cc, and the array for them.
use droidcam_whip_c.Common.{
  if-cases, if◌then◌else◌, inr, inl, ◌==◌, ◌*◌, Bool-cases, append-nil, sym, ℕ, zero, suc, ◌+◌, ◌-◌,
  ◌≤◌, ◌<◌, ◌≡◌, refl, Bool, true, false, List, [], ◌∷◌, ◌++◌, Option, none, some, arith, length,
  replicate, map, take, drop, take-length_append, length-append, length-replicate, ltb,
  append_assoc, ap, ◌∙◌,
}
use droidcam_whip_c.Devices.Adb.Commands.{
  front, command_of, put_args, adb_execute, Cmd, put_arg, refused, overrun, execute,
}

-- An array with some arguments written and room for others.
abbrev filled : List (List ℕ) → ℕ → Cmd
filled args room = map some args ++ replicate room none

length-map : (args : List (List ℕ)) → length (map some args) ≡ length args
length-map [] = refl
length-map (arg ∷ args) = omega (arith, length-map args)

map-append_one :
    (args : List (List ℕ)) (arg : List ℕ) (rest : Cmd)
    → map some args ++ some arg ∷ rest ≡ map some (args ++ arg ∷ []) ++ rest
map-append_one [] arg rest = refl
map-append_one (a ∷ args) arg rest = ap (λ l. some a ∷ l) (map-append_one args arg rest)

take-filled :
    (args : List (List ℕ)) (rest : Cmd) → take (length args) (map some args ++ rest) ≡ map some args
take-filled args rest =
    ap (λ n. take n (map some args ++ rest)) (omega (arith, length-map args))
    ∙ take-length_append (map some args) rest

drop-filled :
    (args : List (List ℕ)) (x : Option (List ℕ)) (rest : Cmd)
    → drop (suc (length args)) (map some args ++ x ∷ rest) ≡ rest
drop-filled [] x rest = refl
drop-filled (a ∷ args) x rest = drop-filled args x rest

length-filled : (args : List (List ℕ)) (room : ℕ) → length (filled args room) ≡ length args + room
length-filled args room = omega (
  arith,
  length-append {0} (map some args) (replicate room none),
  length-map args,
  length-replicate {0} {A = Option (List ℕ)} room none,
)

put_arg-filled :
    (args : List (List ℕ)) (room : ℕ) (arg : Option (List ℕ))
    → put_arg (some (filled args (suc room))) (length args) arg
      ≡ some (map some args ++ arg ∷ replicate room none)
unfolding put_arg
put_arg-filled args room arg =
    let fits : ltb (length args) (length (filled args (suc room))) ≡ true =
      ground (arith, length-filled args (suc room)) in
    let behind : drop (length args + 1) (filled args (suc room)) ≡ replicate room none =
      ap (λ n. drop n (filled args (suc room))) {y = suc (length args)} (omega arith)
      ∙ drop-filled args none (replicate room none) in
    rw (put_arg, fits, take-filled args (none ∷ replicate room none), behind) refl

put_arg-full :
    (args : List (List ℕ)) (arg : Option (List ℕ)) (i : ℕ)
    → length args ≤ i
    → put_arg (some (filled args 0)) i arg ≡ none
unfolding put_arg
put_arg-full args arg i h =
    let full : ltb i (length (filled args 0)) ≡ false = ground (arith, length-filled args 0) in
    rw (put_arg, full) refl

put_args-none : (i : ℕ) (args : List (List ℕ)) → put_args none i args ≡ none
unfolding put_args put_arg
put_args-none i [] = refl
put_args-none i (arg ∷ args) = put_args-none (i + 1) args

-- The arguments that fit are written one behind the other.
put_args-filled :
    (done args : List (List ℕ)) (room : ℕ)
    → put_args (some (filled done (length args + room))) (length done) args
      ≡ some (filled (done ++ args) room)
unfolding put_args
put_args-filled done [] room =
    let none_left : 0 + room ≡ room = omega arith in
    ap (λ n. some (filled done n)) none_left
    ∙ ap (λ l. some (filled l room)) (sym (append-nil done))
put_args-filled done (arg ∷ args) room =
    ap
      (λ n.
        put_args (put_arg (some (filled done n)) (length done) (some arg)) (length done + 1) args)
      {y = suc (length args + room)} (omega arith)
    ∙ ap (λ c. put_args c (length done + 1) args)
        (put_arg-filled done (length args + room) (some arg))
    ∙ ap (λ c. put_args (some c) (length done + 1) args)
        (map-append_one done arg (replicate (length args + room) none))
    ∙ ap (λ n. put_args (some (filled (done ++ arg ∷ []) (length args + room))) n args)
        (omega (arith, length-append {0} done (arg ∷ [])))
    ∙ put_args-filled (done ++ arg ∷ []) args room
    ∙ ap (λ l. some (filled l room)) (append_assoc done (arg ∷ []) args)

-- With more arguments than room the array is left.
put_args-full :
    (done args : List (List ℕ)) (room : ℕ)
    → room < length args
    → put_args (some (filled done room)) (length done) args ≡ none
unfolding put_args
put_args-full done [] room h = absurd (omega arith)
put_args-full done (arg ∷ args) zero h =
    ap (λ c. put_args c (length done + 1) args)
      (put_arg-full done (some arg) (length done) (omega arith))
    ∙ put_args-none (length done + 1) args
put_args-full done (arg ∷ args) (suc room) h =
    ap (λ c. put_args c (length done + 1) args) (put_arg-filled done room (some arg))
    ∙ ap (λ c. put_args (some c) (length done + 1) args)
        (map-append_one done arg (replicate room none))
    ∙ ap (λ n. put_args (some (filled (done ++ arg ∷ []) room)) n args)
        (omega (arith, length-append {0} done (arg ∷ [])))
    ∙ put_args-full (done ++ arg ∷ []) args room (omega arith)

pub front-short :
    (flatpak : Bool) (adb : List ℕ) (serial : Option (List ℕ))
    → length (front flatpak adb serial) ≤ 5
front-short true adb none = omega arith
front-short true adb (some serial) = omega arith
front-short false adb none = omega arith
front-short false adb (some serial) = omega arith

-- The array once the arguments in front are written.
front-filled :
    (f : List (List ℕ))
    → length f ≤ 5
    → put_args (some (replicate 32 none)) 0 f ≡ some (filled f (32 - length f))
front-filled f h =
    ap (λ n. put_args (some (replicate n none)) 0 f) {x = 32} {y = length f + (32 - length f)}
      (omega arith)
    ∙ put_args-filled [] f (32 - length f)

-- The caller's arguments and NULL, behind those in front.
rest-fits :
    (f args : List (List ℕ)) (room : ℕ)
    → 32 - length f ≡ length args + suc room
    → put_arg
        (put_args (some (filled f (32 - length f))) (length f) args)
        (length args + length f)
        none
      ≡ some (filled (f ++ args) (suc room))
rest-fits f args room h =
    ap (λ n. put_arg (put_args (some (filled f n)) (length f) args) (length args + length f) none) h
    ∙ ap (λ c. put_arg c (length args + length f) none) (put_args-filled f args (suc room))
    ∙ ap (λ n. put_arg (some (filled (f ++ args) (suc room))) n none) {y = length (f ++ args)}
        (omega (arith, length-append {0} f args))
    ∙ put_arg-filled (f ++ args) room none

rest-overruns :
    (f args : List (List ℕ))
    → length f ≤ 5
    → 32 ≤ length f + length args
    → put_arg
        (put_args (some (filled f (32 - length f))) (length f) args)
        (length args + length f)
        none
      ≡ none
unfolding put_arg
rest-overruns f args h k = elim (Bool-cases (length f + length args == 32)) [
  | inl e ↦
      let full : 32 - length f ≡ length args + 0 = ground (arith, e) in
      ap (λ n. put_arg (put_args (some (filled f n)) (length f) args) (length args + length f) none)
        full
      ∙ ap (λ c. put_arg c (length args + length f) none) (put_args-filled f args 0)
      ∙ put_arg-full (f ++ args) none (length args + length f)
          (omega (arith, length-append {0} f args))
  | inr e ↦
      let more : 32 - length f < length args = ground (arith, e) in
      ap (λ c. put_arg c (length args + length f) none) (put_args-full f args (32 - length f) more)
]

adb_execute-cases :
    (adb : List ℕ) (flatpak : Bool) (serial : Option (List ℕ)) (adb_cmd : List (List ℕ))
    → let args = front flatpak adb serial ++ adb_cmd in
      (length args < 32
        → adb_execute (some adb) flatpak serial adb_cmd
          ≡ execute (map some args ++ replicate (32 - length args) none))
      × (32 ≤ length args
          → length adb_cmd ≤ 250
          → adb_execute (some adb) flatpak serial adb_cmd ≡ overrun)
      × (250 < length adb_cmd → adb_execute (some adb) flatpak serial adb_cmd ≡ refused)
unfolding adb_execute command_of
adb_execute-cases adb flatpak serial adb_cmd =
    let f = front flatpak adb serial in
    let short = front-short flatpak adb serial in
    let both = length-append {0} f adb_cmd in
    let start =
      ap
        (λ c. command_of (put_arg (put_args c (length f) adb_cmd) (length adb_cmd + length f) none))
        (front-filled f short) in
    (
      (λ h.
          let few : ltb (32 * 8 - 6) (length adb_cmd) ≡ false = ground (arith, h, both) in
          rw (adb_execute, few)
            (start
              ∙ ap command_of
                  (rest-fits f adb_cmd (31 - length (f ++ adb_cmd)) (omega (arith, both)))
              ∙ ap (λ n. execute (map some (f ++ adb_cmd) ++ replicate n none))
                  {x = suc (31 - length (f ++ adb_cmd))} {y = 32 - length (f ++ adb_cmd)}
                  (omega arith))),
      (λ h k.
          let few : ltb (32 * 8 - 6) (length adb_cmd) ≡ false = ground (arith, k) in
          rw (adb_execute, few)
            (start ∙ ap command_of (rest-overruns f adb_cmd short (omega (arith, both))))),
      (λ h.
          let many : ltb (32 * 8 - 6) (length adb_cmd) ≡ true = ground (arith, h) in
          rw (adb_execute, many) refl),
    )

-- Where adb is known, a command of more than 250 arguments is refused; else the array is the
-- arguments behind those in front, if these and the NULL fit in its 32 entries, and the array is
-- left if they do not.
pub adb_execute-array :
    (adb : List ℕ) (flatpak : Bool) (serial : Option (List ℕ)) (adb_cmd : List (List ℕ))
    → let args = front flatpak adb serial ++ adb_cmd in
      adb_execute (some adb) flatpak serial adb_cmd ≡ (
        if ltb 250 (length adb_cmd)
        then refused
        else if ltb (length args) 32
        then execute (map some args ++ replicate (32 - length args) none)
        else overrun)
adb_execute-array adb flatpak serial adb_cmd =
    let args = front flatpak adb serial ++ adb_cmd in
    let (fits, leaves, refuses) = adb_execute-cases adb flatpak serial adb_cmd in
    if-cases (λ c. adb_execute (some adb) flatpak serial adb_cmd ≡ c) (ltb 250 (length adb_cmd))
      refused
      (if ltb (length args) 32
        then execute (map some args ++ replicate (32 - length args) none)
        else overrun)
      (λ many. refuses (ground (arith, many)))
      (λ few.
        if-cases (λ c. adb_execute (some adb) flatpak serial adb_cmd ≡ c) (ltb (length args) 32)
          (execute (map some args ++ replicate (32 - length args) none)) overrun
          (λ e. fits (ground (arith, e))) (λ e. leaves (ground (arith, e)) (ground (arith, few))))
