-- ===== src/Process/Pipe.antt =====
-- The pipe and the buffer of `cmd_execute` in src/sys/unix/cmd.cc.
use droidcam_whip_c.Common.{
  sym, ◌∙◌, inr, ap, Bool-cases, inl, ◌⊎◌, ◌≢◌, ℕ, zero, suc, ◌+◌, ◌≤◌, ◌<◌, Bool, true, false,
  List, [], ◌∷◌, Option, none, some, ◌≡◌, refl, length, if-cases, arith, leb, ltb,
}
use droidcam_whip_c.Net.{Received, got, broken}
use droidcam_whip_c.Process.{
  terminate, with_pipe, parent, error_generic, read_child, stored, first_read, store, finish_read,
  Kernel, Parent, Result, success, close_ends, drain, cmd_execute,
}
use droidcam_whip_c.Frame.Safety.{write_at_fits}

-- The pipe is at its end from some call of `read` on.
abbrev pub EndsAt : Kernel → ℕ → Type 0
EndsAt k m = (j n : ℕ) → m ≤ j → k.reads j n ≡ got []

abbrev pub HasLength : ℕ → Option (List ℕ) → Type 0
HasLength n none = Unit {0}
HasLength n (some out) = length out ≡ n

-- The ends were closed in this order, the latest first, and the buffer has its length.
abbrev pub Finishes : List Bool → ℕ → Option (Result × Parent) → Type 0
Finishes c n none = ⊥
Finishes c n (some (r, p)) = (p.closed ≡ c) × HasLength n p.out

-- Each end is closed once, if there was a pipe.
abbrev pub ends_of : Bool → Option ℕ → List Bool
ends_of false pid = []
ends_of true none = false ∷ true ∷ []
ends_of true (some pid) = true ∷ false ∷ []

HasLength-same : (n : ℕ) (a b : Option (List ℕ)) → a ≡ b → HasLength n b → HasLength n a
HasLength-same n a b e h = rw e h

-- Behind `close(fd[1])` only the other end is left.
close_ends-Finishes :
    (r : Result) (q : Parent) (n : ℕ)
    → q.write_end ≡ false
    → q.closed ≡ false ∷ []
    → HasLength n q.out
    → Finishes (true ∷ false ∷ []) n (some (r, close_ends q))
unfolding close_ends
close_ends-Finishes r q n w c o =
    if-cases (λ (x : Parent). (x.closed ≡ true ∷ false ∷ []) × HasLength n x.out) q.write_end _ _
      (λ e. absurd (ground arith)) (λ _. (ap (λ l. true ∷ l) c, o))

ltb-cases : (a b : ℕ) → (a < b) ⊎ (b ≤ a)
ltb-cases a b = elim (Bool-cases (ltb a b)) [
  | inl e ↦ inl (ground arith)
  | inr e ↦ inr (ground arith)
]

module _ (k : Kernel) (m : ℕ) (ends : EndsAt k m) where
  drain_ends :
      (fuel : ℕ) (p : Parent)
      → m < fuel + p.reads_done
      → 0 < fuel
      → (q : Parent) × (drain k fuel p ≡ some q)
        × (q.closed ≡ p.closed)
        × (q.write_end ≡ p.write_end)
        × q.out ≡ p.out
  unfolding drain
  drain_ends zero p h g = absurd (omega arith)
  drain_ends (suc fuel) p h g =
      go (drain_ends fuel (record p { reads_done = suc p.reads_done })) (k.reads p.reads_done 256)
        refl
    where
      late : (r : Received) → k.reads p.reads_done 256 ≡ r → r ≢ got [] → p.reads_done < m
      late r e n = elim (ltb-cases p.reads_done m) [
        | inl l ↦ l
        | inr l ↦ elim (n (sym e ∙ ends p.reads_done 256 l)) [ ]
      ]

      go :
          (m < fuel + suc p.reads_done
            → 0 < fuel
            → (q : Parent) × (drain k fuel (record p { reads_done = suc p.reads_done }) ≡ some q)
              × (q.closed ≡ p.closed)
              × (q.write_end ≡ p.write_end)
              × q.out ≡ p.out)
          → (r : Received) → k.reads p.reads_done 256 ≡ r
          → (q : Parent) × (drain k (suc fuel) p ≡ some q)
            × (q.closed ≡ p.closed)
            × (q.write_end ≡ p.write_end)
            × q.out ≡ p.out
      go rec (got []) e =
          (record p { reads_done = suc p.reads_done }, rw (drain, e) refl, refl, refl, refl)
      go rec (got (b ∷ bs)) e =
          let l = late (got (b ∷ bs)) e (λ x. ground arith) in
          let (q, d, x, y, z) = rec (omega arith) (omega arith) in (q, rw (drain, e) d, x, y, z)
      go rec broken e =
          let l = late broken e (λ x. ground arith) in
          let (q, d, x, y, z) = rec (omega arith) (omega arith) in (q, rw (drain, e) d, x, y, z)

  finish_read-Finishes :
      (fuel : ℕ) (p : Parent) (n : ℕ)
      → m < fuel
      → p.write_end ≡ false
      → p.closed ≡ false ∷ []
      → HasLength n p.out
      → Finishes (true ∷ false ∷ []) n (finish_read k fuel p)
  unfolding finish_read
  finish_read-Finishes fuel p n h w c o = go (drain_ends fuel p (omega arith) (omega arith))
    where
      go :
          (q : Parent) × (drain k fuel p ≡ some q)
            × (q.closed ≡ p.closed)
            × (q.write_end ≡ p.write_end)
            × q.out ≡ p.out
          → Finishes (true ∷ false ∷ []) n (finish_read k fuel p)
      go (q, d, x, y, z) =
          rw (finish_read, d)
            (close_ends-Finishes success q n (y ∙ w) (x ∙ c) (HasLength-same n q.out p.out z o))

  store_fits :
      (out bytes : List ℕ)
      → length bytes < length out
      → (out' : List ℕ) × (store k out bytes ≡ some out') × length out' ≡ length out
  unfolding store terminate
  store_fits out [] h = (out, refl, refl)
  store_fits out (b ∷ bs) h =
      let (a, e, l) = write_at_fits out 0 (b ∷ bs) (omega arith) in
      let (c, f, x) = write_at_fits a (length (b ∷ bs)) (0 ∷ []) (omega arith) in
      (c, ap (terminate k (length (b ∷ bs))) e ∙ f, x ∙ l)

  stored-Finishes :
      (fuel : ℕ) (p : Parent) (n : ℕ) (out : List ℕ)
      → m < fuel
      → p.write_end ≡ false
      → p.closed ≡ false ∷ []
      → length out ≡ n
      → Finishes (true ∷ false ∷ []) n (stored k fuel p (some out))
  unfolding stored
  stored-Finishes fuel p n out h w c o =
      finish_read-Finishes fuel (record p { out = some out }) n h w c o

  first_read-Finishes :
      (fuel : ℕ) (p : Parent) (out : List ℕ) (r : Received)
      → m < fuel
      → p.write_end ≡ false
      → p.closed ≡ false ∷ []
      → p.out ≡ some out
      → Finishes (true ∷ false ∷ []) (length out) (first_read k fuel (length out) out p r)
  unfolding first_read
  first_read-Finishes fuel p out broken h w c o =
      close_ends-Finishes error_generic p (length out) w c
        (HasLength-same (length out) p.out (some out) o refl)
  first_read-Finishes fuel p out (got bytes) h w c o =
      if-cases (Finishes (true ∷ false ∷ []) (length out)) (leb (length out) (length bytes)) _ _
        (λ _.
          close_ends-Finishes error_generic p (length out) w c
            (HasLength-same (length out) p.out (some out) o refl))
        (λ e.
          let (out', f, l) = store_fits out bytes (ground arith) in
          rw f (stored-Finishes fuel p (length out) out' h w c l))

  read_child-Finishes :
      (fuel n : ℕ) (p : Parent) (o : Option (List ℕ))
      → m < fuel
      → p.write_end ≡ false
      → p.closed ≡ false ∷ []
      → p.out ≡ o
      → HasLength n o
      → Finishes (true ∷ false ∷ []) n (read_child k fuel n p o)
  unfolding read_child
  read_child-Finishes fuel n p none h w c e l =
      finish_read-Finishes fuel p n h w c (HasLength-same n p.out none e tt)
  read_child-Finishes fuel n p (some out) h w c e l =
      if-cases (Finishes (true ∷ false ∷ []) n) (ltb 2 n) _ _
        (λ _.
          rw⁻¹ l
            (first_read-Finishes fuel (record p { reads_done = suc p.reads_done }) out _ h w c e))
        (λ _. finish_read-Finishes fuel p n h w c (HasLength-same n p.out (some out) e l))

  parent-Finishes :
      (fuel n : ℕ) (p : Parent) (pid : Option ℕ)
      → m < fuel
      → p.write_end ≡ true
      → p.closed ≡ []
      → HasLength n p.out
      → Finishes (ends_of true pid) n (parent k fuel n p pid)
  unfolding parent close_ends
  parent-Finishes fuel n p none h w c l =
      if-cases (λ (x : Parent). (x.closed ≡ false ∷ true ∷ []) × HasLength n x.out) p.write_end _ _
        (λ _. (ap (λ x. false ∷ true ∷ x) c, l)) (λ e. absurd (ground arith))
  parent-Finishes fuel n p (some pid) h w c l =
      read_child-Finishes fuel n (record p { write_end = false; closed = false ∷ p.closed }) p.out h
        refl (ap (λ x. false ∷ x) c) refl l

  with_pipe-Finishes :
      (fuel n : ℕ) (p : Parent) (b : Bool)
      → m < fuel
      → p.write_end ≡ true
      → p.closed ≡ []
      → HasLength n p.out
      → Finishes (ends_of b k.forks) n (with_pipe k fuel n p b)
  unfolding with_pipe
  with_pipe-Finishes fuel n p true h w c l = parent-Finishes fuel n p k.forks h w c l
  with_pipe-Finishes fuel n p false h w c l = (c, l)

-- If the pipe is at its end from the m-th read on, then with fuel for more reads than that
-- cmd_execute returns, whatever the other calls of the system answer: it has closed each end of the
-- pipe once, if there was a pipe, and it has written inside of a buffer that is as long as the
-- caller says.
pub cmd_execute-Finishes :
    (k : Kernel) (m : ℕ)
    → EndsAt k m
    → (fuel n : ℕ) (out : Option (List ℕ)) → m < fuel
    → HasLength n out
    → Finishes (ends_of k.pipes k.forks) n (cmd_execute k fuel out n)
unfolding cmd_execute
cmd_execute-Finishes k m ends fuel n out h l =
    with_pipe-Finishes k m ends fuel n _ k.pipes h refl refl l
