-- ===== src/Command/Tests.antt =====
-- Tests of argv_to_string of src/device_discovery.cc.
use droidcam_whip_c.Common.{
  length, arith, true, false, [], leb, ◌∷◌, replicate, List, ℕ, some, none, ◌≡◌, refl,
}
use droidcam_whip_c.Command.{argv_to_string}
use droidcam_whip_c.Frame.{write_at}
use droidcam_whip_c.Command.Bounds.{argv_to_string_fits, argv_to_string_overruns}

-- "ab" and "c" in a buffer of eight bytes.
abbrev short_argv : List (List ℕ)
short_argv = (97 ∷ 98 ∷ []) ∷ (99 ∷ []) ∷ []

print_test :
    argv_to_string short_argv (replicate 8 1) ≡ some (97 ∷ 98 ∷ 32 ∷ 99 ∷ 0 ∷ 1 ∷ 1 ∷ 1 ∷ [], false)
unfolding argv_to_string write_at
print_test = refl

-- The text that is cut off: five bytes hold "ab" and a part of what follows.
cut_test : argv_to_string short_argv (replicate 5 1) ≡ some (97 ∷ 98 ∷ 32 ∷ 0 ∷ 1 ∷ [], true)
unfolding argv_to_string write_at
cut_test = refl

argv_to_string_fits_example :
    (text : List ℕ) × (argv_to_string short_argv (replicate 8 1) ≡ some (text, leb 8 5))
    × length text ≡ 8
argv_to_string_fits_example =
    argv_to_string_fits short_argv (replicate 8 1) (omega arith) (omega arith)
      ((λ e. absurd (omega arith)), ((λ e. absurd (omega arith)), tt))

argv_to_string_overruns_example : argv_to_string short_argv (replicate 4 1) ≡ none
argv_to_string_overruns_example =
    argv_to_string_overruns (97 ∷ 98 ∷ []) (99 ∷ []) [] (replicate 4 1) (omega arith) refl
      (omega arith)
