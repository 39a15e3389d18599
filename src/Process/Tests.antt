-- ===== src/Process/Tests.antt =====
-- Tests of src/sys/unix/cmd.cc.
use droidcam_whip_c.Common.{ℕ, zero, suc, ◌≤◌, arith, [], ◌∷◌, true, false, some, ◌≡◌, refl}
use droidcam_whip_c.Net.{Received, got}
use droidcam_whip_c.Frame.{write_at}
use droidcam_whip_c.Process.{
  Kernel, success, cmd_execute, process_check_success, drain, close_ends, exited,
}
use droidcam_whip_c.Process.Pipe.{Finishes, ends_of, cmd_execute-Finishes}

-- A child that writes two lines, one after the other.
abbrev reads : ℕ → Received
reads zero = got (97 ∷ 10 ∷ [])
reads (suc zero) = got (98 ∷ 10 ∷ [])
reads (suc (suc n)) = got []

abbrev kernel : Kernel
kernel = record { pipes = true; forks = some 77; reads = λ j n. reads j }

-- What the first `read` gives is all that the caller gets: the second line is thrown away.
first_chunk_test :
    cmd_execute kernel 4 (some (1 ∷ 1 ∷ 1 ∷ 1 ∷ 1 ∷ 1 ∷ [])) 6
    ≡ some (
      success,
      record {
        write_end = false;
        closed = true ∷ false ∷ [];
        reads_done = 3;
        out = some (97 ∷ 10 ∷ 0 ∷ 1 ∷ 1 ∷ 1 ∷ []);
      },
    )
unfolding cmd_execute drain close_ends write_at
first_chunk_test = refl

wait_test : process_check_success (some (exited 1)) ≡ false
unfolding process_check_success
wait_test = refl

reads_end : (j : ℕ) → 2 ≤ j → reads j ≡ got []
reads_end zero h = absurd (omega arith)
reads_end (suc zero) h = absurd (omega arith)
reads_end (suc (suc j)) h = refl

cmd_execute-Finishes_example :
    Finishes (ends_of true (some 77)) 6 (cmd_execute kernel 4 (some (1 ∷ 1 ∷ 1 ∷ 1 ∷ 1 ∷ 1 ∷ [])) 6)
cmd_execute-Finishes_example =
    cmd_execute-Finishes kernel 2 (λ j n h. reads_end j h) 4 6 (some (1 ∷ 1 ∷ 1 ∷ 1 ∷ 1 ∷ 1 ∷ []))
      (omega arith) refl
