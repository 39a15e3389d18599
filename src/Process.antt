-- ===== src/Process.antt =====
-- src/sys/unix/cmd.cc: `cmd_execute` in the parent process and `cmd_simple_wait`; and
-- `process_check_success` of src/device_discovery.cc. The calls of the system are parameters.
pub mod Pipe
mod Tests
use droidcam_whip_c.Common.{
  ℕ, zero, suc, ◌-◌, ◌+◌, Bool, true, false, not, ◌&&◌, ◌==◌, ltb, leb, List, [], ◌∷◌, Option, none,
  some, length, set, if◌then◌else◌,
}
use droidcam_whip_c.Common.Int.{ℤ, pos, negsuc}
use droidcam_whip_c.Frame.{write_at}
use droidcam_whip_c.Net.{Received, got, broken}

pub data Result : Type 0 where
  success error_generic missing_binary : Result

-- The ends of the pipe that are closed, the latest first: `true` is the one to read from.
pub record Kernel : Type 0 where
  pub pipes : Bool
  pub forks : Option ℕ
  pub reads : ℕ → ℕ → Received

-- What the parent has: `fd[1]` may be -1, the pipe's ends that it closed, the calls of `read` so
-- far, and the buffer of the caller, if it gave one.
pub record Parent : Type 0 where
  pub write_end : Bool
  pub closed : List Bool
  pub reads_done : ℕ
  pub out : Option (List ℕ)

-- From the label `end`.
unfoldable pub close_ends : Parent → Parent
close_ends p =
    let q = record p { closed = true ∷ p.closed } in
    if q.write_end then record q { closed = false ∷ q.closed } else q

module _ (k : Kernel) where
  -- The loop that empties the pipe; an error is -1, which is more than 0 as a `size_t`, so that it
  -- goes on. `none` means that the fuel ran out.
  unfoldable pub drain : ℕ → Parent → Option Parent
  drain zero p = none
  drain (suc fuel) p =
      let q = record p { reads_done = suc p.reads_done } in
      elim (k.reads p.reads_done 256) [
        | got [] ↦ some q
        | got (b ∷ bs) ↦ drain fuel q
        | broken ↦ drain fuel q
      ]

  finish_read : ℕ → Parent → Option (Result × Parent)
  finish_read fuel p = elim (drain fuel p) [ none ↦ none | some q ↦ some (success, close_ends q) ]

  terminate : ℕ → Option (List ℕ) → Option (List ℕ)
  terminate n none = none
  terminate n (some out) = write_at out n (0 ∷ [])

  -- What the first `read` gave, with its NUL; nothing comes of a write outside of the buffer.
  store : List ℕ → List ℕ → Option (List ℕ)
  unfolding terminate
  store out [] = some out
  store out (b ∷ bs) = terminate (length (b ∷ bs)) (write_at out 0 (b ∷ bs))

  stored : ℕ → Parent → Option (List ℕ) → Option (Result × Parent)
  unfolding finish_read
  stored fuel p none = none
  stored fuel p (some out) = finish_read fuel (record p { out = some out })

  -- -1 as a `size_t` is no less than `out_size`.
  first_read : ℕ → ℕ → List ℕ → Parent → Received → Option (Result × Parent)
  unfolding stored store
  first_read fuel out_size out p broken = some (error_generic, close_ends p)
  first_read fuel out_size out p (got bytes) =
      if leb out_size (length bytes)
      then some (error_generic, close_ends p)
      else stored fuel p (store out bytes)

  -- The parent behind `close(fd[1])`.
  read_child : ℕ → ℕ → Parent → Option (List ℕ) → Option (Result × Parent)
  unfolding first_read
  read_child fuel out_size p none = finish_read fuel p
  read_child fuel out_size p (some out) =
      if ltb 2 out_size
      then first_read fuel out_size out (record p { reads_done = suc p.reads_done })
          (k.reads p.reads_done (out_size - 1))
      else finish_read fuel p

  parent : ℕ → ℕ → Parent → Option ℕ → Option (Result × Parent)
  unfolding read_child
  parent fuel out_size p none = some (error_generic, close_ends p)
  parent fuel out_size p (some pid) =
      read_child fuel out_size (record p { write_end = false; closed = false ∷ p.closed }) p.out

  with_pipe : ℕ → ℕ → Parent → Bool → Option (Result × Parent)
  unfolding parent
  with_pipe fuel out_size p true = parent fuel out_size p k.forks
  with_pipe fuel out_size p false = some (error_generic, p)

  -- `cmd_execute` as the parent sees it, with the buffer that it gave.
  unfoldable pub cmd_execute : ℕ → Option (List ℕ) → ℕ → Option (Result × Parent)
  unfolding with_pipe
  cmd_execute fuel out out_size =
      with_pipe fuel out_size (record { write_end = true; closed = []; reads_done = 0; out = out })
        k.pipes

-- What `waitpid` gives: an error, a process that did not exit by itself, or its exit status.
pub data Waited : Type 0 where
  failed signalled : Waited
  exited : ℕ → Waited

-- `cmd_simple_wait`: the value returned and `*exit_code`.
unfoldable pub cmd_simple_wait : Waited → Bool × ℤ
cmd_simple_wait failed = (false, negsuc 0)
cmd_simple_wait signalled = (false, negsuc 0)
cmd_simple_wait (exited n) = (n == 0, pos n)

-- `none` is PROCESS_NONE.
unfoldable pub process_check_success : Option Waited → Bool
unfolding cmd_simple_wait
process_check_success none = false
process_check_success (some w) = (cmd_simple_wait w).0
