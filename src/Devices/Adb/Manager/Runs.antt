-- ===== src/Devices/Adb/Manager/Runs.antt =====
-- The commands that `AdbMgr` of src/device_discovery.cc runs.
use droidcam_whip_c.Common.{
  ◌∙◌, ◌||◌, ◌-◌, ◌*◌, ℕ, zero, suc, ◌+◌, ◌≤◌, ◌≡◌, refl, Bool, true, false, List, [], ◌∷◌, ◌++◌,
  Option, none, some, arith, All, length, if-cases, if◌then◌else◌, ltb, length-append, replicate,
  map,
}
use droidcam_whip_c.Devices.Adb.Commands.{Command, refused, overrun, execute, adb_execute, front}
use droidcam_whip_c.Devices.Adb.Commands.Arrays.{adb_execute-array, front-short}
use droidcam_whip_c.Devices.Adb.Manager.{
  adb_calls, clear_call, adb_text, forward_call, remove_text, AdbCall, version_text,
  start_server_text, clear_forwards, forward_text, AdbMgr, add_forward, adb_call, new_adb_mgr,
  find_adb, run_adb, remove_forwards, AdbEnv,
}
use droidcam_whip_c.Devices.{strncmp_equal}

-- A command that is run with an array that holds it, or for lack of adb is not run.
abbrev pub IsInside : Command → Type 0
IsInside refused = Unit
IsInside overrun = ⊥
IsInside (execute cmd) = Unit

abbrev pub AllInside : List Command → Type 0
AllInside commands = All IsInside commands

adb_execute-IsInside :
    (exe : Option (List ℕ)) (flatpak : Bool) (serial : Option (List ℕ)) (args : List (List ℕ))
    → length args ≤ 26
    → IsInside (adb_execute exe flatpak serial args)
unfolding adb_execute
adb_execute-IsInside none flatpak serial args h =
    if-cases IsInside (ltb (32 * 8 - 6) (length args)) refused refused (λ e. tt) (λ e. tt)
adb_execute-IsInside (some adb) flatpak serial args h =
    let f = front flatpak adb serial in
    let short = front-short flatpak adb serial in
    let both = length-append {0} f args in
    rw (adb_execute-array adb flatpak serial args) (
      if-cases IsInside (ltb 250 (length args)) refused
        (if ltb (length (f ++ args)) 32
          then execute (map some (f ++ args) ++ replicate (32 - length (f ++ args)) none)
          else overrun)
        (λ e. tt)
        (λ e.
          if-cases IsInside (ltb (length (f ++ args)) 32)
            (execute (map some (f ++ args) ++ replicate (32 - length (f ++ args)) none)) overrun
            (λ g. tt) (λ g. absurd (ground (arith, g, both, short, h)))))

module _ (env : AdbEnv) where
  run_adb-AllInside :
      (serial : Option (List ℕ)) (args : List (List ℕ)) (m : AdbMgr)
      → length args ≤ 26
      → AllInside m.commands
      → AllInside (run_adb env serial args m).1.commands
  unfolding run_adb
  run_adb-AllInside serial args m h a = (adb_execute-IsInside m.exe env.flatpak serial args h, a)

  find_adb-AllInside :
      (variants : List (Option (List ℕ))) (m : AdbMgr)
      → AllInside m.commands
      → AllInside (find_adb env variants m).commands
  unfolding find_adb
  find_adb-AllInside [] m a = a
  find_adb-AllInside (none ∷ variants) m a = find_adb-AllInside variants (record m { exe = none }) a
  find_adb-AllInside (some exe ∷ variants) m a =
      let tried : AdbMgr = record m { exe = some exe } in
      let (found, m') = run_adb env none (version_text ∷ []) tried in
      let b : AllInside m'.commands =
        run_adb-AllInside none (version_text ∷ []) tried (omega arith) a in
      if-cases (λ (r : AdbMgr). AllInside r.commands)
        (strncmp_equal exe adb_text 3 || env.file_exists exe)
        (if found then record m' { disabled = false } else find_adb env variants m')
        (find_adb env variants tried)
        (λ e.
          if-cases (λ (r : AdbMgr). AllInside r.commands) found (record m' { disabled = false })
            (find_adb env variants m') (λ g. b) (λ g. find_adb-AllInside variants m' b))
        (λ e. find_adb-AllInside variants tried a)

  new_adb_mgr-AllInside :
      (variants : List (Option (List ℕ))) → AllInside (new_adb_mgr env variants).commands
  unfolding new_adb_mgr
  new_adb_mgr-AllInside variants =
      let m = find_adb env variants (record { exe = none; disabled = true; commands = [] }) in
      let a =
        find_adb-AllInside variants (record { exe = none; disabled = true; commands = [] }) tt in
      if-cases (λ (r : AdbMgr). AllInside r.commands) m.disabled m
        (run_adb env none (start_server_text ∷ []) m).1 (λ e. a)
        (λ e. run_adb-AllInside none (start_server_text ∷ []) m (omega arith) a)

  remove_forwards-AllInside :
      (n port : ℕ) (m : AdbMgr)
      → AllInside m.commands
      → AllInside (remove_forwards env n port m).commands
  unfolding remove_forwards
  remove_forwards-AllInside zero port m a = a
  remove_forwards-AllInside (suc n) port m a =
      remove_forwards-AllInside n (port + 1)
        (run_adb env none (forward_text ∷ remove_text ∷ env.tcp port ∷ []) m).1
        (run_adb-AllInside none (forward_text ∷ remove_text ∷ env.tcp port ∷ []) m (omega arith) a)

  remove_forwards-same :
      (n port : ℕ) (m : AdbMgr) → (remove_forwards env n port m).disabled ≡ m.disabled
  unfolding remove_forwards run_adb
  remove_forwards-same zero port m = refl
  remove_forwards-same (suc n) port m =
      remove_forwards-same n (port + 1)
        (run_adb env none (forward_text ∷ remove_text ∷ env.tcp port ∷ []) m).1

-- What calls leave of a manager: one that is disabled runs nothing more.
Leaves : AdbMgr → AdbMgr → Type 0
Leaves m r =
    AllInside r.commands × (r.disabled ≡ m.disabled) × (m.disabled ≡ true → r.commands ≡ m.commands)

module _ (env : AdbEnv) where
  adb_call-Leaves : (c : AdbCall) (m : AdbMgr) → AllInside m.commands → Leaves m (adb_call env c m)
  unfolding adb_call add_forward clear_forwards run_adb Leaves
  adb_call-Leaves (forward_call serial local_port remote_port) m a =
      let args = forward_text ∷ env.tcp local_port ∷ env.tcp remote_port ∷ [] in
      if-cases (λ (x : Bool × AdbMgr). Leaves m x.1) m.disabled (false, m)
        (run_adb env (some serial) args m) (λ e. (a, refl, λ g. refl))
        (λ e. (
          run_adb-AllInside env (some serial) args m (omega arith) a,
          refl,
          λ g. absurd (ground (arith, e, g)),
        ))
  adb_call-Leaves (clear_call port_start port_last) m a =
      let n = port_last + 1 - port_start in
      if-cases (Leaves m) m.disabled m (remove_forwards env n port_start m)
        (λ e. (a, refl, λ g. refl))
        (λ e. (
          remove_forwards-AllInside env n port_start m a,
          remove_forwards-same env n port_start m,
          λ g. absurd (ground (arith, e, g)),
        ))

  adb_calls-Leaves :
      (calls : List AdbCall) (m : AdbMgr) → AllInside m.commands → Leaves m (adb_calls env calls m)
  unfolding adb_calls Leaves
  adb_calls-Leaves [] m a = (a, refl, λ g. refl)
  adb_calls-Leaves (c ∷ calls) m a =
      let (b, d, k) = adb_call-Leaves c m a in
      let (b', d', k') = adb_calls-Leaves calls (adb_call env c m) b in
      (b', d' ∙ d, λ g. k' (d ∙ g) ∙ k g)

-- Whatever adb and the system answer, after the constructor and any calls of `AddForward` and
-- `ClearForwards`: every command was built inside of its array, and a manager whose constructor
-- found no adb has run nothing but what its constructor ran.
pub adb_calls-AllInside :
    (env : AdbEnv) (variants : List (Option (List ℕ))) (calls : List AdbCall)
    → let new = new_adb_mgr env variants in
      let m = adb_calls env calls new in
      AllInside m.commands
      × (m.disabled ≡ new.disabled)
      × (m.commands ≡ (if new.disabled then new.commands else m.commands))
unfolding Leaves
adb_calls-AllInside env variants calls =
    let new = new_adb_mgr env variants in
    let (a, d, k) = adb_calls-Leaves env calls new (new_adb_mgr-AllInside env variants) in
    let m = adb_calls env calls new in
    (
      a,
      d,
      if-cases (λ (c : List Command). m.commands ≡ c) new.disabled new.commands m.commands k
          (λ e. refl),
    )
