-- ===== src/Source/Ports.antt =====
-- The local ports of an ADB device's forwards in `connect_device` of src/source.cc.
use droidcam_whip_c.Common.{
  true, sym, Bool, ap, refl, ◌∙◌, ◌<◌, ◌%◌, ◌+◌, arith, ◌≤◌, zero, [], false, suc, ◌∷◌, ℕ, List,
  Option, some, none, ◌≡◌,
}
use droidcam_whip_c.Source.{
  connect_kind, port_last, adb, add_forward, port_start, connect_device, Source, Event, Env,
  connect_forward, connect_adb, choose_port, connect_to,
}

-- The local port of the latest forward that was asked for.
abbrev pub forwarded : List Event → Option ℕ
forwarded [] = none
forwarded (add_forward local remote ok ∷ es) = some local
forwarded (e ∷ es) = forwarded es

-- The latest forward: its local port, whether it worked, and the events before it.
abbrev pub latest_forward : List Event → Option (ℕ × Bool × List Event)
latest_forward [] = none
latest_forward (add_forward local remote ok ∷ es) = some (local, ok, es)
latest_forward (e ∷ es) = latest_forward es

-- Where a forward leaves the port: there if it worked, and behind it, without a socket, if not.
abbrev pub Moves : Bool → ℕ → Source → Type 0
Moves true local t = t.usb_port ≡ local
Moves false local t = (t.usb_port ≡ local + 1) × t.sock ≡ none

-- `connect_device` called again and again.
abbrev pub tries : Env → ℕ → Source → Source
tries env zero s = s
tries env (suc n) s = connect_device env (tries env n s)

connect_device_forward :
    (env : Env) (iter : ℕ) (s : Source)
    → s.kind ≡ adb
    → env.finds s.events ≡ some (iter, false)
    → connect_device env s ≡ connect_forward env (choose_port s iter) iter
unfolding connect_device connect_kind connect_adb
connect_device_forward env iter s k f =
    ap (λ kind. connect_kind env kind s) k ∙ rw (connect_adb, f) refl

module _ (env : Env) (iter : ℕ) where
  choose_port_bounds :
      (s : Source)
      → port_start s iter ≤ (choose_port s iter).usb_port
        × (choose_port s iter).usb_port ≤ port_last s iter
  unfolding choose_port
  choose_port_bounds s = ground arith

  -- What a try leads to: the forward is at a port of the device's nine, its result is what adb
  -- answers to it, and the port moves by that result.
  abbrev pub Forwards : Source → Source → Type 0
  Forwards s t =
      (local : ℕ) × (ok : Bool) × (es : List Event) × (latest_forward t.events
        ≡ some (local, ok, es))
      × (ok ≡ env.forwards es local)
      × port_start s iter ≤ local
      × local ≤ port_last s iter
      × Moves ok local t

  connect_forward-Forwards :
      (s : Source)
      → port_start s iter ≤ s.usb_port
      → s.usb_port ≤ port_last s iter
      → Forwards s (connect_forward env s iter)
  unfolding connect_forward connect_to
  connect_forward-Forwards s l h = go (env.forwards s.events s.usb_port) refl
    where
      go :
          (b : Bool)
          → env.forwards s.events s.usb_port ≡ b
          → Forwards s (connect_forward env s iter)
      go true e = (s.usb_port, true, s.events, ground arith, sym e, l, h, ground arith)
      go false e =
          (s.usb_port, false, s.events, ground arith, sym e, l, h, (ground arith, ground arith))

  same-start : (s : Source) → (choose_port s iter).port ≡ s.port
  unfolding choose_port
  same-start s = ground arith

  -- A call for an ADB device that is found and online asks adb for a forward at one of the nine
  -- ports of that device, whatever port was used before; if adb answers that the forward failed,
  -- the call leaves no socket and moves on to the port behind it, and otherwise the port stays.
  pub connect_device-Forwards :
      (s : Source)
      → s.kind ≡ adb
      → env.finds s.events ≡ some (iter, false)
      → Forwards s (connect_device env s)
  connect_device-Forwards s k f =
      let c = choose_port s iter in
      let (l, h) = choose_port_bounds s in
      let e = same-start s in
      let (local, ok, es, g, r, a, b, m) = connect_forward-Forwards c (omega arith) (omega arith) in
      rw (connect_device_forward env iter s k f) (local, ok, es, g, r, omega arith, omega arith, m)

-- What a refused forward leads to, by the port that was chosen.
abbrev pub Refuses : Source → Source → ℕ → Type 0
Refuses s t local =
    (forwarded t.events ≡ some local) × t.usb_port ≡ local + 1 × t.kind ≡ s.kind × t.port ≡ s.port

module _ (env : Env) (iter : ℕ) (online : (es : List Event) → env.finds es ≡ some (iter, false))
    (refused : (es : List Event) (port : ℕ) → env.forwards es port ≡ false) where
  connect_forward-Refuses : (s : Source) → Refuses s (connect_forward env s iter) s.usb_port
  unfolding connect_forward
  connect_forward-Refuses s =
      rw (connect_forward, refused s.events s.usb_port) (refl, refl, refl, refl)

  same-choose_port :
      (s : Source) → ((choose_port s iter).kind ≡ s.kind) × (choose_port s iter).port ≡ s.port
  unfolding choose_port
  same-choose_port s = ground arith

  connect_device-Refuses :
      (s : Source) → s.kind ≡ adb → Refuses s (connect_device env s) (choose_port s iter).usb_port
  connect_device-Refuses s k =
      let (g, u, a, b) = connect_forward-Refuses (choose_port s iter) in
      let (a', b') = same-choose_port s in
      rw (connect_device_forward env iter s k (online s.events)) (g, u, a ∙ a', b ∙ b')

  -- Where the choice falls: on the port itself while it is one of the nine, else on the first.
  choose_port_next :
      (s : Source) (n : ℕ)
      → s.usb_port ≡ port_start s iter + n % 9 + 1
      → (choose_port s iter).usb_port ≡ port_start s iter + suc n % 9
  unfolding choose_port
  choose_port_next s n e = ground arith

  choose_port_first :
      (s : Source)
      → s.usb_port < port_start s iter
      → (choose_port s iter).usb_port ≡ port_start s iter
  unfolding choose_port
  choose_port_first s l = ground arith

  -- While an ADB device stays online and every forward is refused, the calls of `connect_device`
  -- ask for its nine ports in turn, the first one again behind the last.
  pub tries_rotate :
      (n : ℕ) (s : Source)
      → s.kind ≡ adb
      → s.usb_port < port_start s iter
      → Refuses s (tries env (suc n) s) (port_start s iter + n % 9)
  tries_rotate zero s k l =
      let (g, u, a, b) = connect_device-Refuses s k in
      let e = choose_port_first s l in (g ∙ ap some (omega arith), omega arith, a, b)
  tries_rotate (suc n) s k l =
      let t = tries env (suc n) s in
      let (g, u, a, b) = tries_rotate n s k l in
      let (g', u', a', b') = connect_device-Refuses t (a ∙ k) in
      let e = choose_port_next t n (omega arith) in
      (g' ∙ ap some (omega arith), omega arith, a' ∙ a, b' ∙ b)
