-- ===== src/Net/SendAll.antt =====
-- `net_send_all` of src/net.cc sends every byte, in order, or fails.
use droidcam_whip_c.Common.{
  take-add, ap, ◌+◌, take-append-drop, append_assoc, length-drop, ◌∙◌, drop, refl, [], zero, ◌∷◌,
  append-nil, sym, arith, none, take, ◌++◌, ◌<◌, some, ◌≤◌, length, Option, ℕ, suc, List, ◌≡◌,
}
use droidcam_whip_c.Net.{net_send_all, negsuc, ℤ, pos, net_send_rounds, Send}

module _ {Sock : Type 0} (send : Send Sock) (sent : Sock → List ℕ) where
  -- `send`, as documented: it takes between one byte and all of what it is given, and hands over
  -- just these after what was sent before; or it fails and takes nothing. `sent s` is what the peer
  -- has been sent.
  abbrev pub Accepts : Sock → List ℕ → Type 0
  Accepts s bytes = elim (send s bytes).0 [
    | pos n ↦ (n ≤ length bytes) × (sent (send s bytes).1 ≡ sent s ++ take n bytes)
    | negsuc n ↦ sent (send s bytes).1 ≡ sent s
  ]

  -- With one more round than bytes the loop ends: either it returns 1, and all bytes have been
  -- sent in order, or it returns -1, and a proper prefix has been sent.
  abbrev pub Outcome : Sock → List ℕ → Option (ℤ × Sock) → Type 0
  Outcome s bytes none = ⊥
  Outcome s bytes (some (pos n, s')) = (n ≡ 1) × (sent s' ≡ sent s ++ bytes)
  Outcome s bytes (some (negsuc n, s')) =
      (n ≡ 0) × ((k : ℕ) × (k < length bytes) × (sent s' ≡ sent s ++ take k bytes))

  -- An outcome for what is left after a round is one for the whole.
  extend-Outcome :
      (s s' : Sock) (bytes : List ℕ) (n : ℕ) (r : Option (ℤ × Sock))
      → n ≤ length bytes
      → sent s' ≡ sent s ++ take n bytes
      → Outcome s' (drop n bytes) r
      → Outcome s bytes r
  extend-Outcome s s' bytes n none h e o = o
  extend-Outcome s s' bytes n (some (pos k, t)) h e (one, all) =
      (one, all ∙ rw (e, append_assoc, take-append-drop n bytes))
  extend-Outcome s s' bytes n (some (negsuc k, t)) h e (one, (m, lt, part)) = (
    one,
    (
      n + m,
      omega (arith, length-drop n bytes),
      part ∙ rw (e, append_assoc) (ap (λ x. sent s ++ x) (take-add n m bytes)),
    ),
  )

  net_send_rounds-Outcome :
      ((s : Sock) (bytes : List ℕ) → Accepts s bytes)
      → (fuel : ℕ) (s : Sock) (bytes : List ℕ) → length bytes < fuel
      → Outcome s bytes (net_send_rounds send fuel s bytes)
  unfolding net_send_rounds
  net_send_rounds-Outcome ok zero s bytes h = absurd (omega arith)
  net_send_rounds-Outcome ok (suc fuel) s [] h = (refl, sym (append-nil (sent s)))
  net_send_rounds-Outcome ok (suc fuel) s (b ∷ bs) h =
      go (net_send_rounds-Outcome ok fuel) (send s (b ∷ bs)).0 refl
    where
      go :
          ((s : Sock) (bytes : List ℕ)
            → length bytes < fuel
            → Outcome s bytes (net_send_rounds send fuel s bytes))
          → (w : ℤ) → (send s (b ∷ bs)).0 ≡ w
          → Outcome s (b ∷ bs) (net_send_rounds send (suc fuel) s (b ∷ bs))
      go ih (negsuc n) e =
          rw (e, net_send_rounds)
            (
              refl,
              (0, omega arith, (rw (e, Accepts) at (ok s (b ∷ bs))) ∙ sym (append-nil (sent s))),
            )
      go ih (pos zero) e =
          rw (e, net_send_rounds) (refl, (0, omega arith, (rw (e, Accepts) at (ok s (b ∷ bs))).1))
      go ih (pos (suc n)) e =
          let (fits, took) : (suc n ≤ length (b ∷ bs))
              × (sent (send s (b ∷ bs)).1 ≡ sent s ++ take (suc n) (b ∷ bs)) =
            rw (e, Accepts) at (ok s (b ∷ bs)) in
          rw (e, net_send_rounds)
            (extend-Outcome s (send s (b ∷ bs)).1 (b ∷ bs) (suc n) _ fits took (
              ih (send s (b ∷ bs)).1 (drop (suc n) (b ∷ bs))
                (omega (arith, length-drop (suc n) (b ∷ bs)))))

  -- `net_send_all` ends, and returns 1 with every byte sent in order, or -1 with a proper prefix of
  -- them sent, if `send` takes bytes as documented.
  pub net_send_all-Outcome :
      ((s : Sock) (bytes : List ℕ) → Accepts s bytes)
      → (s : Sock) (bytes : List ℕ) → Outcome s bytes (net_send_all send s bytes)
  unfolding net_send_all
  net_send_all-Outcome ok s bytes =
      net_send_rounds-Outcome ok (suc (length bytes)) s bytes (omega arith)
