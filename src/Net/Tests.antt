-- ===== src/Net/Tests.antt =====
-- `net_send_all` over a socket that takes two bytes at a time.
use droidcam_whip_c.Net.{net_send_all, Send}
use droidcam_whip_c.Net.SendAll.{Accepts, Outcome, net_send_all-Outcome}
use droidcam_whip_c.Common.{take, ◌++◌, length, refl, min, arith, some, ◌≡◌, ℕ, ◌∷◌, List, []}
use droidcam_whip_c.Common.Int.{pos}

abbrev two_at_a_time : Send (List ℕ)
two_at_a_time s bytes = (pos (min 2 (length bytes)), s ++ take (min 2 (length bytes)) bytes)

two_at_a_time-Accepts : (s : List ℕ) (bytes : List ℕ) → Accepts two_at_a_time (λ t. t) s bytes
two_at_a_time-Accepts s bytes = (omega arith, refl)

net_send_all_test : net_send_all two_at_a_time [] (1 ∷ 2 ∷ 3 ∷ []) ≡ some (pos 1, 1 ∷ 2 ∷ 3 ∷ [])
unfolding net_send_all
net_send_all_test = refl

net_send_all-Outcome_example :
    Outcome two_at_a_time
      (λ t. t)
      (9 ∷ [])
      (1 ∷ 2 ∷ 3 ∷ [])
      (net_send_all two_at_a_time (9 ∷ []) (1 ∷ 2 ∷ 3 ∷ []))
net_send_all-Outcome_example =
    net_send_all-Outcome two_at_a_time (λ t. t) two_at_a_time-Accepts (9 ∷ []) (1 ∷ 2 ∷ 3 ∷ [])
