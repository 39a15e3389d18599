-- ===== src/Proxy/Events.antt =====
-- The calls of src/proxy.cc that leave its thread, and what a log of them says.
use droidcam_whip_c.Common.{
  ℕ, ◌+◌, Bool, true, false, not, ◌&&◌, ◌||◌, ◌==◌, List, [], ◌∷◌, Option, none, some, ◌≡◌,
}
use droidcam_whip_c.Net.{Received, got}

pub data Event : Type 0 where
  accept usbmuxd_connect : Option ℕ → Event
  set_nonblock : ℕ → Event
  recv : ℕ → Received → Event
  send_all : ℕ → List ℕ → Bool → Event
  close : ℕ → Event
  sleep : Event

-- The bytes that the latest event has received and that are still to be passed on.
abbrev pub pending : List Event → Option (ℕ × List ℕ)
pending (recv k (got (b ∷ bs)) ∷ es) = some (k, b ∷ bs)
pending _ = none

abbrev pub is_connect : ℕ → Event → Bool
is_connect remote (usbmuxd_connect (some k)) = k == remote
is_connect remote _ = false

abbrev pub is_accept : ℕ → List Event → Bool
is_accept client (accept (some k) ∷ es) = k == client
is_accept client _ = false

-- Whether `remote` was connected for the client `client`.
abbrev pub linked : ℕ → ℕ → List Event → Bool
linked client remote [] = false
linked client remote (e ∷ es) =
    (is_connect remote e && is_accept client es) || linked client remote es

-- What is handed to `net_send_all` was received just before, from the other side of the same
-- connection; and what was received is handed to it before anything else is done. The flag of
-- `send_all` says whether it succeeded, which both cases allow.
abbrev pub Passes : ℕ → List ℕ → Option (ℕ × List ℕ) → List Event → Type 0
Passes to bytes none es = ⊥
Passes to bytes (some (from, received)) es =
    (received ≡ bytes) × (linked from to es || linked to from es) ≡ true

abbrev pub Fits : Event → List Event → Type 0
Fits (send_all to bytes ok) es = Passes to bytes (pending es) es
Fits e es = pending es ≡ none

abbrev pub IsRelayed : List Event → Type 0
IsRelayed [] = Unit {0}
IsRelayed (e ∷ es) = Fits e es × IsRelayed es

abbrev pub one_if : Bool → ℕ
one_if true = 1
one_if false = 0

-- How often a descriptor was opened, and how often it was closed.
abbrev pub opened : ℕ → List Event → ℕ
opened k [] = 0
opened k (accept (some j) ∷ es) = one_if (j == k) + opened k es
opened k (usbmuxd_connect (some j) ∷ es) = one_if (j == k) + opened k es
opened k (e ∷ es) = opened k es

abbrev pub closed : ℕ → List Event → ℕ
closed k [] = 0
closed k (close j ∷ es) = one_if (j == k) + closed k es
closed k (e ∷ es) = closed k es

-- Whether a descriptor is one that `net_send_all` failed on and that was not closed since.
abbrev pub stuck : ℕ → List Event → Bool
stuck k [] = false
stuck k (send_all to bytes false ∷ es) = to == k || stuck k es
stuck k (close j ∷ es) = not (j == k) && stuck k es
stuck k (e ∷ es) = stuck k es
