-- ===== src/Net/Open/Tests.antt =====
-- Tests of the opening of sockets in src/net.cc.
use droidcam_whip_c.Common.{[], ◌∷◌, true, false, Option, some, none, ◌≡◌, refl}
use droidcam_whip_c.Net.Open.{
  Kernel, Net, Errno, socket, connect, close, free_addrs, set_nonblock, Select, net_connect,
  net_listen, connect_addresses, connect_address,
}
use droidcam_whip_c.Net.Open.Closed.{Ends, Leaves, net_connect-Leaves}

abbrev kernel : Option Errno → Kernel
kernel answer = record {
  sockets = λ es. some 3;
  binds = λ es. true;
  nonblocks = λ es. true;
  connects = λ es. answer;
  selects = λ es. Select.ready;
  listens = λ es. true;
}

abbrev net : Net
net = record { errno = Errno.other; events = [] }

-- A connection that is made at once leaves `errno` as it was: with an old error there the socket is
-- closed.
at_once_test : net_connect (kernel none) (some ((false, 7) ∷ [])) net ≡ (
  none,
  record net {
    events = free_addrs ∷ close 3 ∷ connect 3 7 ∷ set_nonblock 3 true true ∷ socket (some 3) ∷ [];
  },
)
unfolding net_connect connect_addresses connect_address
at_once_test = refl

net_connect-Leaves_example :
    Ends 3
      (kernel (some Errno.in_progress))
      []
      (net_connect (kernel (some Errno.in_progress)) (some ((true, 7) ∷ [])) net)
    × Leaves 3 0 [] (net_listen (kernel (some Errno.in_progress)) net)
net_connect-Leaves_example =
    net_connect-Leaves 3 (kernel (some Errno.in_progress)) ((true, 7) ∷ []) net
