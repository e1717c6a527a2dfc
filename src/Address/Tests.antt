-- ===== src/Address/Tests.antt =====
-- The addresses' theorems at an address of IPv4 and at one of IPv6.
use libutp.Base.{ℕ, ◌≡◌, ◌↔◌, refl, arith, true, List, [], ◌∷◌}
use libutp.Address.{
  Address, SockAddr, inet, same_address, from_sockaddr, get_sockaddr_storage, ntohs,
}
use libutp.Address.RoundTrip.{same_address_iff, from_sockaddr-get_sockaddr_storage}

abbrev loopback : SockAddr
loopback = inet (127 ∷ 0 ∷ 0 ∷ 1 ∷ []) (31 ∷ 144 ∷ [])

abbrev mapped : List ℕ
mapped = 0 ∷ 0 ∷ 0 ∷ 0 ∷ 0 ∷ 0 ∷ 0 ∷ 0 ∷ 0 ∷ 0 ∷ 255 ∷ 255 ∷ 127 ∷ 0 ∷ 0 ∷ 1 ∷ []

-- The port is 8080.
loopback_run : from_sockaddr loopback ≡ record { in6 = mapped; port = 8080 }
unfolding from_sockaddr ntohs
loopback_run = refl

same_address_iff_example :
    (same_address (record { in6 = mapped; port = 8080 }) (record { in6 = mapped; port = 8081 })
      ≡ true)
    ↔ (◌≡◌ {A = Address}
        (record { in6 = mapped; port = 8080 })
        (record { in6 = mapped; port = 8081 }))
same_address_iff_example =
    same_address_iff (record { in6 = mapped; port = 8080 }) (record { in6 = mapped; port = 8081 })

from_sockaddr-get_sockaddr_storage_example :
    from_sockaddr (get_sockaddr_storage (record { in6 = mapped; port = 8080 }))
    ≡ record { in6 = mapped; port = 8080 }
from_sockaddr-get_sockaddr_storage_example =
    from_sockaddr-get_sockaddr_storage (record { in6 = mapped; port = 8080 }) (omega arith)
