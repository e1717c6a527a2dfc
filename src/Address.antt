-- ===== src/Address.antt =====
-- src/utp/address.cpp and src/utp/address.hpp: a peer's address, always kept as 16 bytes of IPv6, and its
-- port. A `sockaddr_storage` is its family with the bytes of its address and of its port as they lie in
-- memory; its other fields are zero.
pub mod RoundTrip
mod Tests
use libutp.Base.{ℕ, ◌+◌, ◌*◌, ◌^◌, Bool, true, false, ◌&&◌, List, [], ◌∷◌, ◌++◌}
use libutp.Base.{get_or, drop, replicate, take, ◌==◌, if◌then◌else◌}
use libutp.Wire.{big16}

pub record Address : Type 0 where
  pub in6 : List ℕ
  pub port : ℕ

pub data SockAddr : Type 0 where
  inet : List ℕ → List ℕ → SockAddr
  inet6 : List ℕ → List ℕ → SockAddr

-- `memcmp`
unfoldable pub bytes_eq : List ℕ → List ℕ → Bool
bytes_eq [] [] = true
bytes_eq (a ∷ xs) (b ∷ ys) = a == b && bytes_eq xs ys
bytes_eq [] (b ∷ ys) = false
bytes_eq (a ∷ xs) [] = false

-- Ten bytes of zero and two of 255: the address of IPv4 in IPv6.
abbrev pub mapped_prefix : List ℕ
mapped_prefix = 0 ∷ 0 ∷ 0 ∷ 0 ∷ 0 ∷ 0 ∷ 0 ∷ 0 ∷ 0 ∷ 0 ∷ 255 ∷ 255 ∷ []

-- `get_family`: whether it is `AF_INET`.
unfoldable pub is_v4_mapped : Address → Bool
unfolding bytes_eq
is_v4_mapped a = bytes_eq (take 12 a.in6) mapped_prefix

-- `operator==`
unfoldable pub same_address : Address → Address → Bool
unfolding bytes_eq
same_address a b = a.port == b.port && bytes_eq a.in6 b.in6

-- `ntohs` of the two bytes of a port; `htons` is `big16`.
unfoldable pub ntohs : List ℕ → ℕ
ntohs port = get_or port 0 0 * 2 ^ 8 + get_or port 1 0

-- `set`, which the constructor calls.
unfoldable pub from_sockaddr : SockAddr → Address
unfolding ntohs
from_sockaddr (inet s_addr port) = record { in6 = mapped_prefix ++ s_addr; port = ntohs port }
from_sockaddr (inet6 s6_addr port) = record { in6 = s6_addr; port = ntohs port }

-- The default constructor.
unfoldable pub any_address : Address
unfolding from_sockaddr
any_address = from_sockaddr (inet (replicate 4 0) (replicate 2 0))

unfoldable pub get_sockaddr_storage : Address → SockAddr
unfolding is_v4_mapped big16
get_sockaddr_storage a =
    if is_v4_mapped a then inet (drop 12 a.in6) (big16 a.port) else inet6 a.in6 (big16 a.port)
