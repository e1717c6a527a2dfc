-- ===== src/Address/RoundTrip.antt =====
-- An address and the socket address that it stands for.
use libutp.Base.{
  ℕ, ◌^◌, ◌<◌, ◌≡◌, ◌↔◌, ◌&&◌, refl, sym, ap, ◌∙◌, arith, true, false, List, [], ◌∷◌, ◌++◌, inl,
  inr,
}
use libutp.Base.{get_or, take, drop, ◌==◌, Bool-cases, ==_iff, ap₂}
use libutp.Base.{take-append-drop}
use libutp.Wire.{big16}
use libutp.Address.{
  Address, bytes_eq, mapped_prefix, is_v4_mapped, same_address, ntohs, from_sockaddr,
  get_sockaddr_storage,
}

false-true : false ≡ true → ⊥
false-true e = cc

port_back : (port : ℕ) → port < 2 ^ 16 → ntohs (big16 port) ≡ port
unfolding ntohs big16
port_back port small = omega arith

bytes_eq_iff : (a b : List ℕ) → (bytes_eq a b ≡ true) ↔ (a ≡ b)
unfolding bytes_eq
bytes_eq_iff [] [] = (λ h. refl, λ h. refl)
bytes_eq_iff [] (b ∷ ys) = (λ h. absurd cc, λ h. absurd cc)
bytes_eq_iff (a ∷ xs) [] = (λ h. absurd cc, λ h. absurd cc)
bytes_eq_iff (a ∷ xs) (b ∷ ys) = (forth (bytes_eq_iff xs ys).0, back (bytes_eq_iff xs ys).1)
  where
    forth : (bytes_eq xs ys ≡ true → xs ≡ ys) → (a == b && bytes_eq xs ys) ≡ true → a ∷ xs ≡ b ∷ ys
    forth rest h = elim (Bool-cases (a == b)) [
      | inl same ↦ ap₂ ◌∷◌ ((==_iff a b).0 same) (rest (rw same at h))
      | inr apart ↦ absurd (false-true (rw apart at h))
    ]

    back : (xs ≡ ys → bytes_eq xs ys ≡ true) → a ∷ xs ≡ b ∷ ys → (a == b && bytes_eq xs ys) ≡ true
    back rest h = rw ((==_iff a b).1 (ap (λ l. get_or l 0 0) h), rest (ap (drop 1) h)) refl

-- Two addresses compare as equal exactly if they are the same one.
pub same_address_iff : (a b : Address) → (same_address a b ≡ true) ↔ (a ≡ b)
unfolding same_address
same_address_iff a b = (forth, back)
  where
    forth : (a.port == b.port && bytes_eq a.in6 b.in6) ≡ true → a ≡ b
    forth h = elim (Bool-cases (a.port == b.port)) [
      | inl same ↦
          ap₂ (λ l (p : ℕ). record { in6 = l; port = p })
            ((bytes_eq_iff a.in6 b.in6).0 (rw same at h)) ((==_iff a.port b.port).0 same)
      | inr apart ↦ absurd (false-true (rw apart at h))
    ]

    back : a ≡ b → (a.port == b.port && bytes_eq a.in6 b.in6) ≡ true
    back e =
        rw
          (
            (==_iff a.port b.port).1 (ap (λ (x : Address). x.port) e),
            (bytes_eq_iff a.in6 b.in6).1 (ap (λ (x : Address). x.in6) e),
          )
          refl

-- Every address is the one of the socket address that it is given out as.
pub from_sockaddr-get_sockaddr_storage :
    (a : Address) → a.port < 2 ^ 16 → from_sockaddr (get_sockaddr_storage a) ≡ a
unfolding from_sockaddr get_sockaddr_storage
from_sockaddr-get_sockaddr_storage a small = elim (Bool-cases (is_v4_mapped a)) [
  | inr native ↦
      rw native (ap (λ (p : ℕ). record { in6 = a.in6; port = p }) (port_back a.port small))
  | inl mapped ↦
      rw mapped
        (ap₂ (λ l (p : ℕ). record { in6 = l; port = p }) (whole mapped) (port_back a.port small))
]
  where
    whole : is_v4_mapped a ≡ true → mapped_prefix ++ drop 12 a.in6 ≡ a.in6
    whole mapped =
        ap (λ l. l ++ drop 12 a.in6)
          (sym ((bytes_eq_iff (take 12 a.in6) mapped_prefix).0 (unfold is_v4_mapped in mapped)))
        ∙ take-append-drop 12 a.in6
