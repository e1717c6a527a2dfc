-- ===== src/Context/Lookup.antt =====
-- The map of the sockets with its cache: the pointer to the socket that was found last changes no result.
use libutp.Base.{
  ℕ, ◌+◌, ◌≤◌, ◌≡◌, refl, sym, ap₂, ◌∙◌, inl, inr, none, some, true, false, List, [], ◌∷◌,
}
use libutp.Base.{length, ◌==◌, if◌then◌else◌, Bool-cases, Option-cases, ==_iff, none-some}
use mathlib.Core.Path.{subst}
use mathlib.Core.Option.{some-injective}
use libutp.Address.{Address}
use libutp.Address.RoundTrip.{same_address_iff}
use libutp.Context.{Context, Peer, has_key, find, cached, rst_info_limit}
use libutp.Context.Expire.{erase}

abbrev pub Distinct : List Peer → Type 0
Distinct [] = 0 ≤ 0
Distinct (p ∷ ps) = (find ps p.addr p.recv_id ≡ none) × Distinct ps

-- No two sockets have the same key, the pointer is to a socket of the map, and the cache of resets has
-- at most one record more than its limit.
pub record IsContext (c : Context) : Type 0 where
  pub distinct : Distinct c.sockets
  pub last : (p : Peer) → c.last_socket ≡ some p → find c.sockets p.addr p.recv_id ≡ some p
  pub bounded : length c.rst_info ≤ rst_info_limit + 1

pub false-true : false ≡ true → ⊥
false-true e = cc

pub true-false : true ≡ false → ⊥
true-false e = cc

pub has_key_lem :
    (addr : Address) (id : ℕ) (p : Peer)
    → has_key addr id p ≡ true
    → (p.addr ≡ addr) × (p.recv_id ≡ id)
unfolding has_key
has_key_lem addr id p h = elim (Bool-cases (p.recv_id == id)) [
  | inl same ↦ ((same_address_iff p.addr addr).0 (rw same at h), (==_iff p.recv_id id).0 same)
  | inr apart ↦ absurd (false-true (rw apart at h))
]

pub has_own_key : (p : Peer) → has_key p.addr p.recv_id p ≡ true
unfolding has_key
has_own_key p =
    rw ((==_iff p.recv_id p.recv_id).1 refl, (same_address_iff p.addr p.addr).1 refl) refl

pub find_lem :
    (ps : List Peer) (addr : Address) (id : ℕ) (p : Peer)
    → find ps addr id ≡ some p
    → (p.addr ≡ addr) × (p.recv_id ≡ id)
unfolding find
find_lem [] addr id p h = absurd (none-some h)
find_lem (q ∷ ps) addr id p h = elim (Bool-cases (has_key addr id q)) [
  | inl hit ↦
      subst (λ (x : Peer). (x.addr ≡ addr) × (x.recv_id ≡ id)) (some-injective q p (rw hit at h))
        (has_key_lem addr id q hit)
  | inr miss ↦ find_lem ps addr id p (rw miss at h)
]

-- With the invariant a look-up through the pointer finds what the map finds.
pub cached-find :
    (c : Context) (addr : Address) (id : ℕ)
    → IsContext c
    → cached c addr id ≡ find c.sockets addr id
unfolding cached
cached-find c addr id v = elim (Option-cases c.last_socket) [
  | inl e ↦ rw (e, cached) refl
  | inr (p, e) ↦
      rw (e, cached)
        (elim (Bool-cases (has_key addr id p)) [
          | inr miss ↦ rw miss refl
          | inl hit ↦
              let (same, id_same) = has_key_lem addr id p hit in
              rw (hit, ← same, ← id_same) (sym (v.last p e))
        ])
]

key_of :
    (p s : Peer) (addr : Address) (id : ℕ)
    → has_key s.addr s.recv_id p ≡ true
    → has_key addr id p ≡ has_key addr id s
unfolding has_key
key_of p s addr id h =
    let (same, id_same) = has_key_lem s.addr s.recv_id p h in rw (same, id_same) refl

other_key :
    (p s : Peer) (addr : Address) (id : ℕ)
    → has_key s.addr s.recv_id p ≡ false
    → has_key addr id p ≡ true
    → has_key addr id s ≡ false
other_key p s addr id miss hit = elim (Bool-cases (has_key addr id s)) [
  | inr no_key ↦ no_key
  | inl both ↦
      let (same_p, id_p) = has_key_lem addr id p hit in
      let (same_s, id_s) = has_key_lem addr id s both in
      absurd (true-false (sym hit ∙ rw (← same_s, ← id_s) miss))
]

-- The test of a socket's key, the other way round.
pub unowned :
    (p s q : Peer)
    → p.addr ≡ s.addr
    → p.recv_id ≡ s.recv_id
    → has_key p.addr p.recv_id q ≡ false
    → has_key q.addr q.recv_id s ≡ false
unowned p s q same id_same miss = elim (Bool-cases (has_key q.addr q.recv_id s)) [
  | inr no_key ↦ no_key
  | inl hit ↦
      let (q_same, q_id) = has_key_lem q.addr q.recv_id s hit in
      absurd (
        true-false (
          sym (has_own_key q)
          ∙ (ap₂ (λ a (i : ℕ). has_key a i q) (sym (same ∙ q_same)) (sym (id_same ∙ q_id)) ∙ miss)))
]

-- Erasing a socket hides its key and no other.
pub find-erase :
    (ps : List Peer) (s : Peer) (addr : Address) (id : ℕ)
    → Distinct ps
    → find (erase ps s) addr id ≡ (if has_key addr id s then none else find ps addr id)
unfolding find erase
find-erase [] s addr id d = elim (Bool-cases (has_key addr id s)) [
  | inl hit ↦ rw hit refl
  | inr miss ↦ rw miss refl
]
find-erase (p ∷ ps) s addr id d = elim (Bool-cases (has_key s.addr s.recv_id p)) [
  | inl found ↦ rw found (elim (Bool-cases (has_key addr id s)) [
    | inr miss ↦ rw (key_of p s addr id found, miss) refl
    | inl hit ↦
        let (same, id_same) = has_key_lem addr id p (key_of p s addr id found ∙ hit) in
        rw (hit, ← same, ← id_same) d.0
  ])
  | inr further ↦ rw further (elim (Bool-cases (has_key addr id p)) [
    | inl hit ↦ rw (hit, other_key p s addr id further hit) refl
    | inr miss ↦ rw miss (find-erase ps s addr id d.1)
  ])
]
