-- ===== src/Context/Routing.antt =====
-- The context's invariant through every datagram and every removal of a socket.
use libutp.Base.{
  ℕ, suc, ◌+◌, ◌≡◌, refl, sym, ap, ap₂, ◌∙◌, inl, inr, Option, none, some, arith, false, List, [],
  ◌∷◌,
}
use libutp.Base.{
  length, length-append, u32, ltb, ◌==◌, if◌then◌else◌, Bool-cases, Option-cases, none-some,
  ltb-false,
}
use mathlib.Core.Path.{subst}
use mathlib.Core.Option.{some-injective}
use libutp.Wire.{PacketFormatV1, type, st_reset, st_syn}
use libutp.Address.{Address}
use libutp.Context.{
  Context, Peer, RstInfo, Calls, has_key, find, cached, touch, is_some, answer_stray, answer_syn,
  register_socket, route, utp_header, process_udp, rst_info_limit, is_answered, max_sockets,
  find_socket_for_id,
}
use libutp.Context.Expire.{erase, on_socket_destroyed, destroy_socket}
use libutp.Context.Lookup.{
  unowned, IsContext, Distinct, find_lem, find-erase, has_key_lem, cached-find,
}

-- A new time changes no record but its own.
length-touch :
    (now : ℕ) (addr : Address) (id seq_nr : ℕ) (rs rs' : List RstInfo)
    → touch now addr id seq_nr rs ≡ some rs'
    → length rs' ≡ length rs
unfolding touch
length-touch now addr id seq_nr [] rs' e = absurd (none-some e)
length-touch now addr id seq_nr (r ∷ rs) rs' e = elim (Bool-cases (is_answered addr id seq_nr r)) [
  | inl hit ↦ sym (ap length (some-injective _ rs' (rw hit at e)))
  | inr miss ↦ elim (Option-cases (touch now addr id seq_nr rs)) [
    | inl none_found ↦ absurd (none-some (rw (miss, none_found) at e))
    | inr (rest, found) ↦
        sym (ap length (some-injective (r ∷ rest) rs' (rw (miss, found) at e)))
        ∙ ap suc (length-touch now addr id seq_nr rs rest found)
  ]
]

module _ (c : Context) (calls : Calls) (addr : Address) (v : IsContext c) where
  answer_stray-IsContext : (id seq_nr : ℕ) → IsContext (answer_stray c calls addr id seq_nr).0
  unfolding answer_stray
  answer_stray-IsContext id seq_nr =
      elim (Option-cases (touch calls.milliseconds addr id seq_nr c.rst_info)) [
        | inr (rs, e) ↦
            rw (e, answer_stray)
              (record {
                distinct = v.distinct;
                last = v.last;
                bounded = omega (
                  arith,
                  v.bounded,
                  length-touch calls.milliseconds addr id seq_nr c.rst_info rs e,
                );
              })
        | inl e ↦
            rw (e, answer_stray)
              (elim (Bool-cases (ltb rst_info_limit (length c.rst_info))) [
                | inl full ↦
                    rw full (record { distinct = v.distinct; last = v.last; bounded = v.bounded })
                | inr room ↦ rw room (record {
                  distinct = v.distinct;
                  last = v.last;
                  bounded = omega (
                    arith,
                    ltb-false _ _ room,
                    length-append c.rst_info (
                        record {
                          addr = addr;
                          connid = id;
                          ack_nr = seq_nr;
                          timestamp = calls.milliseconds;
                        }
                        ∷ []),
                  );
                })
              ])
      ]

-- A socket whose key is free is registered.
register-IsContext :
    (c : Context) (p : Peer) (now : ℕ)
    → IsContext c
    → find c.sockets p.addr p.recv_id ≡ none
    → IsContext (register_socket (record c { current_ms = now }) p)
unfolding register_socket
register-IsContext c p now v free = record {
  distinct = (free, v.distinct);
  last = kept;
  bounded = v.bounded;
}
  where
    kept : (q : Peer) → c.last_socket ≡ some q → find (p ∷ c.sockets) q.addr q.recv_id ≡ some q
    kept q e =
        unfold find in
        elim (Bool-cases (has_key q.addr q.recv_id p)) [
          | inr miss ↦ rw miss (v.last q e)
          | inl hit ↦
              let (same, id_same) = has_key_lem q.addr q.recv_id p hit in
              absurd (
                none-some
                  (sym free ∙ (ap₂ (λ a (i : ℕ). find c.sockets a i) same id_same ∙ v.last q e)))
        ]

is_some_lem : (o : Option Peer) → is_some o ≡ false → o ≡ none
unfolding is_some
is_some_lem none h = refl
is_some_lem (some p) h = absurd cc

module _ (c : Context) (calls : Calls) (addr : Address) (v : IsContext c) where
  pub answer_syn-IsContext : (id seq_nr : ℕ) → IsContext (answer_syn c calls addr id seq_nr).0
  unfolding answer_syn
  answer_syn-IsContext id seq_nr =
      elim (Bool-cases (is_some (find c.sockets addr (u32 (id + 1))))) [
        | inl taken ↦ rw taken v
        | inr free ↦ rw free (elim (Bool-cases (ltb max_sockets (length c.sockets))) [
          | inl full ↦ rw full v
          | inr room ↦ rw room (elim (Bool-cases calls.firewall) [
            | inl refused ↦ rw refused v
            | inr open_to ↦ rw open_to (
                register-IsContext c (record { addr = addr; recv_id = u32 (id + 1); send_id = id })
                  calls.milliseconds v (is_some_lem _ free))
          ])
        ])
      ]

  found-IsContext :
      (id : ℕ) (p : Peer)
      → cached c addr id ≡ some p
      → IsContext (record c { last_socket = some p })
  found-IsContext id p e =
      let found : find c.sockets addr id ≡ some p = sym (cached-find c addr id v) ∙ e in
      record {
        distinct = v.distinct;
        last = λ q same.
            subst (λ (x : Peer). find c.sockets x.addr x.recv_id ≡ some x) (some-injective p q same)
              (own_key found);
        bounded = v.bounded;
      }
    where
      own_key : find c.sockets addr id ≡ some p → find c.sockets p.addr p.recv_id ≡ some p
      own_key found =
          let (same, id_same) = find_lem c.sockets addr id p found in
          ap₂ (λ a (i : ℕ). find c.sockets a i) same id_same ∙ found

  route-IsContext : (h : PacketFormatV1) → IsContext (route c calls addr h).0
  unfolding route
  route-IsContext h = elim (Bool-cases (type h == st_reset)) [
    | inl resets ↦ rw resets (elim (Option-cases (find_socket_for_id c.sockets addr h.connid)) [
      | inl e ↦ rw (e, route) v
      | inr (p, e) ↦ rw (e, route) v
    ])
    | inr other ↦ rw other (elim (Bool-cases (type h == st_syn)) [
      | inl syn ↦ rw syn (answer_syn-IsContext h.connid h.seq_nr)
      | inr ordinary ↦ rw ordinary (elim (Option-cases (cached c addr h.connid)) [
        | inl e ↦ rw (e, route) (answer_stray-IsContext c calls addr v h.connid h.seq_nr)
        | inr (p, e) ↦ rw (e, route) (found-IsContext h.connid p e)
      ])
    ])
  ]

  -- Whatever datagram comes, the context stays sane: no two sockets have one key, the pointer to the
  -- last socket is to one of the map, and the cache of resets keeps within its limit and one more.
  pub process_udp-IsContext : (buffer : List ℕ) → IsContext (process_udp c calls buffer addr).0
  unfolding process_udp
  process_udp-IsContext buffer = elim (Option-cases (utp_header buffer)) [
    | inl e ↦ rw (e, process_udp) v
    | inr (h, e) ↦ rw (e, process_udp) (route-IsContext h)
  ]

Distinct-erase : (ps : List Peer) (s : Peer) → Distinct ps → Distinct (erase ps s)
unfolding erase
Distinct-erase [] s d = d
Distinct-erase (p ∷ ps) s d = elim (Bool-cases (has_key s.addr s.recv_id p)) [
  | inl found ↦ rw found d.1
  | inr further ↦ rw further (hidden, Distinct-erase ps s d.1)
]
  where
    hidden : find (erase ps s) p.addr p.recv_id ≡ none
    hidden = elim (Bool-cases (has_key p.addr p.recv_id s)) [
      | inl hit ↦ rw (find-erase ps s p.addr p.recv_id d.1, hit) refl
      | inr miss ↦ rw (find-erase ps s p.addr p.recv_id d.1, miss) d.0
    ]

cleared-sockets : (c : Context) (p : Peer) → (on_socket_destroyed c p).sockets ≡ c.sockets
unfolding on_socket_destroyed
cleared-sockets c p = elim (Option-cases c.last_socket) [
  | inl e ↦ rw (e, on_socket_destroyed) refl
  | inr (q, e) ↦
      rw (e, on_socket_destroyed)
        (elim (Bool-cases (has_key p.addr p.recv_id q)) [
          | inl hit ↦ rw hit refl
          | inr miss ↦ rw miss refl
        ])
]

cleared-IsContext :
    (c : Context) (s p : Peer)
    → IsContext c
    → (p.addr ≡ s.addr) × (p.recv_id ≡ s.recv_id)
    → IsContext (on_socket_destroyed (record c { sockets = erase c.sockets s }) p)
unfolding on_socket_destroyed
cleared-IsContext c s p v key = elim (Option-cases c.last_socket) [
  | inl e ↦
      rw (e, on_socket_destroyed)
        (record {
          distinct = Distinct-erase c.sockets s v.distinct;
          last = λ q h. absurd (none-some (sym e ∙ h));
          bounded = v.bounded;
        })
  | inr (q, e) ↦
      rw (e, on_socket_destroyed)
        (elim (Bool-cases (has_key p.addr p.recv_id q)) [
          | inl hit ↦ rw hit (record {
            distinct = Distinct-erase c.sockets s v.distinct;
            last = λ x h. absurd (none-some h);
            bounded = v.bounded;
          })
          | inr miss ↦ rw miss (record {
            distinct = Distinct-erase c.sockets s v.distinct;
            last = λ x h.
                subst (λ (x : Peer). find (erase c.sockets s) x.addr x.recv_id ≡ some x)
                  (some-injective q x (sym e ∙ h)) (survives q e miss);
            bounded = v.bounded;
          })
        ])
]
  where
    survives :
        (q : Peer)
        → c.last_socket ≡ some q
        → has_key p.addr p.recv_id q ≡ false
        → find (erase c.sockets s) q.addr q.recv_id ≡ some q
    survives q e miss =
        find-erase c.sockets s q.addr q.recv_id v.distinct
        ∙ rw (unowned p s q key.0 key.1 miss) (v.last q e)

-- A destroyed socket is found no more, and every other one as before; the context stays sane, so that
-- the pointer to the last socket does not outlive it.
pub destroy_socket-IsContext :
    (c : Context) (s : Peer)
    → IsContext c
    → IsContext (destroy_socket c s)
      × ((addr : Address) (id : ℕ)
          → find (destroy_socket c s).sockets addr id
            ≡ (if has_key addr id s then none else find c.sockets addr id))
unfolding destroy_socket
destroy_socket-IsContext c s v = elim (Option-cases (find c.sockets s.addr s.recv_id)) [
  | inl e ↦ rw (e, destroy_socket) (v, absent e)
  | inr (p, e) ↦
      rw (e, destroy_socket)
        (
          cleared-IsContext c s p v (find_lem c.sockets s.addr s.recv_id p e),
          λ addr id.
              ap (λ ps. find ps addr id)
                (cleared-sockets (record c { sockets = erase c.sockets s }) p)
              ∙ find-erase c.sockets s addr id v.distinct,
        )
]
  where
    absent :
        find c.sockets s.addr s.recv_id ≡ none
        → (addr : Address) (id : ℕ)
        → find c.sockets addr id ≡ (if has_key addr id s then none else find c.sockets addr id)
    absent e addr id = elim (Bool-cases (has_key addr id s)) [
      | inr miss ↦ rw miss refl
      | inl hit ↦
          let (same, id_same) = has_key_lem addr id s hit in
          rw hit (sym (ap₂ (λ a (i : ℕ). find c.sockets a i) same id_same) ∙ e)
    ]
