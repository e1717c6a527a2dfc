-- ===== src/Receive/Delivery.antt =====
-- The ways through `receive` that a packet of data takes.
use libutp.Base.{
  ℕ, ◌+◌, ◌-◌, ◌≤◌, ◌<◌, ◌≡◌, refl, arith, true, false, ◌&&◌, ==-false, none, some, List, [], ◌∷◌,
  ◌++◌, ltb, leb, u16, sub16,
}
use libutp.Wire.{st_data}
use libutp.SequenceBuffer.{SequenceBuffer, get, put, ensure_size}
use libutp.Receive.{
  ReceiveState, Effect, Timing, schedule_ack, relative_seq, read, drain, note_fin, deliver_in_order,
  keep_ahead, file, deliver_data, receive,
}

le→leb : (a b : ℕ) → a ≤ b → leb a b ≡ true
le→leb a b h = ground arith

lt→leb_false : (a b : ℕ) → b < a → leb a b ≡ false
lt→leb_false a b h = ground arith

le→ltb_false : (a b : ℕ) → b ≤ a → ltb a b ≡ false
le→ltb_false a b h = ground arith

-- The ways through `receive` that data takes while no FIN has arrived.
module _ (t : Timing) (r : ReceiveState) (seq_nr : ℕ) (payload : List ℕ)
    (no_fin : r.got_fin ≡ false) where
  within_stream : (d : ℕ) → (r.got_fin && ltb (sub16 (sub16 r.eof_pkt r.ack_nr) 1) d) ≡ false
  within_stream d = rw no_fin refl

  pub receive-awaited :
      (r' : ReceiveState) (effects : List Effect)
      → relative_seq r seq_nr ≡ 0
      → (let next = record r { ack_nr = u16 (r.ack_nr + 1) } in
          drain t (next.reorder_count + 1) next ≡ some (r', effects))
      → receive t r st_data seq_nr payload
        ≡ some (r', read r payload ++ (effects ++ schedule_ack ∷ []))
  unfolding receive deliver_data deliver_in_order note_fin
  receive-awaited r' effects e drains = simp (e, drains) refl

  pub receive-old :
      relative_seq r seq_nr < 0x1_0000
      → 0x1_0000 - 1024 ≤ relative_seq r seq_nr
      → receive t r st_data seq_nr payload ≡ some (r, schedule_ack ∷ [])
  unfolding receive
  receive-old below old =
      simp
        (
          le→leb 1024 (relative_seq r seq_nr) (omega arith),
          le→leb 64512 (relative_seq r seq_nr) old,
        )
        refl

  pub file-new :
      (b : SequenceBuffer (List ℕ))
      → get b seq_nr ≡ none
      → file r b seq_nr payload
        ≡ some (
          record r {
            inbuf = put b seq_nr (some payload);
            reorder_count = u16 (r.reorder_count + 1);
          },
          schedule_ack ∷ [],
        )
  unfolding file
  file-new b empty = rw (empty, file) refl

  pub file-known :
      (b : SequenceBuffer (List ℕ)) (known : List ℕ)
      → get b seq_nr ≡ some known
      → file r b seq_nr payload ≡ some (record r { inbuf = b }, [])
  unfolding file
  file-known b known full = rw (full, file) refl

  pub receive-ahead :
      (d : ℕ) (b : SequenceBuffer (List ℕ))
      → relative_seq r seq_nr ≡ d
      → 0 < d
      → d < 1024
      → ensure_size r.inbuf (seq_nr + 1) (d + 1) ≡ some b
      → receive t r st_data seq_nr payload ≡ file r b seq_nr payload
  unfolding receive deliver_data keep_ahead note_fin
  receive-ahead d b e ahead near sized =
      simp
        (
          e,
          lt→leb_false 1024 d near,
          ==-false d 0 (omega arith),
          within_stream d,
          le→ltb_false 0x3ff d (omega arith),
          sized,
        )
        refl
