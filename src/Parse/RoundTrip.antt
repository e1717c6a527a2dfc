-- ===== src/Parse/RoundTrip.antt =====
-- A packet with a chain of extensions is parsed to what was written.
use libutp.Base.{
  [], ◌∷◌, ◌++◌, ℕ, zero, suc, ◌+◌, ◌≤◌, ◌<◌, ◌≡◌, refl, ap, sym, ◌∙◌, arith, List, none, some,
  ◌==◌, ==-false, leb, ltb, if◌then◌else◌, length, length-append, drop-drop, drop-length, drop,
  false,
}
use libutp.Wire.{PacketFormatV1, type, st_num_states, header_size, bytes_of}
use libutp.Wire.RoundTrip.{IsHeader, header_at-bytes_of}
use libutp.Parse.{Walk, done, parsed, walk, packet_of, start, parse_packet}
use libutp.Parse.Chain.{
  Extension, first_kind, chain, last_selack, last_bits, IsExtension, IsChain, after, AtChain,
  after_at, round_at, within,
}

-- The state at the end of a chain.
abbrev at_end : Walk → List Extension → Walk
at_end w es = record {
  extension = 0;
  payload = w.payload + length (chain es);
  selack = last_selack es w.payload w.selack;
  extensions = last_bits es w.extensions;
}

ended :
    (w : Walk) (e : Extension) (es : List Extension) → at_end (after w e es) es ≡ at_end w (e ∷ es)
unfolding chain last_selack last_bits
ended w e es =
    ap
      (λ (p : ℕ). record {
        extension = 0;
        payload = p;
        selack =
            last_selack es (w.payload + 2 + length e.content)
              (if e.kind == 1 then some (w.payload + 2) else w.selack);
        extensions = last_bits es (if e.kind == 2 then e.content else w.extensions);
      })
      (omega (arith, length-append e.content (chain es)))

ended_after_one : (w : Walk) (e : Extension) → after w e [] ≡ at_end w (e ∷ [])
unfolding first_kind chain last_selack last_bits
ended_after_one w e =
    ap
      (λ (p : ℕ). record {
        extension = 0;
        payload = p;
        selack = if e.kind == 1 then some (w.payload + 2) else w.selack;
        extensions = if e.kind == 2 then e.content else w.extensions;
      })
      (omega (arith, length-append e.content []))

walk-chain :
    (fuel : ℕ) (bytes : List ℕ) (w : Walk) (e : Extension) (es : List Extension) (rest : List ℕ)
    → length es < fuel
    → AtChain bytes w e es rest
    → w.extension ≡ e.kind
    → IsExtension e
    → IsChain es
    → walk fuel bytes w ≡ done (at_end w (e ∷ es))
unfolding walk IsChain IsExtension first_kind
walk-chain zero bytes w e es rest enough h kind v vs = absurd (omega arith)
walk-chain (suc fuel) bytes w e [] rest enough h kind v vs =
    rw (round_at bytes w e [] rest h kind v, walk) (ap done (ended_after_one w e))
walk-chain (suc fuel) bytes w e (f ∷ fs) rest enough h kind v (vf, vs) =
    rw (round_at bytes w e (f ∷ fs) rest h kind v, walk)
      (rw (==-false f.kind 0 vf.0, walk)
        (walk-chain fuel bytes (after w e (f ∷ fs)) f fs rest (omega arith)
            (after_at bytes w e (f ∷ fs) rest h) refl vf vs
          ∙ ap done (ended w e (f ∷ fs))))

rounds_enough : (es : List Extension) → length es ≤ length (chain es)
unfolding chain
rounds_enough [] = omega arith
rounds_enough (e ∷ es) = omega (arith, rounds_enough es, length-append e.content (chain es))

module _ (h : PacketFormatV1) (v : IsHeader h) (known : type h < st_num_states) where
  behind_header : (rest : List ℕ) → drop header_size (bytes_of h ++ rest) ≡ rest
  behind_header rest =
      ap (λ n. drop n (bytes_of h ++ rest)) (sym (header_at-bytes_of h rest v).1)
      ∙ drop-length (bytes_of h) rest

  long_enough : (rest : List ℕ) → ltb (length (bytes_of h ++ rest)) header_size ≡ false
  long_enough rest =
      within _ header_size
        (omega (arith, length-append (bytes_of h) rest, (header_at-bytes_of h rest v).1))

  known_type : leb st_num_states (type h) ≡ false
  known_type = ground arith

  enough :
      (e : Extension) (es : List Extension) (rest : List ℕ)
      → length es < length (bytes_of h ++ (chain (e ∷ es) ++ rest))
  enough e es rest = omega (
    arith,
    rounds_enough (e ∷ es),
    length-append (bytes_of h) (chain (e ∷ es) ++ rest),
    length-append (chain (e ∷ es)) rest,
  )

  parse_packet-es :
      (es : List Extension) (rest bits : List ℕ)
      → h.ext ≡ first_kind es
      → IsChain es
      → let bytes = bytes_of h ++ (chain es ++ rest) in
        parse_packet bytes bits
        ≡ parsed (packet_of h (length bytes) (at_end (start h bits) es)) (last_bits es bits)
  unfolding parse_packet chain last_selack last_bits first_kind IsChain IsExtension
  parse_packet-es [] rest bits ext vs =
      simp ((header_at-bytes_of h rest v).0, known_type, long_enough rest, ext, parse_packet) refl
  parse_packet-es (e ∷ es) rest bits ext (ve, vs) =
      let tail = chain (e ∷ es) ++ rest in
      let bytes = bytes_of h ++ tail in
      simp
        (
          (header_at-bytes_of h tail v).0,
          known_type,
          long_enough tail,
          ==-false h.ext 0 (λ z. ve.0 (sym ext ∙ z)),
          walk-chain (length bytes) bytes (start h bits) e es rest (enough e es rest)
              (behind_header tail) ext ve vs,
          parse_packet,
        )
        refl

-- A packet of a known type, whatever chain of extensions and payload follow its header, is parsed
-- to the header's fields, the place behind the chain, which is where the payload begins, and the
-- place of the last selective acknowledgement; the socket keeps the extension bits given last. A
-- chain may hold any number of extensions of any kind but 0, where extension bits are eight bytes.
pub parse_packet-chain :
    (h : PacketFormatV1) (es : List Extension) (payload bits : List ℕ)
    → IsHeader h
    → type h < st_num_states
    → h.ext ≡ first_kind es
    → IsChain es
    → let bytes = bytes_of h ++ (chain es ++ payload) in
      let behind = header_size + length (chain es) in
      (parse_packet bytes bits
        ≡ parsed
            (record {
              payload = behind;
              end = length bytes;
              selack = last_selack es header_size none;
              seq_nr = h.seq_nr;
              ack_nr = h.ack_nr;
              type = type h;
              timestamp = h.tv_usec;
              reply_micro = h.reply_micro;
              windowsize = h.windowsize;
            })
            (last_bits es bits))
      × (drop behind bytes ≡ payload)
unfolding parse_packet packet_of
parse_packet-chain h es payload bits v known ext vs = (
  parse_packet-es h v known es payload bits ext vs,
  sym (drop-drop header_size (length (chain es)) _ _ refl)
      ∙ ap (drop (length (chain es))) (behind_header h v known (chain es ++ payload))
      ∙ drop-length (chain es) payload,
)
