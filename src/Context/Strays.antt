-- ===== src/Context/Strays.antt =====
-- Packets without a socket, and the cache of resets that silences their repetition.
use libutp.Base.{ℕ, ◌≡◌, ◌⊎◌, refl, inl, inr, some, true, List, [], ◌∷◌, ◌++◌}
use libutp.Base.{length, ltb, Bool-cases, Option-cases, none-some, ==_iff}
use mathlib.Core.Option.{some-injective}
use libutp.Address.{Address}
use libutp.Address.RoundTrip.{same_address_iff}
use libutp.Context.{Context, RstInfo, Calls, touch, answer_stray, rst_info_limit, is_answered}

-- The record that a packet leaves answers it.
own_record :
    (addr : Address) (id seq_nr now : ℕ)
    → is_answered addr id seq_nr
        (record { addr = addr; connid = id; ack_nr = seq_nr; timestamp = now })
      ≡ true
unfolding is_answered
own_record addr id seq_nr now =
    rw ((==_iff id id).1 refl, (==_iff seq_nr seq_nr).1 refl, (same_address_iff addr addr).1 refl)
      refl

-- A cache with the record of a packet.
abbrev Answers : Address → ℕ → ℕ → List RstInfo → Type 0
Answers addr id seq_nr rs =
    (now : ℕ) → (rs' : List RstInfo) × (touch now addr id seq_nr rs ≡ some rs')

touch-append :
    (addr : Address) (id seq_nr : ℕ) (rs : List RstInfo) (r : RstInfo)
    → is_answered addr id seq_nr r ≡ true
    → Answers addr id seq_nr (rs ++ r ∷ [])
unfolding touch
touch-append addr id seq_nr [] r own now = ((record r { timestamp = now }) ∷ [], rw own refl)
touch-append addr id seq_nr (x ∷ rs) r own now =
    let (rs', e) = touch-append addr id seq_nr rs r own now in
    elim (Bool-cases (is_answered addr id seq_nr x)) [
      | inl hit ↦ (record x { timestamp = now } ∷ (rs ++ r ∷ []), rw hit refl)
      | inr miss ↦ (x ∷ rs', rw (miss, e) refl)
    ]

touch_again :
    (addr : Address) (id seq_nr before : ℕ) (rs rs' : List RstInfo)
    → touch before addr id seq_nr rs ≡ some rs'
    → Answers addr id seq_nr rs'
unfolding touch
touch_again addr id seq_nr before [] rs' e now = absurd (none-some e)
touch_again addr id seq_nr before (r ∷ rs) rs' e now =
    elim (Bool-cases (is_answered addr id seq_nr r)) [
      | inl hit ↦
          rw
            (
              ← some-injective (record r { timestamp = before } ∷ rs) rs' (rw hit at e),
              renewed r hit,
            )
            (record r { timestamp = now } ∷ rs, refl)
      | inr miss ↦ elim (Option-cases (touch before addr id seq_nr rs)) [
        | inl none_found ↦ absurd (none-some (rw (miss, none_found) at e))
        | inr (rest, found) ↦
            let (rest', again) = touch_again addr id seq_nr before rs rest found now in
            rw (← some-injective (r ∷ rest) rs' (rw (miss, found) at e), miss, again)
              (r ∷ rest', refl)
      ]
    ]
  where
    renewed :
        (r : RstInfo)
        → is_answered addr id seq_nr r ≡ true
        → is_answered addr id seq_nr (record r { timestamp = before }) ≡ true
    renewed r hit = unfold is_answered in hit

recorded :
    (c : Context) (calls : Calls) (addr : Address) (id seq_nr : ℕ)
    → let rs = (answer_stray c calls addr id seq_nr).0.rst_info in
      (ltb rst_info_limit (length rs) ≡ true) ⊎ Answers addr id seq_nr rs
unfolding answer_stray
recorded c calls addr id seq_nr =
    elim (Option-cases (touch calls.milliseconds addr id seq_nr c.rst_info)) [
      | inr (rs, e) ↦
          rw (e, answer_stray) (inr (touch_again addr id seq_nr calls.milliseconds c.rst_info rs e))
      | inl e ↦
          rw (e, answer_stray)
            (elim (Bool-cases (ltb rst_info_limit (length c.rst_info))) [
              | inl full ↦ rw full (inl full)
              | inr room ↦ rw room (
                  inr (
                    touch-append addr id seq_nr c.rst_info
                      (record {
                        addr = addr;
                        connid = id;
                        ack_nr = seq_nr;
                        timestamp = calls.milliseconds;
                      })
                      (own_record addr id seq_nr calls.milliseconds)))
            ])
    ]
