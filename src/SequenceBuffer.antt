-- ===== src/SequenceBuffer.antt =====
-- src/utp/sequence_buffer.hpp: the ring of owned packets that both directions of a socket keep.
-- A slot is an option: `none` is a null `unique_ptr`. Sequence numbers are `size_t`.
use libutp.Base.{ℕ, zero, suc, ◌+◌, ◌*◌, ◌||◌, Option, none, some, List, []}
pub mod Ring
pub mod Grow
pub mod Window
mod Tests
use libutp.Base.{u64, sub64, bit_and, ltb, leb, ◌==◌, if◌then◌else◌, get_or, set, replicate, length}

pub record SequenceBuffer {ℓ} (T : Type ℓ) : Type ℓ where
  pub buf : List (Option T)
  pub mask : ℕ

module _ {ℓ} {T : Type ℓ} where
  -- `buf_[seq & mask_]`
  abbrev pub slot : SequenceBuffer T → ℕ → Option T
  slot b seq = get_or b.buf (bit_and seq b.mask) none

  unfoldable pub get : SequenceBuffer T → ℕ → Option T
  get b seq = if b.mask == 0 then none else slot b seq

  unfoldable pub put : SequenceBuffer T → ℕ → Option T → SequenceBuffer T
  put b seq item = record b { buf = set b.buf (bit_and seq b.mask) item }

  -- The element, and the buffer with its slot emptied.
  unfoldable pub take : SequenceBuffer T → ℕ → Option T × SequenceBuffer T
  take b seq =
      if b.mask == 0
      then (none, b)
      else (slot b seq, record b { buf = set b.buf (bit_and seq b.mask) none })

  unfoldable pub size : SequenceBuffer T → ℕ
  size b = u64 (b.mask + 1)

  -- The `for` of `grow` with `rounds` left at `i`: each element is moved, which nulls its old slot.
  unfoldable pub migrate : ℕ → ℕ → ℕ → ℕ → ℕ → List (Option T) → List (Option T) → List (Option T)
  migrate zero i base mask new_mask old new = new
  migrate (suc rounds) i base mask new_mask old new =
      let from = bit_and (u64 (base + i)) mask in
      let to = bit_and (u64 (base + i)) new_mask in
      migrate rounds (i + 1) base mask new_mask (set old from none)
        (set new to (get_or old from none))

-- `do new_size *= 2; while (index >= new_size);`. `none` means that the fuel ran out.
unfoldable pub next_size : ℕ → ℕ → ℕ → Option ℕ
next_size zero new_size index = none
next_size (suc fuel) new_size index =
    let doubled = u64 (new_size * 2) in
    let rest = next_size fuel doubled index in if leb doubled index then rest else some doubled

-- `size_t` has 64 bits, so 64 doublings of a size that is not zero are as many as can be useful.
abbrev pub doublings : ℕ
doublings = 64

module _ {ℓ} {T : Type ℓ} where
  -- The state after `grow` has found its new size.
  unfoldable pub resized : SequenceBuffer T → ℕ → ℕ → ℕ → SequenceBuffer T
  resized b item index new_size =
      let new_mask = sub64 new_size 1 in
      let base = sub64 item index in
      let fresh = replicate new_size none in
      record {
        buf =
            if ltb 0 b.mask || ltb 0 (length b.buf)
            then migrate (b.mask + 1) 0 base b.mask new_mask b.buf fresh
            else fresh;
        mask = new_mask;
      }

  -- `mask_ + 1`, and 1 where that wraps to 0.
  unfoldable pub first_size : SequenceBuffer T → ℕ
  first_size b = let start = u64 (b.mask + 1) in if start == 0 then 1 else start

  -- `none`: the loop that doubles the size does not end.
  unfoldable pub grow : SequenceBuffer T → ℕ → ℕ → Option (SequenceBuffer T)
  grow b item index = elim (next_size doublings (first_size b) index) [
    | none ↦ none
    | some new_size ↦ some (resized b item index new_size)
  ]

  unfoldable pub ensure_size : SequenceBuffer T → ℕ → ℕ → Option (SequenceBuffer T)
  ensure_size b item index = if ltb b.mask index then grow b item index else some b

  unfoldable pub initialize : ℕ → SequenceBuffer T
  initialize size = record { buf = replicate size none; mask = sub64 size 1 }

  -- The default constructor.
  abbrev pub empty : SequenceBuffer T
  empty = record { buf = []; mask = 0 }
