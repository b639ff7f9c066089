-- ===== src/Util/RingBuf/Read.antt =====
-- `ringbuf_read`, `ringbuf_size` and `ringbuf_init` against the bytes held.
use n32r.Prelude.{
  ℕ, zero, suc, ◌+◌, ◌%◌, ◌≤◌, ◌<◌, ◌≡◌, ◌↔◌, refl, sym, ap, inl, inr, true, false, List, [], ◌∷◌,
  arith, length, get_or, take, drop, Bool-cases,
}
use n32r.Prelude.Words.{u32_mod, add32}
use n32r.Util.RingBuf.{RingBuf, init, size, is_empty, read, retreat_pointer}
use n32r.Util.RingBuf.Window.{window, round_cases}
use n32r.Util.RingBuf.Contents.{IsValid, contents, length-contents, size-le}

retreat-IsValid : {rb : RingBuf} → IsValid rb → is_empty rb ≡ false → IsValid (retreat_pointer rb)
unfolding retreat_pointer is_empty
retreat-IsValid {rb} v e = ground (arith, round_cases rb.capacity rb.tail)

size-retreat :
    {rb : RingBuf} → IsValid rb → is_empty rb ≡ false → size rb ≡ suc (size (retreat_pointer rb))
unfolding retreat_pointer is_empty size
size-retreat {rb} v e = ground (arith, round_cases rb.capacity rb.tail)

capacity-retreat : (rb : RingBuf) → (retreat_pointer rb).capacity ≡ rb.capacity
unfolding retreat_pointer
capacity-retreat rb = refl

buffer-retreat : (rb : RingBuf) → (retreat_pointer rb).buffer ≡ rb.buffer
unfolding retreat_pointer
buffer-retreat rb = refl

tail-retreat : {rb : RingBuf} → IsValid rb → (retreat_pointer rb).tail ≡ (rb.tail + 1) % rb.capacity
unfolding retreat_pointer
tail-retreat {rb} v = ap (λ k. k % rb.capacity) {x = add32 rb.tail 1} (omega arith)

contents-retreat :
    {rb : RingBuf}
    → IsValid rb
    → is_empty rb ≡ false
    → contents rb ≡ get_or rb.buffer rb.tail 0 ∷ contents (retreat_pointer rb)
unfolding window
contents-retreat {rb} v e =
    let on : (retreat_pointer rb).tail ≡ (rb.tail + 1) % rb.capacity = tail-retreat v in
    rw (size-retreat v e, on, capacity-retreat rb, buffer-retreat rb)

size_empty : (rb : RingBuf) → is_empty rb ≡ true → size rb ≡ 0
unfolding is_empty size
size_empty rb e = ground arith

contents_empty : (rb : RingBuf) → is_empty rb ≡ true → contents rb ≡ []
unfolding window
contents_empty rb e = rw (size_empty rb e)

-- What `ringbuf_read` has handed out and left.
record Did (rb : RingBuf) (len : ℕ) (out : List ℕ × RingBuf) : Type 0 where
  bytes : out.0 ≡ take len (contents rb)
  left : contents out.1 ≡ drop len (contents rb)
  valid : IsValid out.1

read-Did : (len : ℕ) {rb : RingBuf} → IsValid rb → Did rb len (read rb len)
unfolding read
read-Did zero v = record { bytes = refl; left = refl; valid = v }
read-Did (suc len) {rb} v = elim (Bool-cases (is_empty rb)) [
  | inl e ↦
      let c : contents rb ≡ [] = contents_empty rb e in
      rw e (record { bytes = rw c; left = rw c; valid = v })
  | inr e ↦
      let rest : Did (retreat_pointer rb) len (read (retreat_pointer rb) len) =
        read-Did len (retreat-IsValid v e) in
      let c = contents-retreat v e in
      rw e (record {
        bytes = rw c (ap (λ t. get_or rb.buffer rb.tail 0 ∷ t) rest.bytes);
        left = rw c rest.left;
        valid = rest.valid;
      })
]

-- From a valid ring, `ringbuf_read` hands out the oldest bytes held, at most `len` of them and in
-- order, keeps all the others, and leaves the ring valid.
pub read_lem :
    (len : ℕ) {rb : RingBuf}
    → IsValid rb
    → let (out, rb') = read rb len in
      (out ≡ take len (contents rb)) × (contents rb' ≡ drop len (contents rb)) × IsValid rb'
read_lem len v = let d = read-Did len v in (d.bytes, d.left, d.valid)

-- In a valid ring, `ringbuf_size` is the number of bytes held, at most the capacity, and `ringbuf_is_empty` tells
-- whether that is zero.
pub size_lem :
    {rb : RingBuf}
    → IsValid rb
    → (size rb ≡ length (contents rb))
      × (size rb ≤ rb.capacity)
      × ((is_empty rb ≡ true) ↔ (size rb ≡ 0))
unfolding is_empty size window
size_lem {rb} v = (sym (length-contents rb), size-le v, (λ e. size_empty rb e, λ z. ground arith))

-- After `ringbuf_init` over storage of at least the capacity, which is below 2 ^ 32, the ring is
-- valid and holds nothing.
pub init-IsValid :
    (buffer : List ℕ) (capacity : ℕ)
    → capacity ≤ length buffer
    → capacity < u32_mod
    → IsValid (init buffer capacity) × (contents (init buffer capacity) ≡ [])
unfolding init size window
init-IsValid buffer capacity fits small = (ground arith, refl)
