-- ===== src/Util/RingBuf.antt =====
-- common/util/ringbuf.c: a byte ring over storage of the caller. Unlike a plain queue it overwrites
-- its oldest bytes when it is full.
pub mod Window
pub mod Contents
pub mod Write
pub mod Read
mod Tests
use n32r.Prelude.{
  ℕ, zero, suc, ◌+◌, ◌-◌, ◌%◌, Bool, true, false, not, ◌&&◌, List, [], ◌∷◌, get_or, set, ltb, leb,
  ◌==◌, if◌then◌else◌,
}
use n32r.Prelude.Words.{add32, sub32}

-- `ringbuf_t`. The bytes are moved and never computed with.
pub record RingBuf : Type 0 where
  pub buffer : List ℕ
  pub capacity : ℕ
  pub head : ℕ
  pub tail : ℕ
  pub full : Bool

pub init : List ℕ → ℕ → RingBuf
init buffer capacity = record {
  buffer = buffer;
  capacity = capacity;
  head = 0;
  tail = 0;
  full = false;
}

pub size : RingBuf → ℕ
size rb =
    if rb.full
    then rb.capacity
    else (if leb rb.tail rb.head
        then sub32 rb.head rb.tail
        else add32 (sub32 rb.capacity rb.tail) rb.head)

pub is_empty : RingBuf → Bool
is_empty rb = not rb.full && (rb.head == rb.tail)

pub is_full : RingBuf → Bool
is_full rb = rb.full

pub advance_pointer : RingBuf → RingBuf
advance_pointer rb =
    let tail' = if rb.full then add32 rb.tail 1 % rb.capacity else rb.tail in
    let head' = add32 rb.head 1 % rb.capacity in
    record rb { head = head'; tail = tail'; full = head' == tail' }

pub retreat_pointer : RingBuf → RingBuf
retreat_pointer rb = record rb { tail = add32 rb.tail 1 % rb.capacity; full = false }

-- One round of the loop of `ringbuf_write`.
pub put : RingBuf → ℕ → RingBuf
unfolding advance_pointer
put rb byte = advance_pointer (record rb { buffer = set rb.buffer rb.head byte })

-- The list is what is left of `data`; `written` counts the rounds.
write_from : RingBuf → List ℕ → ℕ → ℕ × RingBuf
write_from rb [] written = (written, rb)
write_from rb (byte ∷ data') written =
    let rest = write_from (put rb byte) data' (add32 written 1) in
    if ltb 0 rb.capacity then rest else (written, rb)

pub write : RingBuf → List ℕ → ℕ × RingBuf
unfolding write_from put
write rb src = write_from rb src 0

-- The bytes that go to `data`, oldest first; the number returned is their count.
pub read : RingBuf → ℕ → List ℕ × RingBuf
unfolding is_empty retreat_pointer
read rb zero = ([], rb)
read rb (suc len) =
    let (out, rb') = read (retreat_pointer rb) len in
    if is_empty rb then ([], rb) else (get_or rb.buffer rb.tail 0 ∷ out, rb')

pub reset : RingBuf → RingBuf
reset rb = record rb { head = 0; tail = 0; full = false }
