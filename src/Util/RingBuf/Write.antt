-- ===== src/Util/RingBuf/Write.antt =====
-- `ringbuf_write` against a list of which only the last bytes are kept.
use n32r.Prelude.{
  ℕ, ◌+◌, ◌<◌, ◌≡◌, refl, sym, ap, ◌∙◌, List, [], ◌∷◌, ◌++◌, append_assoc, append-nil, arith,
  length, lt→ltb,
}
use n32r.Prelude.Words.{u32_mod, add32}
use n32r.Util.RingBuf.{RingBuf, put, write_from, write}
use n32r.Util.RingBuf.Contents.{
  IsValid, contents, keep_last, keep_last-short, length-contents, size-le, put-IsValid,
  capacity-put, put_lem, keep_last-append,
}

-- What the loop of `ringbuf_write` has done when it stops.
record Wrote (rb : RingBuf) (src : List ℕ) (written : ℕ) (out : ℕ × RingBuf) : Type 0 where
  count : out.0 ≡ written + length src
  held : contents out.1 ≡ keep_last rb.capacity (contents rb ++ src)
  same : out.1.capacity ≡ rb.capacity
  valid : IsValid out.1

write_from-Wrote :
    (src : List ℕ) {rb : RingBuf} (written : ℕ)
    → IsValid rb
    → 0 < rb.capacity
    → written + length src < u32_mod
    → Wrote rb src written (write_from rb src written)
unfolding write_from
write_from-Wrote [] {rb} written v pos fits = record {
  count = omega arith;
  held = rw append-nil (
      sym
        (keep_last-short rb.capacity (contents rb) (omega (arith, length-contents rb, size-le v))));
  same = refl;
  valid = v;
}
write_from-Wrote (x ∷ xs) {rb} written v pos fits =
    let step : add32 written 1 ≡ written + 1 = omega arith in
    let rest : Wrote (put rb x) xs (add32 written 1) (write_from (put rb x) xs (add32 written 1)) =
      write_from-Wrote xs (add32 written 1) (put-IsValid x v pos) (rw capacity-put pos)
        (omega arith) in
    rw (lt→ltb 0 rb.capacity pos) (record {
      count = omega (arith, rest.count);
      held =
          rest.held
          ∙ rw (put_lem x v pos, capacity-put rb x)
              (keep_last-append rb.capacity (contents rb ++ (x ∷ [])) xs
                ∙ ap (keep_last rb.capacity) (append_assoc (contents rb) (x ∷ []) xs));
      same = rest.same ∙ capacity-put rb x;
      valid = rest.valid;
    })

-- `ringbuf_write` takes every byte of `src`, fewer than 2 ^ 32, overwriting the oldest ones: a
-- valid ring of positive capacity then holds the last `capacity` bytes of what it held followed by
-- `src`, and is still valid.
pub write_lem :
    (src : List ℕ) {rb : RingBuf}
    → IsValid rb
    → 0 < rb.capacity
    → length src < u32_mod
    → let (written, rb') = write rb src in
      (written ≡ length src)
      × (contents rb' ≡ keep_last rb.capacity (contents rb ++ src))
      × IsValid rb'
unfolding write
write_lem src {rb} v pos fits =
    let w : Wrote rb src 0 (write_from rb src 0) = write_from-Wrote src 0 v pos (omega arith) in
    (omega (arith, w.count), w.held, w.valid)
