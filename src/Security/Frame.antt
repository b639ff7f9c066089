-- ===== src/Security/Frame.antt =====
-- What `ws_security_encrypt` makes of a plaintext, `ws_security_decrypt` reads back.
use n32r.Prelude.{
  ℕ, ◌+◌, ◌-◌, ◌%◌, ◌≤◌, ◌<◌, ◌≡◌, refl, sym, ap, ◌∙◌, true, some, List, [], ◌∷◌, ◌++◌, arith,
  length, length-append, take, drop, ok, append_assoc, append-nil, get_or,
}
use n32r.Prelude.Words.{u32_mod, u64_mod}
use n32r.Prelude.Bytes.{
  le_bytes, le_value, length-le_bytes, le_value-le_bytes, take-append, drop-append_length,
}
use n32r.Crypto.{Crypto, IsCrypto}
use n32r.Security.{Context, version, encrypted_size, encrypt, decrypt, open_frame}

-- The frame that carries counter, nonce, ciphertext and tag.
abbrev pub header : ℕ → List ℕ
header counter = version ∷ 0 ∷ le_bytes 8 counter

abbrev pub frame : ℕ → List ℕ → List ℕ → List ℕ → List ℕ
frame counter iv ciphertext tag = header counter ++ (iv ++ (ciphertext ++ tag))

length-header : (counter : ℕ) → length (header counter) ≡ 10
length-header counter = omega (arith, length-le_bytes 8 counter)

module _ (counter : ℕ) (iv ciphertext tag : List ℕ) (iv_ok : length iv ≡ 12)
    (tag_ok : length tag ≡ 16) where
  length-frame : length (frame counter iv ciphertext tag) ≡ 38 + length ciphertext
  length-frame = omega (
    arith,
    length-le_bytes 8 counter,
    length-append (le_bytes 8 counter) (iv ++ (ciphertext ++ tag)),
    length-append iv (ciphertext ++ tag),
    length-append ciphertext tag,
  )

  frame-header : take 10 (frame counter iv ciphertext tag) ≡ header counter
  frame-header = take-append (header counter) (iv ++ (ciphertext ++ tag)) 10 (length-header counter)

  frame-counter :
      counter < u64_mod → le_value (take 8 (drop 2 (frame counter iv ciphertext tag))) ≡ counter
  frame-counter small =
      ap le_value
        (take-append (le_bytes 8 counter) (iv ++ (ciphertext ++ tag)) 8 (length-le_bytes 8 counter))
      ∙ le_value-le_bytes 8 counter (omega arith)

  rest_iv : drop 10 (frame counter iv ciphertext tag) ≡ iv ++ (ciphertext ++ tag)
  rest_iv =
      drop-append_length (header counter) (iv ++ (ciphertext ++ tag)) 10 (length-header counter)

  frame-iv : take 12 (drop 10 (frame counter iv ciphertext tag)) ≡ iv
  frame-iv = rw rest_iv (take-append iv (ciphertext ++ tag) 12 iv_ok)

  rest_ciphertext : drop 22 (frame counter iv ciphertext tag) ≡ ciphertext ++ tag
  rest_ciphertext =
      ap (drop 22) (sym (append_assoc (header counter) iv (ciphertext ++ tag)))
      ∙ drop-append_length (header counter ++ iv) (ciphertext ++ tag) 22
          (omega (arith, length-append (header counter) iv, length-header counter))

  frame-ciphertext :
      take (length ciphertext) (drop 22 (frame counter iv ciphertext tag)) ≡ ciphertext
  frame-ciphertext = rw rest_ciphertext (take-append ciphertext tag _ refl)

  frame-tag : take 16 (drop (22 + length ciphertext) (frame counter iv ciphertext tag)) ≡ tag
  frame-tag =
      ap (λ f. take 16 (drop (22 + length ciphertext) f)) split
      ∙ ap (take 16) (
          drop-append_length ((header counter ++ iv) ++ ciphertext) tag (22 + length ciphertext) (
            omega (
              arith,
              length-append (header counter ++ iv) ciphertext,
              length-append (header counter) iv,
              length-header counter,
            )))
      ∙ ap (take 16) (sym (append-nil tag))
      ∙ take-append tag [] 16 tag_ok
    where
      split : frame counter iv ciphertext tag ≡ ((header counter ++ iv) ++ ciphertext) ++ tag
      split =
          sym (append_assoc (header counter) iv (ciphertext ++ tag))
          ∙ sym (append_assoc (header counter ++ iv) ciphertext tag)

module _ (c : Crypto) where
  -- Where the checks of `ws_security_decrypt` pass, the cipher decides.
  decrypt_passes :
      (rx : Context) (f text : List ℕ) (counter last : ℕ)
      → rx.encryption_enabled ≡ true
      → 38 ≤ length f
      → get_or f 0 0 ≡ version
      → get_or f 1 0 ≡ 0
      → le_value (take 8 (drop 2 f)) ≡ counter
      → last < counter
      → open_frame c rx f (length f - 22 - 16) ≡ ok text
      → decrypt c rx f (some last) ≡ ok (text, some counter)
  unfolding decrypt
  decrypt_passes rx f text counter last on long v z e fresh opened = ground arith

  open_frame_lem :
      (rx : Context) (f iv aad ciphertext tag text : List ℕ) (n : ℕ)
      → take 12 (drop 10 f) ≡ iv
      → take 10 f ≡ aad
      → take n (drop 22 f) ≡ ciphertext
      → take 16 (drop (22 + n) f) ≡ tag
      → c.gcm_auth_decrypt rx.frame_key iv aad ciphertext tag ≡ some text
      → open_frame c rx f n ≡ ok text
  unfolding open_frame
  open_frame_lem rx f iv aad ciphertext tag text n e₁ e₂ e₃ e₄ e₅ =
      rw (e₁, e₂, e₃, e₄, e₅, open_frame)

  decrypt-frame :
      (rx : Context) (counter last : ℕ) (iv ciphertext tag text : List ℕ)
      → rx.encryption_enabled ≡ true
      → length iv ≡ 12
      → length tag ≡ 16
      → counter < u64_mod
      → last < counter
      → c.gcm_auth_decrypt rx.frame_key iv (header counter) ciphertext tag ≡ some text
      → decrypt c rx (frame counter iv ciphertext tag) (some last) ≡ ok (text, some counter)
  decrypt-frame rx counter last iv ciphertext tag text on iv_ok tag_ok small fresh opened =
      let f : List ℕ = frame counter iv ciphertext tag in
      let n : length f ≡ 38 + length ciphertext =
        length-frame counter iv ciphertext tag iv_ok tag_ok in
      let k : length f - 22 - 16 ≡ length ciphertext = omega arith in
      decrypt_passes rx f text counter last on (omega arith) refl refl
        (frame-counter counter iv ciphertext tag iv_ok tag_ok small) fresh
        (ap (open_frame c rx f) k
          ∙ open_frame_lem rx f iv (header counter) ciphertext tag text (length ciphertext)
              (frame-iv counter iv ciphertext tag iv_ok tag_ok)
              (frame-header counter iv ciphertext tag iv_ok tag_ok)
              (frame-ciphertext counter iv ciphertext tag iv_ok tag_ok)
              (frame-tag counter iv ciphertext tag iv_ok tag_ok) opened)

  size_on :
      (ctx : Context) (n : ℕ)
      → ctx.encryption_enabled ≡ true
      → 38 + n < u32_mod
      → encrypted_size ctx n ≡ 38 + n
  unfolding encrypted_size
  size_on ctx n on small = rw on (omega arith)

  encrypt-frame :
      (tx : Context) (iv text ciphertext tag : List ℕ) (out_size : ℕ)
      → tx.encryption_enabled ≡ true
      → tx.tx_counter + 1 < u64_mod
      → 38 + length text < u32_mod
      → 38 + length text ≤ out_size
      → c.gcm_crypt_and_tag tx.frame_key iv (header (tx.tx_counter + 1)) text
        ≡ some (ciphertext, tag)
      → encrypt c iv tx text out_size ≡ (
        ok (frame (tx.tx_counter + 1) iv ciphertext tag),
        record tx { tx_counter = tx.tx_counter + 1 },
      )
  unfolding encrypt encrypted_size
  encrypt-frame tx iv text ciphertext tag out_size on no_wrap small room crypt =
      let e : (tx.tx_counter + 1) % u64_mod ≡ tx.tx_counter + 1 = omega arith in ground (arith, e)

-- A frame of `ws_security_encrypt` has the size that `ws_security_encrypted_size` announced, and
-- `ws_security_decrypt` gives its plaintext and counter back under the same frame key, where the
-- receiver has seen smaller counters only. It is assumed that encryption is enabled on both sides,
-- that the nonce has 12 bytes, that the output buffer has the announced size, that the cipher
-- succeeds and that neither the counter nor the length wraps.
pub decrypt-encrypt :
    {c : Crypto} (laws : IsCrypto c) (tx rx : Context) (iv text ciphertext tag : List ℕ)
    (out_size last : ℕ)
    → tx.encryption_enabled ≡ true
    → rx.encryption_enabled ≡ true
    → rx.frame_key ≡ tx.frame_key
    → length iv ≡ 12
    → tx.tx_counter + 1 < u64_mod
    → 38 + length text < u32_mod
    → encrypted_size tx (length text) ≤ out_size
    → c.gcm_crypt_and_tag tx.frame_key iv (header (tx.tx_counter + 1)) text ≡ some (ciphertext, tag)
    → last ≤ tx.tx_counter
    → (f : List ℕ) × (encrypt c iv tx text out_size
        ≡ (ok f, record tx { tx_counter = tx.tx_counter + 1 }))
      × (length f ≡ encrypted_size tx (length text))
      × (decrypt c rx f (some last) ≡ ok (text, some (tx.tx_counter + 1)))
decrypt-encrypt {c} laws tx rx iv text ciphertext tag out_size last tx_on rx_on key iv_ok no_wrap
      small room crypt seen =
    let size : encrypted_size tx (length text) ≡ 38 + length text =
      size_on c tx (length text) tx_on small in
    let (ct_ok, tag_ok) = laws.length-crypt _ _ _ _ _ _ crypt in
    (
      frame (tx.tx_counter + 1) iv ciphertext tag,
      encrypt-frame c tx iv text ciphertext tag out_size tx_on no_wrap small (omega arith) crypt,
      omega (arith, length-frame (tx.tx_counter + 1) iv ciphertext tag iv_ok tag_ok),
      decrypt-frame c rx (tx.tx_counter + 1) last iv ciphertext tag text rx_on iv_ok tag_ok no_wrap
          (omega arith) (rw key (laws.decrypt-crypt _ _ _ _ _ _ crypt)),
    )
