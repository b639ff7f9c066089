-- ===== src/Proto/Tinycbor/Laws.antt =====
-- What the loop over the outermost map makes of a command of two parts.
use n32r.Prelude.{
  Bool-cases, inl, inr, ◌⊎◌, sym, List, [], ap, arith, false, refl, some, suc, true, ℕ, ◌%◌, ◌-◌,
  ◌∙◌, ◌∷◌, ◌≡◌, ◌≤◌,
}
use mathlib.Core.Path.{subst}
use n32r.Prelude.Words.{u32_mod}
use n32r.Prelude.Bytes.{codes, bytes_eq}
use n32r.Proto.{Command, cleared}
use n32r.Proto.Document.{Document, num, str, obj, end, field}
use n32r.Proto.Schema.{
  optional, command_tail, command_document, set_pwm_document, pwm_freq_document,
  write_gpio_document,
}
use n32r.Proto.Tinycbor.{Reader, Read, read, failed, loop, always, outermost, ◌>>=◌}
use n32r.Proto.Tinycbor.Command.{set_pwm_entry, command_entry, decode_command_cbor}
use n32r.Proto.Tinycbor.Items.{IsReader, flat, is_nil, is_str, loop_step, loop_end}

-- The items behind the frequency.
abbrev pub gpio_items : Command → List Document
gpio_items msg =
    flat (optional msg.has_gpio_write (codes "write_gpio") (write_gpio_document msg) end)

-- The items behind the sequence number.
flat-command_tail :
    (msg : Command)
    → msg.has_pwm_update ≡ true
    → msg.has_pwm_frequency ≡ true
    → flat (command_tail msg)
      ≡ str (codes "set_pwm")
        ∷ (set_pwm_document msg
            ∷ (str (codes "pwm_freq")
                ∷ (pwm_freq_document msg
                    ∷ flat (
                        optional msg.has_gpio_write
                          (codes "write_gpio")
                          (write_gpio_document msg)
                          end))))
unfolding flat
flat-command_tail msg update frequency = simp (update, frequency)

module _ {V Double : Type 0} (r : Reader V Double) (rest : V → List Document)
    (outer : V → List (List Document)) (laws : IsReader r rest outer) where
  -- A round of the outermost loop ends at these items with this message.
  abbrev Round : ℕ → V → Command → List Document → Command → Type 0
  Round fuel v msg after msg' =
      (v' : V) × (command_entry r fuel v msg ≡ read (v', msg')) × (rest v' ≡ after)

  not_end : (v : V) (x : Document) (after : List Document) → rest v ≡ x ∷ after → r.at_end v ≡ false
  not_end v x after e = laws.end_lem v ∙ ap is_nil e

  step_over :
      (v : V) (x : Document) (after : List Document)
      → rest v ≡ x ∷ after
      → rest (r.advance v) ≡ after
  step_over v x after e = (laws.advance_lem v x after e).0

  ts_round :
      (fuel : ℕ) (v : V) (msg : Command) (n : ℕ) (after : List Document)
      → rest v ≡ str (codes "ts") ∷ (num n ∷ after)
      → Round fuel v msg after (record msg { timestamp_ms = n % u32_mod })
  unfolding command_entry bytes_eq
  ts_round fuel v msg n after e =
      let (v', copied, next, _) = laws.text_lem v (codes "ts") (num n ∷ after) 15 e (omega arith) in
      (
        r.advance v',
        simp (copied, laws.uint_lem v' n after next, command_entry),
        step_over v' (num n) after next,
      )

  seq_round :
      (fuel : ℕ) (v : V) (msg : Command) (n : ℕ) (after : List Document)
      → rest v ≡ str (codes "seq") ∷ (num n ∷ after)
      → Round fuel v msg after (record msg { sequence_id = n % u32_mod })
  unfolding command_entry bytes_eq
  seq_round fuel v msg n after e =
      let (v', copied, next, _) =
        laws.text_lem v (codes "seq") (num n ∷ after) 15 e (omega arith) in
      (
        r.advance v',
        simp (copied, laws.uint_lem v' n after next, command_entry),
        step_over v' (num n) after next,
      )

  v_round :
      (fuel : ℕ) (v : V) (msg : Command) (x : Document) (after : List Document)
      → rest v ≡ str (codes "v") ∷ (x ∷ after)
      → Round fuel v msg after msg
  unfolding command_entry bytes_eq
  v_round fuel v msg x after e =
      let (v', copied, next, _) = laws.text_lem v (codes "v") (x ∷ after) 15 e (omega arith) in
      (r.advance v', simp (copied, command_entry), step_over v' x after next)

  type_round :
      (fuel : ℕ) (v : V) (msg : Command) (x : Document) (after : List Document)
      → rest v ≡ str (codes "type") ∷ (x ∷ after)
      → Round fuel v msg after msg
  unfolding command_entry bytes_eq
  type_round fuel v msg x after e =
      let (v', copied, next, _) = laws.text_lem v (codes "type") (x ∷ after) 15 e (omega arith) in
      (r.advance v', simp (copied, command_entry), step_over v' x after next)

  ch_round :
      (v : V) (msg : Command) (n : ℕ) (after : List Document)
      → rest v ≡ str (codes "ch") ∷ (num n ∷ after)
      → (v' : V) × (set_pwm_entry r v msg ≡ read (v', record msg { channel = n % 256 }))
        × (rest v' ≡ after)
        × (outer v' ≡ outer v)
  unfolding set_pwm_entry bytes_eq
  ch_round v msg n after e =
      let (v', copied, next, same) =
        laws.text_lem v (codes "ch") (num n ∷ after) 7 e (omega arith) in
      (
        r.advance v',
        simp (copied, laws.uint_lem v' n after next, set_pwm_entry),
        step_over v' (num n) after next,
        (laws.advance_lem v' (num n) after next).1 ∙ same,
      )

  duty_round :
      (v : V) (msg : Command) (n : ℕ) (after : List Document)
      → rest v ≡ str (codes "duty") ∷ (num n ∷ after)
      → (v' : V) × (set_pwm_entry r v msg ≡ read (v', record msg { duty_cycle = n % 65536 }))
        × (rest v' ≡ after)
        × (outer v' ≡ outer v)
  unfolding set_pwm_entry bytes_eq
  duty_round v msg n after e =
      let (v', copied, next, same) =
        laws.text_lem v (codes "duty") (num n ∷ after) 7 e (omega arith) in
      (
        r.advance v',
        simp (copied, laws.uint_lem v' n after next, set_pwm_entry),
        step_over v' (num n) after next,
        (laws.advance_lem v' (num n) after next).1 ∙ same,
      )

  -- The loop over `set_pwm`.
  set_pwm_loop :
      (fuel : ℕ) (v : V) (msg : Command) (ch duty : ℕ)
      → rest v ≡ flat (field (codes "ch") (num ch) (field (codes "duty") (num duty) end))
      → (v' : V) × (loop (suc (suc (suc fuel))) r.at_end always (set_pwm_entry r) v msg
          ≡ read (v', record msg { channel = ch % 256; duty_cycle = duty % 65536 }))
        × (rest v' ≡ [])
        × (outer v' ≡ outer v)
  unfolding flat
  set_pwm_loop fuel v msg ch duty e =
      let (v1, first, e1, o1) = ch_round v msg ch _ e in
      let msg1 : Command = record msg { channel = ch % 256 } in
      let (v2, second, e2, o2) = duty_round v1 msg1 duty _ e1 in
      let msg2 : Command = record msg { channel = ch % 256; duty_cycle = duty % 65536 } in
      (
        v2,
        loop_step r.at_end always (set_pwm_entry r) (suc (suc fuel)) v v1 msg msg1 (not_end v _ _ e)
              refl first
            ∙ (loop_step r.at_end always (set_pwm_entry r) (suc fuel) v1 v2 msg1 msg2
                  (not_end v1 _ _ e1) refl second
                ∙ loop_end r.at_end always (set_pwm_entry r) fuel v2 msg2
                    (laws.end_lem v2 ∙ ap is_nil e2)),
        e2,
        o2 ∙ o1,
      )

  -- After the part the position has moved on twice, so the next name is gone over.
  set_pwm_round :
      (fuel : ℕ) (v : V) (msg : Command) (ch duty : ℕ) (x : Document) (after : List Document)
      → rest v
        ≡ str (codes "set_pwm")
          ∷ (obj (field (codes "ch") (num ch) (field (codes "duty") (num duty) end)) ∷ (x ∷ after))
      → Round
          (suc (suc (suc fuel)))
          v
          msg
          after
          (record msg { channel = ch % 256; duty_cycle = duty % 65536; has_pwm_update = true })
  unfolding command_entry bytes_eq
  set_pwm_round fuel v msg ch duty x after e =
      let fs = field (codes "ch") (num ch) (field (codes "duty") (num duty) end) in
      let (v1, copied, e1, _) =
        laws.text_lem v (codes "set_pwm") (obj fs ∷ (x ∷ after)) 15 e (omega arith) in
      let (inner, entered, e2, o2) = laws.enter_lem v1 fs (x ∷ after) e1 in
      let (inner', looped, e3, o3) = set_pwm_loop fuel inner msg ch duty e2 in
      (
        r.advance (r.leave_container v1 inner'),
        simp (copied, entered, looped, command_entry),
        step_over (r.leave_container v1 inner') x after
            (laws.leave_lem v1 inner' fs (x ∷ after) e1 e3 (o3 ∙ o2)),
      )

  -- The result is that of the outermost loop going on at a position before an item that is no string, which it
  -- copies as one, as the name of a field: the copy is reported as successful, or the result is `failed`.
  abbrev pub IsMisread : Document → List Document → ℕ → Read Command → Type 0
  IsMisread x after fuel result =
      (v : V) × (n : ℕ) × (cmd : Command) × (rest v ≡ x ∷ after)
      × (is_str x ≡ false)
      × (result
          ≡ (loop (suc n) r.at_end always (command_entry r fuel) v cmd >>= λ (_, s'). read s'))
      × (((r.copy_text_string 15 v).0 ≡ true) ⊎ (result ≡ failed))

  -- The loop over the fields of a command with both parts.
  two_parts_loop :
      (fuel : ℕ) (v : V) (msg cmd : Command) (x y : Document) (after : List Document)
      → rest v
        ≡ str (codes "v")
          ∷ (num 1
              ∷ (str (codes "type")
                  ∷ (x
                      ∷ (str (codes "ts")
                          ∷ (num msg.timestamp_ms
                              ∷ (str (codes "seq")
                                  ∷ (num msg.sequence_id
                                      ∷ (str (codes "set_pwm")
                                          ∷ (set_pwm_document msg
                                              ∷ (str (codes "pwm_freq") ∷ (y ∷ after)))))))))))
      → (v' : V) × (cmd' : Command) × (rest v' ≡ y ∷ after)
        × (loop
              (suc (suc (suc (suc (suc (suc fuel))))))
              r.at_end
              always
              (command_entry r (suc (suc (suc (suc (suc (suc fuel)))))))
              v
              cmd
            ≡ loop
                (suc fuel)
                r.at_end
                always
                (command_entry r (suc (suc (suc (suc (suc (suc fuel)))))))
                v'
                cmd')
  two_parts_loop fuel v msg cmd x y after e =
      let n = suc (suc (suc (suc (suc (suc fuel))))) in
      let body = command_entry r n in
      let (v1, c1, e1) = v_round n v cmd (num 1) _ e in
      let (v2, c2, e2) = type_round n v1 cmd x _ e1 in
      let (v3, c3, e3) = ts_round n v2 cmd msg.timestamp_ms _ e2 in
      let (v4, c4, e4) = seq_round n v3 _ msg.sequence_id _ e3 in
      let (v5, c5, e5) =
        set_pwm_round (suc (suc (suc fuel))) v4 _ msg.channel msg.duty_cycle _ _ e4 in
      (
        v5,
        _,
        e5,
        loop_step r.at_end always body (suc (suc (suc (suc (suc fuel))))) v v1 _ _ (not_end v _ _ e)
              refl c1
            ∙ (loop_step r.at_end always body (suc (suc (suc (suc fuel)))) v1 v2 _ _
                  (not_end v1 _ _ e1) refl c2
                ∙ (loop_step r.at_end always body (suc (suc (suc fuel))) v2 v3 _ _
                      (not_end v2 _ _ e2) refl c3
                    ∙ (loop_step r.at_end always body (suc (suc fuel)) v3 v4 _ _ (not_end v3 _ _ e3)
                          refl c4
                        ∙ loop_step r.at_end always body (suc fuel) v4 v5 _ _ (not_end v4 _ _ e4)
                            refl c5))),
      )

  -- What a loop at such an item comes to, with what follows it.
  loop-IsMisread :
      (fuel n : ℕ) (v : V) (cmd : Command) (x : Document) (after : List Document)
      → rest v ≡ x ∷ after
      → is_str x ≡ false
      → IsMisread x after fuel
          (loop (suc n) r.at_end always (command_entry r fuel) v cmd >>= λ (_, s'). read s')
  unfolding loop command_entry
  loop-IsMisread fuel n v cmd x after e other = (
    v,
    n,
    cmd,
    e,
    other,
    refl,
    elim (Bool-cases (r.copy_text_string 15 v).0) [
      | inl copied ↦ inl copied
      | inr refused ↦ inr (simp (not_end v x after e, refused, loop, command_entry))
    ],
  )

  two_parts_bound :
      (msg : Command) (fuel : ℕ) (payload : List ℕ) (root : V)
      → msg.has_pwm_update ≡ true
      → msg.has_pwm_frequency ≡ true
      → r.parser_init payload ≡ some root
      → r.is_map root ≡ true
      → rest root ≡ command_document msg ∷ []
      → IsMisread
          (pwm_freq_document msg)
          (gpio_items msg)
          (suc (suc (suc (suc (suc (suc fuel))))))
          (decode_command_cbor r (suc (suc (suc (suc (suc (suc fuel)))))) payload)
  unfolding decode_command_cbor flat outermost
  two_parts_bound msg fuel payload root update frequency parsed is_map e =
      let n = suc (suc (suc (suc (suc (suc fuel))))) in
      let (v, entered, items_, _) = laws.enter_lem root _ [] e in
      let (v', cmd', there, looped) =
        two_parts_loop fuel v msg cleared (str (codes "cmd")) (pwm_freq_document msg) _
          (items_ ∙ ap behind_header (flat-command_tail msg update frequency)) in
      let decoded : decode_command_cbor r n payload
          ≡ (loop (suc fuel) r.at_end always (command_entry r n) v' cmd' >>= λ (_, s'). read s') =
        simp (parsed, is_map, entered, looped, outermost) in
      subst (IsMisread (pwm_freq_document msg) (gpio_items msg) n) (sym decoded)
        (loop-IsMisread n fuel v' cmd' (pwm_freq_document msg) _ there refl)
    where
      behind_header : List Document → List Document
      behind_header xs =
          str (codes "v")
          ∷ (num 1
              ∷ (str (codes "type")
                  ∷ (str (codes "cmd")
                      ∷ (str (codes "ts")
                          ∷ (num msg.timestamp_ms
                              ∷ (str (codes "seq") ∷ (num msg.sequence_id ∷ xs)))))))

  -- Where the message is the document that the encoder writes for a command that sets both a duty and the frequency,
  -- and TinyCBOR does what it documents, the decoder comes to copy the value of `pwm_freq`, a map, as the name of a
  -- field, for every bound of six rounds or more: TinyCBOR reports this copy as successful, or the decoder
  -- returns false.
  pub two_parts-IsMisread :
      (msg : Command) (fuel : ℕ) (payload : List ℕ) (root : V)
      → msg.has_pwm_update ≡ true
      → msg.has_pwm_frequency ≡ true
      → 6 ≤ fuel
      → r.parser_init payload ≡ some root
      → r.is_map root ≡ true
      → rest root ≡ command_document msg ∷ []
      → IsMisread (pwm_freq_document msg) (gpio_items msg) fuel (decode_command_cbor r fuel payload)
  two_parts-IsMisread msg fuel payload root update frequency enough parsed is_map e =
      let n : suc (suc (suc (suc (suc (suc (fuel - 6)))))) ≡ fuel = omega arith in
      subst
        (λ k.
          IsMisread (pwm_freq_document msg) (gpio_items msg) k (decode_command_cbor r k payload))
        n (two_parts_bound msg (fuel - 6) payload root update frequency parsed is_map e)
