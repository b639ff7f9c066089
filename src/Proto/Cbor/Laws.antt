-- ===== src/Proto/Cbor/Laws.antt =====
-- The calls of TinyCBOR write the documents that the JSON encoders print, each container with the length that it has.
use n32r.Node.DataModel.Bounds.{IsSized}
use n32r.Prelude.{
  length-map, Bool, List, [], ap, append_assoc, arith, false, length, length-map, length-take, map,
  none, refl, some, suc, take, true, zero, ℕ, ◌++◌, ◌∷◌, ◌≡◌, ◌≤◌,
}
use n32r.Prelude.Bytes.{codes}
use n32r.Node.DataModel.{Sht20, Ds18b20, Update}
use n32r.Proto.{Command}
use n32r.Proto.Document.{
  Document, num, real, str, bool, arr, obj, Items, items, nil, cons, Fields, end, field,
}
use n32r.Proto.Schema.{
  optional, command_document, sht20_document, ds18b20_document, sensor_update_document,
}
use n32r.Proto.Cbor.{
  Call, create_map, create_array, close_container, encode_text, encode_uint, encode_float,
  encode_boolean, command_calls, made, sht20_calls, ds18b20_calls, duty_calls, sensor_update_calls,
}

-- How many items or members there are.
unfoldable pub count_items : Items → ℕ
count_items nil = 0
count_items (cons x xs) = suc (count_items xs)

unfoldable pub count_fields : Fields → ℕ
count_fields end = 0
count_fields (field name x fs) = suc (count_fields fs)

-- The calls that write a document: a float is given as the text that it is printed as.
unfoldable mutual
  pub emit : Document → List (Call (List ℕ))
  emit (num n) = encode_uint n ∷ []
  emit (real text) = encode_float text ∷ []
  emit (str s) = encode_text s ∷ []
  emit (bool b) = encode_boolean b ∷ []
  emit (arr xs) = create_array (count_items xs) ∷ emit_items xs
  emit (obj fs) = create_map (some (count_fields fs)) ∷ emit_fields fs

  pub emit_items : Items → List (Call (List ℕ))
  emit_items nil = close_container ∷ []
  emit_items (cons x xs) = emit x ++ emit_items xs

  pub emit_fields : Fields → List (Call (List ℕ))
  emit_fields end = close_container ∷ []
  emit_fields (field name x fs) = encode_text name ∷ (emit x ++ emit_fields fs)

-- The outermost map is of indefinite length.
unfoldable pub emit_message : Document → List (Call (List ℕ))
emit_message (obj fs) = create_map none ∷ emit_fields fs
emit_message (num n) = []
emit_message (real text) = []
emit_message (str s) = []
emit_message (bool b) = []
emit_message (arr xs) = []

made-optional :
    (test : Bool) (name : List ℕ) (x : Document) (fs : Fields) (calls later : List (Call (List ℕ)))
    → calls ≡ encode_text name ∷ emit x
    → later ≡ emit_fields fs
    → made test calls ++ later ≡ emit_fields (optional test name x fs)
unfolding emit
made-optional false name x fs calls later e f = f
made-optional true name x fs calls later e f = rw (e, f) refl

-- The calls for a command write its document.
pub command_calls-emit : (msg : Command) → command_calls msg ≡ emit_message (command_document msg)
unfolding command_calls emit emit_message count_fields
command_calls-emit msg =
    ap
      (λ t.
        create_map none
        ∷ (encode_text (codes "v")
            ∷ (encode_uint 1
                ∷ (encode_text (codes "type")
                    ∷ (encode_text (codes "cmd")
                        ∷ (encode_text (codes "ts")
                            ∷ (encode_uint msg.timestamp_ms
                                ∷ (encode_text (codes "seq")
                                    ∷ (encode_uint msg.sequence_id ∷ t)))))))))
      (made-optional msg.has_pwm_update _ _ _ _ _ refl (
        made-optional msg.has_pwm_frequency _ _ _ _ _ refl
          (made-optional msg.has_gpio_write _ _ _ _ _ refl refl)))

-- Calls with their floats as text.
abbrev pub as_text : {F : Type 0} → (F → List ℕ) → Call F → Call (List ℕ)
as_text print (create_map n) = create_map n
as_text print (create_array n) = create_array n
as_text print close_container = close_container
as_text print (encode_text s) = encode_text s
as_text print (encode_uint n) = encode_uint n
as_text print (encode_float x) = encode_float (print x)
as_text print (encode_boolean b) = encode_boolean b

map-append : {A B : Type 0} (f : A → B) (xs ys : List A) → map f (xs ++ ys) ≡ map f xs ++ map f ys
map-append f [] ys = refl
map-append f (x ∷ xs) ys = ap (λ t. f x ∷ t) (map-append f xs ys)

count-items : (xs : List Document) → count_items (items xs) ≡ length xs
unfolding count_items items
count-items [] = refl
count-items (x ∷ xs) = ap suc (count-items xs)

module _ {F : Type 0} (print : F → List ℕ) where
  sht20_calls-emit :
      (left : ℕ) (entries : List (Sht20 F)) (rest : List (Call (List ℕ)))
      → map (as_text print) (sht20_calls left entries) ++ (close_container ∷ rest)
        ≡ emit_items (items (map (sht20_document print) (take left entries))) ++ rest
  unfolding emit sht20_calls items count_fields
  sht20_calls-emit zero entries rest = refl
  sht20_calls-emit (suc left) [] rest = refl
  sht20_calls-emit (suc left) (entry ∷ entries) rest =
      simp (append_assoc, sht20_calls-emit left entries rest)

  ds18b20_calls-emit :
      (left : ℕ) (entries : List (Ds18b20 F)) (rest : List (Call (List ℕ)))
      → map (as_text print) (ds18b20_calls left entries) ++ (close_container ∷ rest)
        ≡ emit_items (items (map (ds18b20_document print) (take left entries))) ++ rest
  unfolding emit ds18b20_calls items count_fields
  ds18b20_calls-emit zero entries rest = refl
  ds18b20_calls-emit (suc left) [] rest = refl
  ds18b20_calls-emit (suc left) (entry ∷ entries) rest =
      simp (append_assoc, ds18b20_calls-emit left entries rest)

  duty_calls-emit :
      (duties : List ℕ) (rest : List (Call (List ℕ)))
      → map (as_text print) (duty_calls duties) ++ (close_container ∷ rest)
        ≡ emit_items (items (map num duties)) ++ rest
  unfolding emit duty_calls items
  duty_calls-emit [] rest = refl
  duty_calls-emit (duty ∷ duties) rest = simp (append_assoc, duty_calls-emit duties rest)

  count_taken :
      {A : Type 0} (document : A → Document) (n : ℕ) (xs : List A)
      → n ≤ length xs
      → count_items (items (map document (take n xs))) ≡ n
  count_taken document n xs h = omega (
    arith,
    count-items (map document (take n xs)),
    length-map (take n xs) document,
    length-take n xs,
  )

  -- Where the counts stay within the arrays, the calls for a sensor update write its document, and each container
  -- but the outermost is opened with the number of items or members that are written into it.
  pub sensor_update_calls-emit :
      (msg : Update F)
      → IsSized msg
      → map (as_text print) (sensor_update_calls msg)
        ≡ emit_message (sensor_update_document print msg)
  unfolding sensor_update_calls emit emit_message count_fields
  sensor_update_calls-emit msg sized =
      let shts : count_items (items (map (sht20_document print) (take msg.sht20_count msg.sht20)))
          ≡ msg.sht20_count =
        (let u = sized.sht20_used in
          count_taken (sht20_document print) msg.sht20_count msg.sht20
            (let v = sized.sht20_size in omega arith)) in
      let dss : count_items
            (items (map (ds18b20_document print) (take msg.ds18b20_count msg.ds18b20)))
          ≡ msg.ds18b20_count =
        (let u = sized.ds18b20_used in
          count_taken (ds18b20_document print) msg.ds18b20_count msg.ds18b20
            (let v = sized.ds18b20_size in omega arith)) in
      let duties : count_items (items (map num msg.duty_cycle)) ≡ 16 =
        (let v = sized.duty_size in
          omega (arith, count-items (map num msg.duty_cycle), length-map msg.duty_cycle num)) in
      simp (
        map-append, append_assoc, sht20_calls-emit, ds18b20_calls-emit, duty_calls-emit, shts, dss,
        duties,
      )
