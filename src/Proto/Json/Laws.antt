-- ===== src/Proto/Json/Laws.antt =====
-- What the encoders print is the compact text of a document, or nothing where it does not fit.
use n32r.Prelude.{
  Bool, List, [], append_assoc, arith, false, if◌then◌else◌, length, ltb, map, none, refl, some,
  suc, take, true, zero, ℕ, ◌++◌, ◌∷◌, ◌≡◌, Option,
}
use n32r.Prelude.Bytes.{codes}
use n32r.Util.Crc32.{proto_crc32}
use n32r.Node.DataModel.{Sht20, Ds18b20, Update}
use n32r.Proto.{Command}
use n32r.Proto.Printf.{append_all_lem, concat, decimal, digits_from}
use n32r.Proto.Document.{Document, num, items, Fields, render, render_items, render_fields, quoted}
use n32r.Proto.Schema.{
  optional, command_tail, command_document, sht20_document, ds18b20_document,
  sensor_update_document,
}
use n32r.Proto.Json.{
  command_calls, optional_calls, sht20_calls, ds18b20_calls, duty_calls, sensor_update_calls, comma,
  encode_sensor_update_json_into, printed_all, encode_command_json_into, called,
}

-- A text with its checksum where it fits with the terminator.
abbrev pub fitted : List ℕ → ℕ → Option (List ℕ × ℕ)
fitted text buffer_len =
    if ltb (length text) buffer_len then some (text, proto_crc32 text) else none

pub printed_all_lem :
    (calls : List (List ℕ)) (buffer_len : ℕ)
    → printed_all calls buffer_len ≡ fitted (concat calls) buffer_len
unfolding printed_all
printed_all_lem calls buffer_len =
    ground (arith, append_all_lem calls (record { text = []; remaining = buffer_len }))

concat-optional :
    (test : Bool) (key : List ℕ) (x : Document) (fs : Fields) (printed : List ℕ)
    (calls : List (List ℕ))
    → printed ≡ codes "," ++ (quoted key ++ (codes ":" ++ render x))
    → concat calls ≡ render_fields (codes ",") fs
    → concat (called test printed ++ calls) ≡ render_fields (codes ",") (optional test key x fs)
unfolding concat render
concat-optional false key x fs printed calls e f = f
concat-optional true key x fs printed calls e f = rw (e, f) (simp append_assoc)

decimal-one : decimal 1 ≡ codes "1"
unfolding decimal digits_from
decimal-one = refl

optional_calls-render :
    (msg : Command) → concat (optional_calls msg) ≡ render_fields (codes ",") (command_tail msg)
unfolding concat render optional_calls
optional_calls-render msg = concat-optional msg.has_pwm_update _ _ _ _ _ (simp append_assoc) (
    concat-optional msg.has_pwm_frequency _ _ _ _ _ (simp append_assoc)
      (concat-optional msg.has_gpio_write _ _ _ _ _ (simp append_assoc) refl))

pub command_calls-render :
    (msg : Command) → concat (command_calls msg) ≡ render (command_document msg)
unfolding concat render command_calls
command_calls-render msg = simp (decimal-one, append_assoc, optional_calls-render msg)

-- Whatever the size of the buffer: the text of the command's document with its checksum where it fits with a
-- terminator, and nothing else.
pub encode_command-render :
    (msg : Command) (buffer_len : ℕ)
    → encode_command_json_into msg buffer_len ≡ fitted (render (command_document msg)) buffer_len
unfolding encode_command_json_into
encode_command-render msg buffer_len =
    rw (printed_all_lem (command_calls msg) buffer_len, command_calls-render msg)

pub concat-append : (xss yss : List (List ℕ)) → concat (xss ++ yss) ≡ concat xss ++ concat yss
unfolding concat
concat-append [] yss = refl
concat-append (xs ∷ xss) yss = simp (concat-append xss yss, append_assoc)

module _ {F : Type 0} (print_float : F → List ℕ) where
  sht20_calls-render :
      (is_first : Bool) (left : ℕ) (entries : List (Sht20 F)) (rest : List ℕ)
      → concat (sht20_calls print_float is_first left entries) ++ (93 ∷ rest)
        ≡ render_items
            (comma is_first)
            (items (map (sht20_document print_float) (take left entries)))
          ++ rest
  unfolding concat render sht20_calls items
  sht20_calls-render is_first zero entries rest = refl
  sht20_calls-render is_first (suc left) [] rest = refl
  sht20_calls-render is_first (suc left) (entry ∷ entries) rest =
      simp (append_assoc, sht20_calls-render false left entries rest)

  ds18b20_calls-render :
      (is_first : Bool) (left : ℕ) (entries : List (Ds18b20 F)) (rest : List ℕ)
      → concat (ds18b20_calls print_float is_first left entries) ++ (93 ∷ rest)
        ≡ render_items
            (comma is_first)
            (items (map (ds18b20_document print_float) (take left entries)))
          ++ rest
  unfolding concat render ds18b20_calls items
  ds18b20_calls-render is_first zero entries rest = refl
  ds18b20_calls-render is_first (suc left) [] rest = refl
  ds18b20_calls-render is_first (suc left) (entry ∷ entries) rest =
      simp (append_assoc, ds18b20_calls-render false left entries rest)

duty_calls-render :
    (is_first : Bool) (duties rest : List ℕ)
    → concat (duty_calls is_first duties) ++ (93 ∷ rest)
      ≡ render_items (comma is_first) (items (map num duties)) ++ rest
unfolding concat render duty_calls items
duty_calls-render is_first [] rest = refl
duty_calls-render is_first (duty ∷ duties) rest =
    simp (append_assoc, duty_calls-render false duties rest)

module _ {F : Type 0} (print_float : F → List ℕ) where
  sensor_update_calls-render :
      (msg : Update F)
      → concat (sensor_update_calls print_float msg)
        ≡ render (sensor_update_document print_float msg)
  unfolding concat render sensor_update_calls
  sensor_update_calls-render msg = simp (
    decimal-one, append_assoc, concat-append, sht20_calls-render, ds18b20_calls-render,
    duty_calls-render,
  )

  -- Whatever the size of the buffer: the text of the update's document with its checksum where it fits with a
  -- terminator, and nothing else.
  pub encode_sensor_update-render :
      (msg : Update F) (buffer_len : ℕ)
      → encode_sensor_update_json_into print_float msg buffer_len
        ≡ fitted (render (sensor_update_document print_float msg)) buffer_len
  unfolding encode_sensor_update_json_into
  encode_sensor_update-render msg buffer_len = rw (
    printed_all_lem (sensor_update_calls print_float msg) buffer_len,
    sensor_update_calls-render msg,
  )
