-- ===== src/Proto/Cjson.antt =====
-- What messages.c uses of cJSON, of the conversions of its numbers and of sscanf. None of this is code of the
-- repository, so it is a parameter, and what the proofs rely on are hypotheses.
use n32r.Prelude.{
  ℕ, ◌+◌, ◌/◌, ◌%◌, ◌<◌, ◌≡◌, Bool, true, false, Option, none, some, List, [], ◌∷◌, map,
  if◌then◌else◌, ltb,
}
use n32r.Prelude.Words.{u32_mod}
use n32r.Prelude.Bytes.{bytes_eq}
use n32r.Proto.Printf.{hex_digit}
use n32r.Proto.Document.{
  Document, num, real, str, bool, arr, obj, Items, nil, cons, Fields, end, field,
}

-- A pointer that may be null is an option, and so is a string.
pub record Cjson (Node Double F : Type 0) : Type 0 where
  pub parse : List ℕ → Option Node
  pub get_object_item : Option Node → List ℕ → Option Node
  pub is_object : Option Node → Bool
  pub is_array : Option Node → Bool
  pub is_true : Option Node → Bool
  pub children : Option Node → List Node
  pub valuestring : Node → Option (List ℕ)
  pub get_number_value : Option Node → Double
  -- The conversions of a double to `uint8_t`, `uint16_t`, `uint32_t` and `float`.
  pub to_u8 : Double → ℕ
  pub to_u16 : Double → ℕ
  pub to_u32 : Double → ℕ
  pub to_float : Double → F
  -- `sscanf` with `%02X`
  pub scan_hex : List ℕ → Option ℕ

-- The names of members are compared without regard to case.
abbrev pub lower : ℕ → ℕ
lower c = if ltb c b'A' then c else (if ltb b'Z' c then c else c + 32)

unfoldable pub find : List ℕ → Fields → Option Document
find key end = none
find key (field name x fs) =
    if bytes_eq (map lower key) (map lower name) then some x else find key fs

abbrev pub map_option {ℓ κ} : {A : Type ℓ} {B : Type κ} → (A → B) → Option A → Option B
map_option f none = none
map_option f (some a) = some (f a)

unfoldable pub list_of : Items → List Document
list_of nil = []
list_of (cons x xs) = x ∷ list_of xs

abbrev pub is_obj : Document → Bool
is_obj (obj fs) = true
is_obj (num n) = false
is_obj (real text) = false
is_obj (str s) = false
is_obj (bool b) = false
is_obj (arr xs) = false

-- What cJSON documents: how the node of a document is read, and that a number in the range of a type converts to
-- it.
pub record IsCjson {Node Double F : Type 0} (j : Cjson Node Double F) (node : Document → Node)
    (read_real : List ℕ → F) : Type 0 where
  pub get_member :
      (fs : Fields) (key : List ℕ)
      → j.get_object_item (some (node (obj fs))) key ≡ map_option node (find key fs)
  pub is_object_null : j.is_object none ≡ false
  pub is_object_node : (x : Document) → j.is_object (some (node x)) ≡ is_obj x
  pub is_array_node : (xs : Items) → j.is_array (some (node (arr xs))) ≡ true
  pub is_true_node : (b : Bool) → j.is_true (some (node (bool b))) ≡ b
  pub children_node : (xs : Items) → j.children (some (node (arr xs))) ≡ map node (list_of xs)
  pub string_node : (s : List ℕ) → j.valuestring (node (str s)) ≡ some s
  pub u8_node : (n : ℕ) → n < 256 → j.to_u8 (j.get_number_value (some (node (num n)))) ≡ n
  pub u16_node : (n : ℕ) → n < 65536 → j.to_u16 (j.get_number_value (some (node (num n)))) ≡ n
  pub u32_node : (n : ℕ) → n < u32_mod → j.to_u32 (j.get_number_value (some (node (num n)))) ≡ n
  pub float_node :
      (text : List ℕ) → j.to_float (j.get_number_value (some (node (real text)))) ≡ read_real text
  pub scan_hex_lem :
      (b : ℕ) (rest : List ℕ)
      → b < 256
      → j.scan_hex (hex_digit (b / 16) ∷ (hex_digit (b % 16) ∷ rest)) ≡ some b
