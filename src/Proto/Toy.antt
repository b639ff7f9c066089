-- ===== src/Proto/Toy.antt =====
-- Libraries that meet the hypotheses of the codec, for its tests: a parser that knows one document, floats that are
-- their text, and a reader of items.
use n32r.Prelude.{
  Bool, List, Option, [], ap, arith, drop, false, if◌then◌else◌, leb, length, ltb, map, none, refl,
  some, true, ℕ, ◌%◌, ◌*◌, ◌++◌, ◌+◌, ◌-◌, ◌/◌, ◌<◌, ◌∙◌, ◌∷◌, ◌≡◌, ◌≤◌,
}
use n32r.Prelude.Bytes.{bytes_eq, bytes_eq_refl, codes}
use n32r.Prelude.Words.{u32_mod}
use n32r.Proto.Printf.{hex_digit}
use n32r.Proto.Document.{Document, num, real, str, bool, arr, obj, render}
use n32r.Proto.Cjson.{Cjson, IsCjson, find, map_option, is_obj, list_of}
use n32r.Proto.Cbor.{Encoder, Call}
use n32r.Proto.Tinycbor.{Reader}
use n32r.Proto.Tinycbor.Items.{IsReader, flat, is_nil}
use n32r.Proto.Codec.{Libraries}

abbrev pub Double : Type 0
Double = Option Document

abbrev pub Text : Type 0
Text = List ℕ

abbrev pub member : Option Document → List ℕ → Option Document
member none key = none
member (some (obj fs)) key = find key fs
member (some (num n)) key = none
member (some (real t)) key = none
member (some (str s)) key = none
member (some (bool b)) key = none
member (some (arr xs)) key = none

abbrev pub object : Option Document → Bool
object none = false
object (some x) = is_obj x

abbrev pub array : Option Document → Bool
array (some (arr xs)) = true
array _ = false

abbrev pub truth : Option Document → Bool
truth (some (bool b)) = b
truth _ = false

abbrev pub elements_of : Option Document → List Document
elements_of (some (arr xs)) = list_of xs
elements_of _ = []

abbrev pub string : Document → Option (List ℕ)
string (str s) = some s
string _ = none

abbrev pub natural : Double → ℕ
natural (some (num n)) = n
natural _ = 0

abbrev pub fraction : Double → Text
fraction (some (real t)) = t
fraction _ = []

abbrev pub digit_value : ℕ → ℕ
digit_value c = if ltb c b'A' then c - b'0' else c - b'A' + 10

abbrev pub two_digits : List ℕ → Option ℕ
two_digits (h ∷ (l ∷ rest)) = some (digit_value h * 16 + digit_value l)
two_digits _ = none

abbrev pub toy_cjson : Document → Cjson Document Double Text
toy_cjson known = record {
  parse = λ text. if bytes_eq text (render known) then some known else none;
  get_object_item = member;
  is_object = object;
  is_array = array;
  is_true = truth;
  children = elements_of;
  valuestring = string;
  get_number_value = λ item. item;
  to_u8 = λ x. natural x % 256;
  to_u16 = λ x. natural x % 65536;
  to_u32 = λ x. natural x % u32_mod;
  to_float = fraction;
  scan_hex = two_digits;
}

map_option_self : {A : Type 0} (o : Option A) → o ≡ map_option (λ x. x) o
map_option_self none = refl
map_option_self (some a) = refl

map_self : (xs : List Document) → xs ≡ map (λ x. x) xs
map_self [] = refl
map_self (x ∷ xs) = ap (λ t. x ∷ t) (map_self xs)

digit_value-hex_digit : (n : ℕ) → n < 16 → digit_value (hex_digit n) ≡ n
digit_value-hex_digit n h = ground arith

pub toy_cjson-IsCjson : (known : Document) → IsCjson (toy_cjson known) (λ x. x) (λ t. t)
toy_cjson-IsCjson known = record {
  get_member = λ fs key. map_option_self (find key fs);
  is_object_null = refl;
  is_object_node = λ x. refl;
  is_array_node = λ xs. refl;
  is_true_node = λ b. refl;
  children_node = λ xs. map_self (list_of xs);
  string_node = λ s. refl;
  u8_node = λ n h. omega arith;
  u16_node = λ n h. omega arith;
  u32_node = λ n h. omega arith;
  float_node = λ text. refl;
  scan_hex_lem = λ b rest h. ap some (
      rw
        (digit_value-hex_digit (b / 16) (omega arith), digit_value-hex_digit (b % 16) (omega arith))
        (omega arith));
}

-- The parser reads the text of the document that it knows.
pub toy_cjson_reads : (known : Document) → (toy_cjson known).parse (render known) ≡ some known
toy_cjson_reads known = rw (bytes_eq_refl (render known)) refl

abbrev pub children_of : List Document → Option (List Document)
children_of (obj fs ∷ rest) = some (flat fs)
children_of (arr xs ∷ rest) = some (list_of xs)
children_of _ = none

abbrev pub copied : ℕ → List Document → Bool × (List ℕ × List Document)
copied size (str s ∷ rest) = if leb (length s) size then (true, (s, rest)) else (false, ([], rest))
copied size v = (false, ([], v))

abbrev pub number_at : List Document → Option ℕ
number_at (num n ∷ rest) = some n
number_at _ = none

abbrev pub truth_at : List Document → Option Bool
truth_at (bool b ∷ rest) = some b
truth_at _ = none

abbrev pub next_item : List Document → Option Document
next_item [] = none
next_item (x ∷ rest) = some x

-- The items that are left, and those behind each container that is entered.
abbrev pub Position : Type 0
Position = List Document × List (List Document)

abbrev pub entered_at : Position → Option Position
entered_at (items, outer) = elim (children_of items) [
  | none ↦ none
  | some inner ↦ some (inner, drop 1 items ∷ outer)
]

abbrev pub left_at : Position → Position
left_at (items, []) = (items, [])
left_at (items, after ∷ outer) = (after, outer)

abbrev pub copied_at : ℕ → Position → Bool × (List ℕ × Position)
copied_at size (items, outer) =
    (let (done, (text, items')) = copied size items in (done, (text, (items', outer))))

abbrev pub toy_reader : Document → Reader Position Double
toy_reader known = record {
  parser_init = λ payload. some (known ∷ [], []);
  is_map = λ (items, outer). object (next_item items);
  enter_container = entered_at;
  at_end = λ (items, outer). is_nil items;
  copy_text_string = copied_at;
  get_uint64 = λ (items, outer). number_at items;
  get_boolean = λ (items, outer). truth_at items;
  get_double = λ (items, outer). next_item items;
  leave_container = λ v inner. left_at inner;
  advance = λ (items, outer). (drop 1 items, outer);
}

copied_text :
    (s : List ℕ) (after : List Document) (size : ℕ)
    → length s ≤ size
    → copied size (str s ∷ after) ≡ (true, (s, after))
copied_text s after size h = (let e : leb (length s) size ≡ true = ground arith in rw e refl)

pub toy_reader-IsReader : (known : Document) → IsReader (toy_reader known) (λ v. v.0) (λ v. v.1)
toy_reader-IsReader known = record {
  end_lem = λ v. refl;
  advance_lem = λ v x after e. (ap (drop 1) e, refl);
  enter_lem =
      λ v fs after e. ((flat fs, after ∷ v.1), ap (λ items. entered_at (items, v.1)) e, refl, refl);
  leave_lem = λ v inner fs after e done o. ap (λ outer. (left_at (inner.0, outer)).0) o;
  text_lem = λ v s after size e h. (
    (after, v.1),
    ap (λ items. copied_at size (items, v.1)) e
        ∙ ap (λ c. (c.0, (c.1.0, (c.1.1, v.1)))) (copied_text s after size h),
    refl,
    refl,
  );
  uint_lem = λ v n after e. ap number_at e;
}

-- An encoder that keeps the calls.
abbrev pub toy_encoder : Encoder (List (Call Text)) Text
toy_encoder = record {
  init = λ size. [];
  call = λ call calls. some (calls ++ (call ∷ []));
  extra_bytes_needed = λ calls. 0;
  written = λ calls. [];
}

abbrev pub toy : Document → Libraries (List (Call Text)) Position Document Double Text
toy known = record {
  print_float = λ text. text;
  encoder = toy_encoder;
  cjson = toy_cjson known;
  reader = toy_reader known;
  scan_index = λ text. none;
  zero_float = codes "0.00";
}
