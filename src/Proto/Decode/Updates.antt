-- ===== src/Proto/Decode/Updates.antt =====
-- A sensor update that was printed is decoded to itself, its floats as they are read back.
use n32r.Prelude.{
  All, List, [], ap, ap₂, arith, length, map, refl, replicate, some, suc, take, true, zero, ℕ, ◌%◌,
  ◌++◌, ◌-◌, ◌<◌, ◌∙◌, ◌∷◌, ◌≡◌, ◌≤◌, ◌*◌, set, append-nil,
}
use n32r.Prelude.Bytes.{codes, bytes_eq}
use n32r.Node.DataModel.{Sht20, Update, Mcp23017, Ds18b20}
use n32r.Proto.Printf.{hex}
use n32r.Proto.Document.{Document, real, str, bool, obj, items, Fields, end, field, arr, num}
use n32r.Proto.Schema.{sht20_document, mcp_document}
use n32r.Proto.Cjson.{Cjson, IsCjson, find, list_of}
use n32r.Proto.Decode.{
  fill, rom_bytes, float_at, decode_sht20, elements, decode_mcp, decode_pwm, decode_gpio,
  decode_pca9685,
}
use n32r.Proto.Decode.Laws.{string_member, has, u16_member}
use n32r.Node.DataModel.Bounds.{IsSized}
use n32r.Proto.Json.{expander}
use n32r.Prelude.Words.{u32_mod}

abbrev pub IsByte : ℕ → Type 0
IsByte n = n < 256

abbrev pub IsU16 : ℕ → Type 0
IsU16 n = n < 65536

list_of-items : (xs : List Document) → list_of (items xs) ≡ xs
unfolding list_of items
list_of-items [] = refl
list_of-items (x ∷ xs) = ap (λ t. x ∷ t) (list_of-items xs)

-- Slots that all hold the same are filled from the first on.
pub fill_lem :
    {Node A B : Type 0} (read : Node → B → B) (node : A → Node) (result : A → B) (blank : B)
    (P : A → Type 0)
    → ((x : A) → P x → read (node x) blank ≡ result x)
    → (xs : List A) (n : ℕ) → All P xs
    → length xs ≤ n
    → fill read (map node xs) (replicate n blank) ≡ map result xs ++ replicate (n - length xs) blank
unfolding fill
fill_lem read node result blank P each [] n all fits =
    (let e : n - 0 ≡ n = omega arith in rw e refl)
fill_lem read node result blank P each (x ∷ xs) zero all fits = absurd (omega arith)
fill_lem read node result blank P each (x ∷ xs) (suc n) all fits =
    (let e : suc n - suc (length xs) ≡ n - length xs = omega arith in
      rw e (
        ap₂ (λ y ys. y ∷ ys) (each x all.0)
          (fill_lem read node result blank P each xs n all.1 (omega arith))))

take_all : (n : ℕ) (xs : List ℕ) → length xs ≤ n → take n xs ≡ xs
take_all zero [] h = refl
take_all zero (x ∷ xs) h = absurd (omega arith)
take_all (suc n) [] h = refl
take_all (suc n) (x ∷ xs) h = ap (λ t. x ∷ t) (take_all n xs (omega arith))

module _ {Node Double F : Type 0} (j : Cjson Node Double F) (node : Document → Node)
    (read_real : List ℕ → F) (laws : IsCjson j node read_real) where
  pub rom_bytes-hex :
      (rom out : List ℕ)
      → All IsByte rom
      → length out ≡ length rom
      → rom_bytes j.scan_hex (hex rom) out ≡ (true, rom)
  unfolding rom_bytes hex
  rom_bytes-hex [] [] all e = refl
  rom_bytes-hex [] (b ∷ out) all e = absurd (omega arith)
  rom_bytes-hex (b ∷ rom) [] all e = absurd (omega arith)
  rom_bytes-hex (b ∷ rom) (c ∷ out) all e =
      let low : b % 256 ≡ b = (let h = all.0 in omega arith) in
      simp (
        laws.scan_hex_lem b (hex rom) all.0,
        rom_bytes,
        rom_bytes-hex rom out all.1 (omega arith),
        low,
      )

  pub float_member :
      (fs : Fields) (key text : List ℕ)
      → find key fs ≡ some (real text)
      → float_at j (some (node (obj fs))) key ≡ read_real text
  unfolding float_at
  float_member fs key text e =
      ap (λ item. j.to_float (j.get_number_value item)) (has j node read_real laws fs key _ e)
      ∙ laws.float_node text

  module _ (print_float : F → List ℕ) where
    abbrev pub read_back : F → F
    read_back x = read_real (print_float x)

    pub sht20_lem :
        (e : Sht20 F) (blank : Sht20 F)
        → length e.id ≤ 15
        → decode_sht20 j (node (sht20_document print_float e)) blank ≡ record e {
          temperature_c = read_back e.temperature_c;
          humidity_percent = read_back e.humidity_percent;
        }
    unfolding decode_sht20 find bytes_eq
    sht20_lem e blank short =
        let fs : Fields = field (codes "id") (str e.id) (
          field (codes "t") (real (print_float e.temperature_c)) (
            field (codes "rh") (real (print_float e.humidity_percent))
              (field (codes "ok") (bool e.valid) end))) in
        simp (
          string_member j node read_real laws fs (codes "id") e.id refl,
          float_member fs (codes "t") (print_float e.temperature_c) refl,
          float_member fs (codes "rh") (print_float e.humidity_percent) refl,
          has j node read_real laws fs (codes "ok") (some (bool e.valid)) refl,
          laws.is_true_node e.valid,
          take_all 15 e.id short,
        )

-- The code of a sensor on the one-wire bus.
abbrev pub IsRom : List ℕ → Type 0
IsRom rom = (length rom ≡ 8) × All IsByte rom

-- The arrays have their sizes, and the numbers and strings fit their types.
pub record IsReported {F : Type 0} (msg : Update F) : Type 0 where
  pub sized : IsSized msg
  pub timestamp_ms : msg.timestamp_ms < u32_mod
  pub sequence_id : msg.sequence_id < u32_mod
  pub ids : All (λ (e : Sht20 F). length e.id ≤ 15) msg.sht20
  pub roms : All (λ (e : Ds18b20 F). IsRom e.rom_code) msg.ds18b20
  pub ports : All (λ (m : Mcp23017). IsU16 m.port_a × IsU16 m.port_b) msg.mcp
  pub frequency_hz : IsU16 msg.frequency_hz
  pub duties : All IsU16 msg.duty_cycle

pub length-hex : (rom : List ℕ) → length (hex rom) ≡ 2 * length rom
unfolding hex
length-hex [] = refl
length-hex (b ∷ rom) = omega (arith, length-hex rom)

pub All-take : {A : Type 0} (P : A → Type 0) (n : ℕ) (xs : List A) → All P xs → All P (take n xs)
All-take P zero xs all = tt
All-take P (suc n) [] all = tt
All-take P (suc n) (x ∷ xs) all = (all.0, All-take P n xs all.1)

map-map :
    {A B C : Type 0} (f : A → B) (g : B → C) (xs : List A)
    → map g (map f xs) ≡ map (λ x. g (f x)) xs
map-map f g [] = refl
map-map f g (x ∷ xs) = ap (λ t. g (f x) ∷ t) (map-map f g xs)

map_self : (xs : List ℕ) → map (λ x. x) xs ≡ xs
map_self [] = refl
map_self (x ∷ xs) = ap (λ t. x ∷ t) (map_self xs)

pub expanders :
    (mcp : List Mcp23017) → length mcp ≡ 2 → mcp ≡ expander 0 mcp ∷ (expander 1 mcp ∷ [])
expanders [] e = absurd (omega arith)
expanders (a ∷ []) e = absurd (omega arith)
expanders (a ∷ (b ∷ [])) e = refl
expanders (a ∷ (b ∷ (c ∷ mcp))) e = absurd (omega arith)

module _ {Node Double F : Type 0} (j : Cjson Node Double F) (node : Document → Node)
    (read_real : List ℕ → F) (laws : IsCjson j node read_real) where
  pub elements_lem :
      {A : Type 0} (document : A → Document) (xs : List A)
      → elements j (some (node (arr (items (map document xs))))) ≡ map (λ x. node (document x)) xs
  elements_lem document xs =
      rw
        (
          laws.is_array_node (items (map document xs)),
          laws.children_node (items (map document xs)),
          list_of-items (map document xs),
        )
        (map-map document node xs)

  mcp_lem :
      (m : Mcp23017) (i : ℕ) (mcp : List Mcp23017)
      → IsU16 m.port_a × IsU16 m.port_b
      → decode_mcp j (some (node (mcp_document m))) i mcp ≡ set mcp i m
  unfolding decode_mcp find bytes_eq
  mcp_lem m i mcp (a, b) =
      let fs : Fields = field (codes "A") (num m.port_a) (field (codes "B") (num m.port_b) end) in
      rw
        (
          laws.is_object_node (obj fs),
          u16_member j node read_real laws fs (codes "A") m.port_a refl a,
          u16_member j node read_real laws fs (codes "B") m.port_b refl b,
        )
        refl

  pub gpio_lem :
      (a b : Mcp23017) (mcp : List Mcp23017)
      → IsU16 a.port_a × IsU16 a.port_b
      → IsU16 b.port_a × IsU16 b.port_b
      → decode_gpio j
          (some (
            node (
              obj (
                field
                  (codes "mcp0")
                  (mcp_document a)
                  (field (codes "mcp1") (mcp_document b) end)))))
          mcp
        ≡ set (set mcp 0 a) 1 b
  unfolding decode_gpio find bytes_eq
  gpio_lem a b mcp ha hb =
      let fs : Fields =
        field (codes "mcp0") (mcp_document a) (field (codes "mcp1") (mcp_document b) end) in
      rw
        (
          laws.is_object_node (obj fs),
          has j node read_real laws fs (codes "mcp0") _ refl,
          has j node read_real laws fs (codes "mcp1") _ refl,
          mcp_lem a 0 mcp ha,
          mcp_lem b 1 (set mcp 0 a) hb,
        )
        refl

  pub pwm_lem :
      (freq : ℕ) (duties : List ℕ) (msg : Update F)
      → IsU16 freq
      → All IsU16 duties
      → length duties ≡ 16
      → msg.duty_cycle ≡ replicate 16 0
      → decode_pwm j
          (some (
            node (
              obj (
                field
                  (codes "pca9685")
                  (obj (
                    field
                      (codes "freq")
                      (num freq)
                      (field (codes "duty") (arr (items (map num duties))) end)))
                  end))))
          msg
        ≡ record msg { frequency_hz = freq; duty_cycle = duties }
  unfolding decode_pwm decode_pca9685 find bytes_eq
  pwm_lem freq duties msg small all size blank =
      let inner : Fields =
        field (codes "freq") (num freq) (field (codes "duty") (arr (items (map num duties))) end) in
      let fs : Fields = field (codes "pca9685") (obj inner) end in
      let left : 16 - length duties ≡ 0 = omega arith in
      rw
        (
          laws.is_object_node (obj fs),
          has j node read_real laws fs (codes "pca9685") (some (obj inner)) refl,
          laws.is_object_node (obj inner),
          u16_member j node read_real laws inner (codes "freq") freq refl small,
          has j node read_real laws inner (codes "duty") _ refl,
          elements_lem num duties,
          blank,
          fill_lem (λ n (_ : ℕ). j.to_u16 (j.get_number_value (some n))) (λ n. node (num n))
              (λ n. n) 0 IsU16 (λ n h. laws.u16_node n h) duties 16 all (omega arith),
          map_self duties,
          left,
          append-nil,
        )
        refl
