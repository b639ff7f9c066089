-- ===== src/Proto/Document.antt =====
-- JSON documents and their text, the specification of what messages.c prints.
use n32r.Prelude.{ℕ, Bool, true, List, [], ◌∷◌, ◌++◌, if◌then◌else◌, ◌≡◌, refl}
use n32r.Prelude.Bytes.{codes}
use n32r.Proto.Printf.{decimal, digits_from}

-- A number with a fraction is the text that it is printed as.
mutual
  pub data Document : Type 0 where
    num : ℕ → Document
    real : List ℕ → Document
    str : List ℕ → Document
    bool : Bool → Document
    arr : Items → Document
    obj : Fields → Document

  pub data Items : Type 0 where
    nil : Items
    cons : Document → Items → Items

  pub data Fields : Type 0 where
    end : Fields
    field : List ℕ → Document → Fields → Fields

unfoldable pub items : List Document → Items
items [] = nil
items (x ∷ xs) = cons x (items xs)

abbrev pub quoted : List ℕ → List ℕ
quoted s = b'"' ∷ (s ++ codes "\"")

-- Compact text: no space, and a comma before each item but the first.
unfoldable mutual
  pub render : Document → List ℕ
  render (num n) = decimal n
  render (real text) = text
  render (str s) = quoted s
  render (bool b) = if b then codes "true" else codes "false"
  render (arr xs) = codes "[" ++ render_items [] xs
  render (obj fs) = codes "{" ++ render_fields [] fs

  pub render_items : List ℕ → Items → List ℕ
  render_items sep nil = codes "]"
  render_items sep (cons x xs) = sep ++ (render x ++ render_items (codes ",") xs)

  pub render_fields : List ℕ → Fields → List ℕ
  render_fields sep end = codes "}"
  render_fields sep (field key x fs) =
      sep ++ (quoted key ++ (codes ":" ++ (render x ++ render_fields (codes ",") fs)))

render_small :
    render (obj (field (codes "a") (num 10) (field (codes "b") (arr (cons (bool true) nil)) end)))
    ≡ codes "{\"a\":10,\"b\":[true]}"
unfolding render decimal digits_from
render_small = refl
