-- ===== src/Node/DataModel/Publish.antt =====
-- When a frame is due, and where it is staged.
use n32r.Prelude.{
  ℕ, zero, suc, ◌+◌, ◌%◌, ◌≡◌, ◌≢◌, refl, sym, ◌∙◌, Bool, true, false, some, List, [], ◌∷◌, arith,
  set, get_elem?, get_elem?-set_self, get_elem?-set_ne,
}
use n32r.Prelude.Bytes.{bytes_eq_refl}
use n32r.Node.DataModel.{
  Sht20, Ds18b20, Mcp23017, Update, Model, sht20_changed, ds18b20_changed, mcp_eq, should_publish,
  build,
}
use n32r.Node.DataModel.Bounds.{IsValid}

-- What a successful build has done.
record Built {F : Type 0} (bytes : List ℕ) (model : Model F) (index : ℕ) (model' : Model F)
    : Type 0 where
  at : index ≡ model.next_encode_index % 2
  staged : model'.encode_buffers ≡ set model.encode_buffers index bytes
  kept : model'.current ≡ model.current
  published : model'.last_published ≡ model.current
  next : model'.next_encode_index ≡ (index + 1) % 2

build-Built :
    {F : Type 0} (encode : Update F → List ℕ × Bool) (locked : Bool) (model : Model F) {index : ℕ}
    {model' : Model F}
    → build encode locked model ≡ (some index, model')
    → Built (encode model.current).0 model index model'
unfolding build
build-Built encode locked model h = record {
  at = ground arith;
  staged = ground arith;
  kept = ground arith;
  published = ground arith;
  next = ground arith;
}

module _ {F : Type 0} (value_changed : F → F → F → Bool) (dt dh : F) where
  -- A value does not differ from itself by more than the thresholds.
  abbrev pub Steady : Type 0
  Steady = (x : F) → (value_changed x x dt ≡ false) × (value_changed x x dh ≡ false)

  module _ (steady : Steady) where
    sht20_same :
        (count : ℕ) (xs : List (Sht20 F)) → sht20_changed value_changed dt dh count xs xs ≡ false
    unfolding sht20_changed
    sht20_same zero xs = refl
    sht20_same (suc count) [] = refl
    sht20_same (suc count) (x ∷ xs) =
        ground
          (arith, (steady x.temperature_c).0, (steady x.humidity_percent).1, sht20_same count xs)

    ds18b20_same :
        (count : ℕ) (xs : List (Ds18b20 F)) → ds18b20_changed value_changed dt count xs xs ≡ false
    unfolding ds18b20_changed
    ds18b20_same zero xs = refl
    ds18b20_same (suc count) [] = refl
    ds18b20_same (suc count) (x ∷ xs) =
        ground (arith, (steady x.temperature_c).0, ds18b20_same count xs)

    mcp_same : (xs : List Mcp23017) → mcp_eq xs xs ≡ true
    unfolding mcp_eq
    mcp_same [] = refl
    mcp_same (x ∷ xs) = ground (arith, mcp_same xs)

    -- Right after a frame with a sequence number other than 0 has been built, no frame is due. It
    -- is assumed that a value does not differ from itself by more than the thresholds.
    pub should_publish-build :
        (encode : Update F → List ℕ × Bool) (locked locked' : Bool) (model : Model F) {index : ℕ}
        {model' : Model F}
        → model.current.sequence_id ≢ 0
        → build encode locked model ≡ (some index, model')
        → should_publish value_changed locked' dt dh model' ≡ false
    unfolding should_publish
    should_publish-build encode locked locked' model seq h =
        let b = build-Built encode locked model h in
        let u = model.current in
        rw (b.kept, b.published)
          (ground (
            arith,
            sht20_same u.sht20_count u.sht20,
            ds18b20_same u.ds18b20_count u.ds18b20,
            mcp_same u.mcp,
            bytes_eq_refl u.duty_cycle,
          ))

module _ {F : Type 0} where
  -- In a valid model, two frames that are built one after the other lie in different staging
  -- buffers, and the second leaves the first as it was handed out.
  pub build_twice :
      (encode encode' : Update F → List ℕ × Bool) (locked locked' : Bool) (model : Model F)
      {index index' : ℕ} {model' model'' : Model F}
      → IsValid model
      → build encode locked model ≡ (some index, model')
      → build encode' locked' model' ≡ (some index', model'')
      → (index ≢ index')
        × (get_elem? model'.encode_buffers index ≡ some (encode model.current).0)
        × (get_elem? model''.encode_buffers index ≡ some (encode model.current).0)
  build_twice encode encode' locked locked' model {index} {index'} {model'} {model''} v h h' =
      let b = build-Built encode locked model h in
      let b' = build-Built encode' locked' model' h' in
      let ne : index ≢ index' = λ e. omega (arith, b.at, b.next, b'.at) in
      let here : get_elem? model'.encode_buffers index ≡ some (encode model.current).0 =
        rw b.staged
          (get_elem?-set_self model.encode_buffers index _ (omega (arith, b.at, v.buffers))) in
      (ne, here, rw b'.staged (get_elem?-set_ne model'.encode_buffers _ (λ e. ne (sym e)) ∙ here))
