-- ===== src/Node/DataModel/Bounds.antt =====
-- The arrays of the data model keep their sizes, and its counters stay within them.
use n32r.Prelude.{
  ℕ, ◌%◌, ◌≡◌, ◌≤◌, ◌<◌, Bool, true, List, [], ◌∷◌, arith, length, length-set, length-append,
  length-take, length-drop, take, drop,
}
use n32r.Node.DataModel.{
  Sht20, Ds18b20, Mcp23017, Update, Model, init, zeroed, set_sht20, set_ds18b20, set_gpio, set_pwm,
  set_timestamp, increment_seq, build,
}

-- A call of one of the operations that change the model.
pub data Op (F : Type 0) : Type 0 where
  op_sht20 : Bool → ℕ → Sht20 F → Op F
  op_ds18b20 : Bool → ℕ → Ds18b20 F → Op F
  op_gpio : Bool → ℕ → Mcp23017 → Op F
  op_pwm : Bool → List ℕ → ℕ → Op F
  op_timestamp : Bool → ℕ → Op F
  op_increment : Bool → Op F
  op_build : (Update F → List ℕ × Bool) → Bool → Op F

pub record IsSized {F : Type 0} (u : Update F) : Type 0 where
  pub sht20_size : length u.sht20 ≡ 2
  pub sht20_used : u.sht20_count ≤ 2
  pub ds18b20_size : length u.ds18b20 ≡ 4
  pub ds18b20_used : u.ds18b20_count ≤ 4
  pub mcp_size : length u.mcp ≡ 2
  pub duty_size : length u.duty_cycle ≡ 16

pub record IsValid {F : Type 0} (model : Model F) : Type 0 where
  pub ready : model.initialized ≡ true
  pub sized : IsSized model.current
  pub published : IsSized model.last_published
  pub buffers : length model.encode_buffers ≡ 2
  pub index : model.next_encode_index < 2

module _ {F : Type 0} where
  -- Calls in their order.
  unfoldable pub run : Op F → Model F → Model F
  run (op_sht20 locked index reading) model = set_sht20 locked index reading model
  run (op_ds18b20 locked index reading) model = set_ds18b20 locked index reading model
  run (op_gpio locked index ports) model = set_gpio locked index ports model
  run (op_pwm locked duty frequency_hz) model = set_pwm locked duty frequency_hz model
  run (op_timestamp locked timestamp_ms) model = set_timestamp locked timestamp_ms model
  run (op_increment locked) model = increment_seq locked model
  run (op_build encode locked) model = (build encode locked model).1

  unfoldable pub run_all : List (Op F) → Model F → Model F
  run_all [] model = model
  run_all (op ∷ ops) model = run_all ops (run op model)

  zeroed-IsValid : (z : F) → IsValid (init z)
  unfolding init zeroed
  zeroed-IsValid z = ground arith

  pub run-IsValid : (op : Op F) {model : Model F} → IsValid model → IsValid (run op model)
  unfolding run set_sht20 set_ds18b20 set_gpio set_pwm set_timestamp increment_seq build
  run-IsValid (op_sht20 locked i reading) {model} v =
      ground (arith, length-set model.current.sht20 i (record reading { id = take 15 reading.id }))
  run-IsValid (op_ds18b20 locked i reading) {model} v =
      ground (arith, length-set model.current.ds18b20 i reading)
  run-IsValid (op_gpio locked i ports) {model} v =
      ground (arith, length-set model.current.mcp i ports)
  run-IsValid (op_pwm locked duty f) {model} v = ground (
    arith,
    length-append (take 16 duty) (drop (length (take 16 duty)) model.current.duty_cycle),
    length-take 16 duty,
    length-drop (length (take 16 duty)) model.current.duty_cycle,
  )
  run-IsValid (op_timestamp locked t) {model} v = ground arith
  run-IsValid (op_increment locked) {model} v = ground arith
  run-IsValid (op_build encode locked) {model} v = ground (
    arith,
    length-set model.encode_buffers (model.next_encode_index % 2) (encode model.current).0,
  )

  -- Whatever calls are made of the operations in whatever order, the arrays keep their sizes, the
  -- counts of readings stay within them, and the next staging buffer is one of the two.
  pub run_all-IsValid : (z : F) (ops : List (Op F)) → IsValid (run_all ops (init z))
  unfolding run_all
  run_all-IsValid z ops = go ops (zeroed-IsValid z)
    where
      go : (ops : List (Op F)) {model : Model F} → IsValid model → IsValid (run_all ops model)
      go [] v = v
      go (op ∷ ops) v = go ops (run-IsValid op v)
