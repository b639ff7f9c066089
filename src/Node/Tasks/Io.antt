-- ===== src/Node/Tasks/Io.antt =====
-- sensor_node/main/tasks/t_io.c, the task that owns the expanders. The transfers of the bus are those of the
-- drivers; the prescaler of a frequency is a parameter. The status of a driver's write is not read here, and every
-- write that is tried is recorded.
pub mod Laws
use n32r.Prelude.{
  ℕ, zero, suc, ◌+◌, ◌*◌, ◌/◌, ◌%◌, ◌==◌, Bool, true, false, not, ◌&&◌, List, [], ◌∷◌, ◌++◌,
  if◌then◌else◌, get_or, set, replicate, length, ltb, Result, ok, err,
}
use n32r.Node.DataModel.{Model, Mcp23017, set_gpio, set_pwm}
use n32r.Node.Drivers.{Bus, Write}
use n32r.Node.Drivers.Pca9685.{pca9685_init, pca9685_set_pwm}
use n32r.Node.Drivers.Mcp23017.{mcp23017_init, mcp23017_read_gpio, mcp23017_write_gpio}

pub data IoCommand : Type 0 where
  set_pwm_duty : ℕ → ℕ → IoCommand
  set_pwm_freq : ℕ → IoCommand
  write_gpio : ℕ → ℕ → ℕ → ℕ → IoCommand

-- The part of `io_map_t` that the task reads; whether the backend is the PCA9685.
pub record IoMap : Type 0 where
  pub is_pca9685 : Bool
  pub pca9685_address : ℕ
  pub mcp23017_first : ℕ
  pub mcp23017_second : ℕ

-- The static variables but the queue.
pub record Pwm : Type 0 where
  pub s_pwm : List ℕ
  pub s_pwm_freq : ℕ

abbrev pub queue_size : ℕ
queue_size = 16

unfoldable pub io_task_start : Pwm × List IoCommand
io_task_start = (record { s_pwm = replicate 16 0; s_pwm_freq = 500 }, [])

-- `xQueueSend`, on the queue at the end of the wait.
unfoldable pub queue_send : IoCommand → List IoCommand → Bool × List IoCommand
queue_send cmd queue =
    if ltb (length queue) queue_size then (true, queue ++ (cmd ∷ [])) else (false, queue)

unfoldable pub io_task_set_pwm : ℕ → ℕ → List IoCommand → Bool × List IoCommand
io_task_set_pwm channel duty queue = queue_send (set_pwm_duty channel duty) queue

unfoldable pub io_task_set_pwm_frequency : ℕ → List IoCommand → Bool × List IoCommand
io_task_set_pwm_frequency frequency_hz queue = queue_send (set_pwm_freq frequency_hz) queue

unfoldable pub io_task_write_gpio : ℕ → ℕ → ℕ → ℕ → List IoCommand → Bool × List IoCommand
io_task_write_gpio device_index port mask value queue =
    queue_send (write_gpio device_index port mask value) queue

module _ (bus : Bus) (prescale : ℕ → ℕ) (map : IoMap) where
  abbrev pub pwm_hw_available : Bool
  pwm_hw_available = map.is_pca9685 && not (map.pca9685_address == 0)

  abbrev pub expander_address : ℕ → ℕ
  expander_address i = if i == 0 then map.mcp23017_first else map.mcp23017_second

  -- What runs before the loop.
  unfoldable pub io_task_init : Pwm → List Write
  io_task_init pwm =
      (if pwm_hw_available
        then (pca9685_init bus map.pca9685_address (prescale pwm.s_pwm_freq)).1
        else [])
      ++ ((mcp23017_init bus (expander_address 0) 65535 65535).1
          ++ (mcp23017_init bus (expander_address 1) 65535 65535).1)

  -- The channels from a number on.
  unfoldable pub restore_from : ℕ → List ℕ → List Write
  restore_from i [] = []
  restore_from i (duty ∷ duties) =
      (pca9685_set_pwm bus map.pca9685_address i duty).1 ++ restore_from (i + 1) duties

  -- The low byte of a word of 16 bits, in the byte of the port.
  abbrev pub placed : ℕ → ℕ → ℕ
  placed port word = if port == 0 then word % 256 else word % 256 * 256

  unfoldable pub handle : IoCommand → Pwm → Pwm × List Write
  handle (set_pwm_duty channel duty) pwm = (
    record pwm { s_pwm = set pwm.s_pwm (channel % 16) duty },
    if pwm_hw_available
        then (pca9685_set_pwm bus map.pca9685_address (channel % 16) duty).1
        else [],
  )
  handle (set_pwm_freq frequency_hz) pwm = (
    record pwm { s_pwm_freq = frequency_hz },
    if pwm_hw_available
        then (pca9685_init bus map.pca9685_address (prescale frequency_hz)).1
          ++ restore_from 0 pwm.s_pwm
        else [],
  )
  handle (write_gpio device_index port mask value) pwm = (
    pwm,
    (mcp23017_write_gpio bus (expander_address (device_index % 2)) (placed port mask)
        (placed port value)).1,
  )

  -- The commands that are in the queue.
  unfoldable pub drain : List IoCommand → Pwm → Pwm × List Write
  drain [] pwm = (pwm, [])
  drain (cmd ∷ queue) pwm =
      let (pwm', writes) = handle cmd pwm in
      let (pwm'', writes') = drain queue pwm' in (pwm'', writes ++ writes')

  module _ {F : Type 0} where
    -- One expander; a read that fails changes nothing. `locked` is for the mutex of the data model.
    unfoldable pub poll : Bool → ℕ → Model F → Model F
    poll locked i model = elim (mcp23017_read_gpio bus (expander_address i)) [
      | err e ↦ model
      | ok value ↦
          set_gpio locked i (record { port_a = value % 256; port_b = value / 256 % 256 }) model
    ]

    -- One round of the task.
    unfoldable pub io_round : Bool → List IoCommand → Pwm → Model F → (Pwm × List Write) × Model F
    io_round locked queue pwm model =
        let (pwm', writes) = drain queue pwm in
        (
          (pwm', writes),
          set_pwm locked pwm'.s_pwm pwm'.s_pwm_freq (poll locked 1 (poll locked 0 model)),
        )
