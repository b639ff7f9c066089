-- ===== src/Node/Tasks/Commands.antt =====
-- sensor_node/main/net/ws_server.c, `ws_rx`: a command that has come in is decoded and queued for the task.
use n32r.Prelude.{ℕ, Bool, List, if◌then◌else◌}
use n32r.Proto.{Command}
use n32r.Proto.Codec.{Libraries, proto_decode_command}
use n32r.Proto.Tinycbor.{read, failed, unfinished}
use n32r.Node.Tasks.Io.{IoCommand, io_task_set_pwm, io_task_set_pwm_frequency, io_task_write_gpio}

-- The parts of a command in their order; whether there was room is not read.
unfoldable pub queue_command : Command → List IoCommand → List IoCommand
queue_command cmd queue =
    let queue' =
      if cmd.has_pwm_update then (io_task_set_pwm cmd.channel cmd.duty_cycle queue).1 else queue in
    let queue'' =
      if cmd.has_pwm_frequency
      then (io_task_set_pwm_frequency cmd.pwm_frequency queue').1
      else queue' in
    if cmd.has_gpio_write
    then (io_task_write_gpio cmd.device_index cmd.port cmd.mask cmd.value queue'').1
    else queue''

module _ {E V Node Double F : Type 0} (lib : Libraries E V Node Double F) (s_use_cbor : Bool) where
  unfoldable pub ws_rx : ℕ → List ℕ → ℕ → List IoCommand → List IoCommand
  ws_rx fuel payload crc queue = elim (proto_decode_command lib fuel payload s_use_cbor crc) [
    | read cmd ↦ queue_command cmd queue
    | failed ↦ queue
    | unfinished ↦ queue
  ]
