-- ===== src/Panel/Net/Delivery.antt =====
-- A command of the panel reaches the queue of the node's task.
use n32r.Prelude.{
  Bool, List, [], append-nil, append_assoc, arith, false, if◌then◌else◌, leb, length, length-append,
  ltb, not, ok, refl, some, sym, tests, true, ℕ, ◌%◌, ◌++◌, ◌+◌, ◌<◌, ◌==◌, ◌^◌, ◌∙◌, ◌∷◌, ◌≡◌, ◌≤◌,
}
use n32r.Prelude.Words.{u32_mod}
use n32r.Prelude.Bytes.{
  le_bytes, length-le_bytes, le_value-le_bytes, take-append, drop-append_length,
}
use n32r.Util.Crc32.{proto_crc32}
use n32r.Proto.{Command}
use n32r.Proto.Document.{Document, render}
use n32r.Proto.Schema.{command_document}
use n32r.Proto.Json.{encode_command_json_into}
use n32r.Proto.Json.Laws.{encode_command-render}
use n32r.Proto.Cjson.{IsCjson}
use n32r.Proto.Decode.{one_if, crc_accepted, decode_command_json}
use n32r.Proto.Decode.Laws.{IsSent, received, command_lem}
use n32r.Proto.Tinycbor.{read}
use n32r.Proto.Codec.{Libraries, proto_encode_command_into, proto_decode_command}
use n32r.Server.Types.{binary, delivered}
use n32r.Server.Frames.{deliver}
use n32r.Node.Tasks.Io.{
  IoCommand, set_pwm_duty, set_pwm_freq, write_gpio, queue_send, io_task_set_pwm,
  io_task_set_pwm_frequency, io_task_write_gpio,
}
use n32r.Node.Tasks.Commands.{queue_command, ws_rx}
use n32r.Panel.Net.{command_frame}
use n32r.Panel.Net.Size.{command_size}

-- The commands for the task that a command asks for.
abbrev pub asked : Command → List IoCommand
asked cmd =
    (if cmd.has_pwm_update then set_pwm_duty cmd.channel cmd.duty_cycle ∷ [] else [])
    ++ ((if cmd.has_pwm_frequency then set_pwm_freq cmd.pwm_frequency ∷ [] else [])
        ++ (if cmd.has_gpio_write
            then write_gpio (one_if (not (cmd.device_index == 0))) (one_if (not (cmd.port == 0)))
                cmd.mask cmd.value
              ∷ []
            else []))

send_lem :
    (cmd : IoCommand) (queue : List IoCommand)
    → length queue < 16
    → (queue_send cmd queue).1 ≡ queue ++ (cmd ∷ [])
unfolding queue_send
send_lem cmd queue room = ground arith

part_lem :
    (test : Bool) (cmd cmd' : IoCommand) (queue : List IoCommand)
    → (test ≡ true → cmd ≡ cmd')
    → length queue < 16
    → (if test then (queue_send cmd queue).1 else queue) ≡ queue ++ (if test then cmd' ∷ [] else [])
part_lem false cmd cmd' queue same room = sym (append-nil queue)
part_lem true cmd cmd' queue same room = rw (same refl) (send_lem cmd' queue room)

length-part :
    (test : Bool) (cmd : IoCommand) (queue : List IoCommand)
    → length (queue ++ (if test then cmd ∷ [] else [])) ≤ length queue + 1
length-part false cmd queue = omega (arith, length-append queue [])
length-part true cmd queue = omega (arith, length-append queue (cmd ∷ []))

-- Where the queue has room for three, the parts of a command that arrives are queued in their order.
queue_command-received :
    (cmd : Command) (queue : List IoCommand)
    → length queue ≤ 13
    → queue_command (received cmd) queue ≡ queue ++ asked cmd
unfolding queue_command io_task_set_pwm io_task_set_pwm_frequency io_task_write_gpio
queue_command-received cmd queue room =
    let got : Command = received cmd in
    let a = set_pwm_duty cmd.channel cmd.duty_cycle in
    let b = set_pwm_freq cmd.pwm_frequency in
    let d =
      write_gpio (one_if (not (cmd.device_index == 0))) (one_if (not (cmd.port == 0))) cmd.mask
        cmd.value in
    let q1 = queue ++ (if cmd.has_pwm_update then a ∷ [] else []) in
    let q2 = q1 ++ (if cmd.has_pwm_frequency then b ∷ [] else []) in
    let r1 : length q1 < 16 = omega (arith, length-part cmd.has_pwm_update a queue) in
    let r2 : length q2 < 16 =
      omega
        (arith, length-part cmd.has_pwm_update a queue, length-part cmd.has_pwm_frequency b q1) in
    rw
      (
        part_lem cmd.has_pwm_update (set_pwm_duty got.channel got.duty_cycle) a queue
            (λ e. rw e refl) (omega arith),
        part_lem cmd.has_pwm_frequency (set_pwm_freq got.pwm_frequency) b q1 (λ e. rw e refl) r1,
        part_lem cmd.has_gpio_write (write_gpio got.device_index got.port got.mask got.value) d q2
            (λ e. rw e refl) r2,
      )
      (simp append_assoc)

-- The command with its time and number.
abbrev pub stamped : ℕ → ℕ → Command → Command
stamped now s_next_command_seq cmd = record cmd {
  timestamp_ms = now;
  sequence_id = (s_next_command_seq + 1) % u32_mod;
}

-- A message behind its checksum.
abbrev pub frame_of : List ℕ → List ℕ
frame_of text = le_bytes 4 (proto_crc32 text) ++ text

crc_accepted_self : (text : List ℕ) → crc_accepted (proto_crc32 text) text ≡ true
unfolding crc_accepted
crc_accepted_self text = ground arith

proto_crc32_small : (text : List ℕ) → proto_crc32 text < 256 ^ 4
unfolding proto_crc32
proto_crc32_small text = omega arith

deliver-frame_of :
    (text : List ℕ) → deliver binary (frame_of text) ≡ delivered text (proto_crc32 text)
unfolding deliver
deliver-frame_of text =
    let crc = le_bytes 4 (proto_crc32 text) in
    let size : length crc ≡ 4 = length-le_bytes 4 (proto_crc32 text) in
    let long : leb 4 (length (crc ++ text)) ≡ true = ground (arith, length-append crc text) in
    rw
      (
        long,
        take-append crc text 4 size,
        drop-append_length crc text 4 size,
        le_value-le_bytes 4 (proto_crc32 text) (proto_crc32_small text),
      )
      refl

module _ {E V Node Double F : Type 0} (lib : Libraries E V Node Double F) (node : Document → Node)
    (read_real : List ℕ → F) (laws : IsCjson lib.cjson node read_real) where
  decode-text :
      (msg : Command) (fuel : ℕ)
      → IsSent msg
      → lib.cjson.parse (render (command_document msg)) ≡ some (node (command_document msg))
      → proto_decode_command lib fuel
          (render (command_document msg))
          false
          (proto_crc32 (render (command_document msg)))
        ≡ read (received msg)
  unfolding proto_decode_command decode_command_json
  decode-text msg fuel sent reads = simp (
    crc_accepted_self (render (command_document msg)),
    reads,
    decode_command_json,
    command_lem lib.cjson node read_real laws msg sent,
  )

  ws_rx-text :
      (msg : Command) (fuel : ℕ) (queue : List IoCommand)
      → IsSent msg
      → lib.cjson.parse (render (command_document msg)) ≡ some (node (command_document msg))
      → length queue ≤ 13
      → ws_rx lib false fuel
          (render (command_document msg))
          (proto_crc32 (render (command_document msg)))
          queue
        ≡ queue ++ asked msg
  unfolding ws_rx
  ws_rx-text msg fuel queue sent reads room =
      simp (decode-text msg fuel sent reads, ws_rx) (queue_command-received msg queue room)

  command_frame-text :
      (now seq : ℕ) (cmd : Command)
      → command_frame lib false now seq cmd
        ≡ ((seq + 1) % u32_mod, ok (frame_of (render (command_document (stamped now seq cmd)))))
  unfolding command_frame proto_encode_command_into
  command_frame-text now seq cmd =
      let msg = stamped now seq cmd in
      let text = render (command_document msg) in
      let small = command_size msg in
      let fits : ltb (length text) 512 ≡ true = omega (tests, small) in
      let short : ltb (512 + 4) (length text + 4) ≡ false = ground (arith, small) in
      let e : encode_command_json_into msg 512 ≡ some (text, proto_crc32 text) =
        encode_command-render msg 512 ∙ rw fits refl in
      simp (e, short, command_frame)

  -- A command that the panel prints as JSON always fits its buffer and gets the next number. The server of the node
  -- delivers its frame as the printed message with its checksum, and the node accepts it and queues exactly the
  -- parts that the command asks for, in their order. The numbers of the command fit their types, cJSON reads the
  -- printed text, and the queue has room for three.
  pub command_delivered :
      (now seq fuel : ℕ) (cmd : Command) (queue : List IoCommand)
      → now < u32_mod
      → IsSent cmd
      → lib.cjson.parse (render (command_document (stamped now seq cmd)))
        ≡ some (node (command_document (stamped now seq cmd)))
      → length queue ≤ 13
      → (frame : List ℕ) × (text : List ℕ) × (crc : ℕ) × (command_frame lib false now seq cmd
          ≡ ((seq + 1) % u32_mod, ok frame))
        × (deliver binary frame ≡ delivered text crc)
        × (ws_rx lib false fuel text crc queue ≡ queue ++ asked cmd)
  command_delivered now seq fuel cmd queue fits sent reads room =
      let msg = stamped now seq cmd in
      let text = render (command_document msg) in
      let sent' : IsSent msg = record {
        timestamp_ms = fits;
        sequence_id = omega arith;
        channel = sent.channel;
        duty_cycle = sent.duty_cycle;
        pwm_frequency = sent.pwm_frequency;
        mask = sent.mask;
        value = sent.value;
      } in
      (
        frame_of text,
        text,
        proto_crc32 text,
        command_frame-text now seq cmd,
        deliver-frame_of text,
        ws_rx-text msg fuel queue sent' reads room,
      )
