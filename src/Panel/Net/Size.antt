-- ===== src/Panel/Net/Size.antt =====
-- Every command fits into the buffer that it is printed to.
use mathlib.Core.Path.{subst}
use n32r.Prelude.{
  Bool, List, [], arith, choose, false, length, length-append, refl, suc, true, zero, ℕ, ◌%◌, ◌++◌,
  ◌+◌, ◌/◌, ◌<◌, ◌==◌, ◌∷◌, ◌≡◌, ◌≤◌,
}
use n32r.Prelude.Bytes.{codes}
use n32r.Proto.{Command}
use n32r.Proto.Document.{render}
use n32r.Proto.Schema.{command_document}
use n32r.Proto.Printf.{decimal, digits_from, concat}
use n32r.Proto.Json.{called, command_calls, optional_calls, device_name, port_name}
use n32r.Proto.Json.Laws.{command_calls-render}

length-digits_from :
    (left n : ℕ) (out : List ℕ) → length (digits_from left n out) ≤ left + length out
unfolding digits_from
length-digits_from zero n out = omega arith
length-digits_from (suc left) n out =
    ground (arith, length-digits_from left (n / 10) ((b'0' + n % 10) ∷ out))

length-decimal : (n : ℕ) → length (decimal n) ≤ 10
unfolding decimal
length-decimal n = length-digits_from 10 n []

length-called :
    (test : Bool) (printed : List ℕ) (calls : List (List ℕ))
    → length (concat (called test printed ++ calls)) ≤ length printed + length (concat calls)
unfolding concat
length-called false printed calls = omega arith
length-called true printed calls = omega (arith, length-append printed (concat calls))

length-device_name : (index : ℕ) → length (device_name index) ≡ 4
length-device_name index =
    choose (λ (name : List ℕ). length name ≡ 4) (index == 0) (λ _. refl) (λ _. refl)

length-port_name : (port : ℕ) → length (port_name port) ≡ 1
length-port_name port =
    choose (λ (name : List ℕ). length name ≡ 1) (port == 0) (λ _. refl) (λ _. refl)

optional_size : (msg : Command) → length (concat (optional_calls msg)) ≤ 230
unfolding optional_calls concat
optional_size msg =
    let c3 : List (List ℕ) = codes "}" ∷ [] in
    let p3 : List ℕ =
      codes ",\"write_gpio\":{\"dev\":\""
      ++ (device_name msg.device_index
          ++ (codes "\",\"port\":\""
              ++ (port_name msg.port
                  ++ (codes "\",\"mask\":"
                      ++ (decimal msg.mask
                          ++ (codes ",\"value\":" ++ (decimal msg.value ++ codes "}"))))))) in
    let c2 = called msg.has_gpio_write p3 ++ c3 in
    let p2 : List ℕ =
      codes ",\"pwm_freq\":{\"freq\":" ++ (decimal msg.pwm_frequency ++ codes "}") in
    let c1 = called msg.has_pwm_frequency p2 ++ c2 in
    let p1 : List ℕ =
      codes ",\"set_pwm\":{\"ch\":"
      ++ (decimal msg.channel ++ (codes ",\"duty\":" ++ (decimal msg.duty_cycle ++ codes "}"))) in
    omega (
      arith,
      length-called msg.has_pwm_update p1 c1,
      length-called msg.has_pwm_frequency p2 c2,
      length-called msg.has_gpio_write p3 c3,
      length-append {0},
      length-decimal,
      length-device_name,
      length-port_name,
    )

calls_size : (msg : Command) → length (concat (command_calls msg)) < 512
unfolding command_calls concat
calls_size msg =
    let seq : List ℕ = codes ",\"seq\":" ++ decimal msg.sequence_id in
    omega (
      arith,
      optional_size msg,
      length-append (decimal msg.timestamp_ms ++ seq) (concat (optional_calls msg)),
      length-append (decimal msg.timestamp_ms) seq,
      length-decimal msg.timestamp_ms,
      length-decimal msg.sequence_id,
    )

-- The text of a command and its terminator take less than the buffer of the panel.
pub command_size : (msg : Command) → length (render (command_document msg)) < 512
command_size msg = subst (λ text. length text < 512) (command_calls-render msg) (calls_size msg)
