-- ===== src/Node/I2cBus/Tests.antt =====
-- Tests of the bus.
use n32r.Prelude.{timeout, arith, err, if◌then◌else◌, ltb, ok, refl, timeout, true, ℕ}
use n32r.Node.I2cBus.{Try, Transferred, i2c_master_cmd, i2c_master_cmd-Transferred}

-- The third attempt is acknowledged.
abbrev tries : ℕ → Try
tries n = record {
  link = true;
  built = ok tt;
  begin = if ltb n 2 then err timeout else ok tt;
  recovered = ok tt;
}

i2c_master_cmd-Transferred_example : Transferred tries 3 0 (i2c_master_cmd tries true 1)
i2c_master_cmd-Transferred_example =
    i2c_master_cmd-Transferred tries true 1 (λ i. refl) (omega arith)
