-- ===== src/Device/Pl031/Tests.antt =====
-- The theorem on pl031.rs at a clock that passes the end of 32 bits.
use alioth.Base.{◌≡◌, [], ◌∷◌, arith}
use alioth.Device.Pl031.{default_reg, read, write}
use alioth.Device.Pl031.Running.{writes, read-writes}

read-writes_example :
    read (writes (write default_reg 1000 8 0xfffffff0) ((1001, 4, 7) ∷ [])) 1020 0 ≡ 4
read-writes_example =
    read-writes default_reg 1000 20 0xfffffff0 ((1001, 4, 7) ∷ []) (ground arith, tt)
