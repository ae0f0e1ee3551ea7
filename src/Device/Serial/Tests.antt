-- ===== src/Device/Serial/Tests.antt =====
-- The theorems on serial.rs at a port in its initial state, and with interrupts on.
use alioth.Base.{◌≡◌, refl, [], ◌∷◌}
use alioth.Device.Serial.{SerialReg, read, write, receive, default_reg}
use alioth.Device.Serial.Ready.{IsReady}
use alioth.Device.Serial.Irq.{CauseGiven, cause, irq-CauseGiven}

abbrev port : SerialReg
port = record {
  interrupt_enable = 3;
  interrupt_identification = 1;
  line_control = 3;
  modem_control = 0;
  line_status = 0x61;
  modem_status = 0;
  scratch = 0;
  divisor = 0;
  rx_data = 65 ∷ [];
}

initial-IsReady : IsReady default_reg
unfolding default_reg
initial-IsReady = refl

irq-CauseGiven_example :
    CauseGiven (write port 0 66)
    × CauseGiven (receive port (67 ∷ []))
    × (cause ((read port 2).0.interrupt_identification) ≡ 1)
irq-CauseGiven_example = irq-CauseGiven port 0 66 (67 ∷ [])
