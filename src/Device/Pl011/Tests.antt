-- ===== src/Device/Pl011/Tests.antt =====
-- The theorems on pl011.rs at a driver that reads too much, and an interrupt that stays away.
use alioth.Base.{◌≡◌, refl, false, List, [], ◌∷◌, ◌++◌}
use alioth.Device.Pl011.{new, read, read_dr, write, write_other, receive, update_interrupt}
use alioth.Device.Pl011.Ready.{Event, read_at, write_at, received, IsReady, run}
use alioth.Device.Pl011.Fifo.{taken_all, taken-given}

abbrev events : List Event
events =
    received 7 (8 ∷ [])
    ∷ read_at 0
    ∷ write_at 0x44 0x7ff
    ∷ received 9 []
    ∷ read_at 0
    ∷ read_at 0
    ∷ read_at 0
    ∷ received 1 []
    ∷ []

taken-given_example : taken_all new events ++ (run new events).rx_data ≡ 7 ∷ 8 ∷ 9 ∷ 1 ∷ []
taken-given_example = taken-given events

takes_three : taken_all new events ≡ 7 ∷ 8 ∷ 9 ∷ []
unfolding taken_all alioth.Device.Pl011.Ready.step receive new read write
takes_three = refl

-- A byte that comes while the receive interrupt is masked, and the write that unmasks it.
unmasked_late : (write (receive new (7 ∷ [])).reg 0x38 0x10).irq ≡ false
unfolding new receive write
unmasked_late = refl
