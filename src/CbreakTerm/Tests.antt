-- ===== src/CbreakTerm/Tests.antt =====
-- A terminal in its usual mode.
use nonblocking_io.Common.{◌≡◌, refl, true, none, some, pos, negsuc}
use nonblocking_io.CbreakTerm.{Termios, init}

abbrev usual : Termios
usual = record { c_iflag = 0x500; c_lflag = 0x8a3b; vmin = 4; vtime = 1 }

refused :
    (init true none (λ t. pos 0) ≡ record { value = negsuc 0; printed = true; asked = none })
    × ((init true (some usual) (λ t. negsuc 0)).printed ≡ true)
unfolding init
refused = (refl, refl)
