-- ===== src/Network/Tests.antt =====
-- The theorem about the network map at concrete devices.
use dtsys.Prelude.{List, [], ◌∷◌, none, some}
use dtsys.Types.{online, offline}
use dtsys.Prelude.Text.{Text}
use dtsys.Network.{MapDevice}

-- 1.2.3.4/24
abbrev address : Text
address = 49 ∷ 46 ∷ 50 ∷ 46 ∷ 51 ∷ 46 ∷ 52 ∷ 47 ∷ 50 ∷ 52 ∷ []

abbrev devices : List MapDevice
devices =
    record { id = "one"; status = online; ip_address = some address }
    ∷ record { id = "two"; status = offline; ip_address = none }
    ∷ []
