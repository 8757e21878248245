-- ===== src/Gui/Launch/Order.antt =====
-- In which order the server gets the launches.
use zeros_i.Base.{ℕ, ◌≡◌, List, length}
use zeros_i.Str.{cstr}
use zeros_i.Gui.{gui_launch_max}

-- A buffer of the size of a launch request that holds `s`.
record Holds (buf s : List ℕ) : Type 0 where
  string : cstr buf ≡ s
  size : length buf ≡ gui_launch_max
