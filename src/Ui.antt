-- ===== src/Ui.antt =====
-- firmware/src/main.rs: the data of the user interface. The modules below model its parts.
pub mod Tabs
pub mod Settings
pub mod Cards
pub mod Art
pub mod Loop
use cydrust.Prelude.{ℕ, Bool}

pub data Tab : Type 0 where
  sessions usage metrics pixel settings : Tab

pub data View : Type 0 where
  list : View
  detail : ℕ → View
