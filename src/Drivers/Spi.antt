-- ===== src/Drivers/Spi.antt =====
-- What the driver of the card uses of the crate `k210_soc`: a pin and an SPI controller. `D` is the
-- state of the controller and of what is wired to it.
use ch_os.Base.{ℕ, Bool, List}

-- `spi::tmod`, as far as it is used.
pub data Tmod : Type 0 where
  trans recv : Tmod

-- `recv_data` fills a buffer of a given length; it is given by the bytes at the offsets.
-- `set_direction` makes a pin an output, and `configure` differs in its `tmod` only.
pub record Spi (D : Type 0) : Type 0 where
  pub set_direction : ℕ → D → D
  pub set_pin : ℕ → Bool → D → D
  pub set_clk_rate : ℕ → D → D
  pub configure : Tmod → D → D
  pub send_data : ℕ → List ℕ → D → D
  pub recv_data : ℕ → ℕ → D → (ℕ → ℕ) × D
