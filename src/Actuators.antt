-- ===== src/Actuators.antt =====
-- firmware/app/app.h: `actuator_command_t`; firmware/app/actuators.c. The pin is the hardware's: its
-- state and the three operations of libopencm3 on it are parameters.
pub mod Laws
use tp5_borda_rojas.Base.{
  ℕ, Bool, true, false, not, Option, none, some, if◌then◌else◌, Bytes, codes, strcmp_zero, ◌≡◌,
}

-- The two arrays of 16 characters, as their cells.
pub record ActuatorCommand : Type 0 where
  pub target : Bytes
  pub action : Bytes

-- An output pin: `gpio_set` drives it high, `gpio_clear` low, and `gpio_toggle` changes it. The laws are
-- those of the reference manual's output register.
pub record Gpio : Type 1 where
  pub Pin : Type 0
  pub is_high : Pin → Bool
  pub gpio_set : Pin → Pin
  pub gpio_clear : Pin → Pin
  pub gpio_toggle : Pin → Pin
  pub high_set : (p : Pin) → is_high (gpio_set p) ≡ true
  pub high_clear : (p : Pin) → is_high (gpio_clear p) ≡ false
  pub high_toggle : (p : Pin) → is_high (gpio_toggle p) ≡ not (is_high p)

module _ (gpio : Gpio) where
  open gpio use {Pin, gpio_set, gpio_clear, gpio_toggle}

  -- The last call of `actuators_init`; those before it configure the port.
  unfoldable pub actuators_init : Pin → Pin
  actuators_init pin = gpio_set pin

  unfoldable pub apply_command : Option ActuatorCommand → Pin → Pin
  apply_command none pin = pin
  apply_command (some command) pin =
      if not (strcmp_zero command.target (codes "led"))
      then pin
      else if strcmp_zero command.action (codes "on")
      then gpio_clear pin
      else if strcmp_zero command.action (codes "off")
      then gpio_set pin
      else if strcmp_zero command.action (codes "toggle")
      then gpio_toggle pin
      else pin
