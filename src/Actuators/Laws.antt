-- ===== src/Actuators/Laws.antt =====
-- firmware/app/actuators.c: what a command does to the LED of pin PC13, which is lit while the pin is low.
use tp5_borda_rojas.Base.{
  Bool, true, false, not, some, ◌≡◌, refl, arith, Bytes, codes, c_str, strcmp_zero_text, bytes_eq,
  if◌then◌else◌,
}
use tp5_borda_rojas.Actuators.{ActuatorCommand, Gpio, actuators_init, apply_command}

-- What a command asks for, on the LED's state.
abbrev pub led_after : Bytes → Bytes → Bool → Bool
led_after target action lit =
    if not (bytes_eq target (codes "led"))
    then lit
    else if bytes_eq action (codes "on")
    then true
    else if bytes_eq action (codes "off")
    then false
    else if bytes_eq action (codes "toggle")
    then not lit
    else lit

module _ (gpio : Gpio) where
  open gpio use {Pin, is_high, high_set, high_clear, high_toggle}

  abbrev pub lit : Pin → Bool
  lit pin = not (is_high pin)

  -- The ladder of the code, for any results of its four tests.
  lit_ladder :
      (led on off toggle : Bool) (pin : Pin)
      → lit (
          if not led
          then pin
          else if on
          then gpio.gpio_clear pin
          else if off
          then gpio.gpio_set pin
          else if toggle
          then gpio.gpio_toggle pin
          else pin)
        ≡ (if not led
            then lit pin
            else if on
            then true
            else if off
            then false
            else if toggle
            then not (lit pin)
            else lit pin)
  lit_ladder false on off toggle pin = refl
  lit_ladder true true off toggle pin = rw (high_clear pin)
  lit_ladder true false true toggle pin = rw (high_set pin)
  lit_ladder true false false true pin = rw (high_toggle pin)
  lit_ladder true false false false pin = refl

  -- `on` lights the LED, `off` puts it out and `toggle` changes it, for the target `led`; any other command
  -- leaves it.
  pub lit-apply_command :
      (command : ActuatorCommand) (pin : Pin)
      → lit (apply_command gpio (some command) pin)
        ≡ led_after (c_str command.target) (c_str command.action) (lit pin)
  unfolding apply_command
  lit-apply_command command pin =
      rw
        (
          ← strcmp_zero_text command.target (codes "led") (omega arith),
          ← strcmp_zero_text command.action (codes "on") (omega arith),
          ← strcmp_zero_text command.action (codes "off") (omega arith),
          ← strcmp_zero_text command.action (codes "toggle") (omega arith),
        )
        (lit_ladder _ _ _ _ pin)

  -- The LED is dark after `actuators_init`.
  pub lit-actuators_init : (pin : Pin) → lit (actuators_init gpio pin) ≡ false
  unfolding actuators_init
  lit-actuators_init pin = rw high_set
