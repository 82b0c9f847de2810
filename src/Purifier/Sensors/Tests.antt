-- ===== src/Purifier/Sensors/Tests.antt =====
-- Examples for purifier/sensor.py.
use ha_birdie.Base.{refl, inr, All}
use ha_birdie.Purifier.Coordinator.Tests.{running, on_dps}
use ha_birdie.Purifier.Sensors.{purifier_sensors, native_value}
use ha_birdie.Purifier.Sensors.Fits.{Fits, native_value-Fits}

native_value-Fits_example : All (λ d. Fits d (native_value d running)) purifier_sensors
native_value-Fits_example = native_value-Fits running on_dps (inr refl)
