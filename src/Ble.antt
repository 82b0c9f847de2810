-- ===== src/Ble.antt =====
-- The Bluetooth devices (custom_components/birdie: const.py, ble.py, models.py, client.py,
-- coordinator.py, entity.py, sensor.py, number.py, binary_sensor.py, __init__.py).
pub mod Const
pub mod Parse
pub mod Data
pub mod Names
pub mod Client
pub mod Coordinator
pub mod Entities
pub mod Entry
