-- ===== src/Lib.antt =====
-- A model of the Home Assistant integration for Birdie devices (custom_components/birdie). A Birdie
-- is a CO2 sensor that is read over Bluetooth, and a Birdie Podium is an air purifier that is
-- controlled over the local network.
--
-- The program's parts, and the modules that model them:
-- - Purifier.Model (custom_components/birdie/purifier/model.py): the purifier's data points (DPs).
--   `from_dps` is `PurifierState.from_dps`, `power_dps`, `mode_dps`, `fan_speed_dps` and
--   `reset_filter_dps` are the commands, and `apply_dps` is the state shown until the device
--   confirms a write.
-- - Lan.Device (custom_components/birdie/lan/device.py): `LanDevice`, one connection to a purifier.
--   The record `LanDevice` has its fields; Worker has the calls of the worker thread (`_w_open` as
--   `w_open`, and so on), Client the public methods and the state changes (`_handle_dps` as
--   `handle_dps`, `_async_lost` as `lost`), Loop the background loop (`_run`, `_step`).
--   Registered follows the device's key in the registry of secrets.
-- - Lan.Errors and Lan.Redact (custom_components/birdie/lan/errors.py and lan/redact.py): the errors,
--   and the registry of the local keys that are kept out of the log. Redact.Filter has the filter of a
--   log record.
-- - Lan.Discovery (custom_components/birdie/lan/discovery.py): reading a broadcast, the listener, and
--   `async_discover` as `discover`, whose waits are a list.
-- - Lan.Search (custom_components/birdie/lan/search.py): the addresses that a search of the network
--   tries; `network.hosts()` is written out as `hosts`. Find has the tries (`async_find_device`), over
--   Lan.Device.Once, a device that is made for one connection.
-- - Purifier.Coordinator (custom_components/birdie/purifier/coordinator.py): it owns a `LanDevice`.
--   Handlers has the callbacks that the device calls, and the methods that call the device; Setup has
--   the first connection; Search has the bookkeeping of the search for an address that changed;
--   Tracking follows it through every history, over Lan.Device.Heard, which says what the callbacks
--   of a call tell.
-- - Purifier.Entry (custom_components/birdie/purifier/entry.py): setting up and unloading the entry,
--   over the coordinator and the shared listener.
-- - Purifier.Fan (custom_components/birdie/purifier/fan.py and purifier/entity.py): the fan entity. Its
--   services build one request and hand it to the coordinator's `send_dps`.
-- - Purifier.Sensors (custom_components/birdie/purifier/sensor.py and purifier/binary_sensor.py): the
--   values that the sensors show. Purifier.Button (purifier/button.py): the reset of the filter.
-- - Purifier.Discovery (custom_components/birdie/purifier/discovery.py): the listener that the entries
--   share, and what an announcement leads to. Network has the search of the network, and Scan a search
--   for announcements.
-- - Purifier.Flow (custom_components/birdie/purifier/flow.py): the form of a local key, and the
--   connection check of the dialogue.
-- - ConfigFlow (custom_components/birdie/config_flow.py): the configuration dialogue. A step is a
--   function on the record `Flow` (or `BleFlow`) that answers a `FlowResult`: Purifier has the steps
--   that add a purifier, Change those that change an entry, Bluetooth those for a Bluetooth device,
--   and Run the runs of a dialogue, in which the steps come in any order.
-- - Ble.Parse and Ble.Const (custom_components/birdie/ble.py and const.py): the parsers of the
--   Bluetooth payloads. Ble.Names: which advertisements are a Birdie's. Ble.Data (models.py): the
--   latest values.
-- - Ble.Client (custom_components/birdie/client.py): the Bluetooth connection, and Ble.Coordinator
--   (custom_components/birdie/coordinator.py), which owns it and keeps the values; its History has
--   every sequence of operations.
-- - Ble.Entities (custom_components/birdie/sensor.py, number.py, binary_sensor.py and entity.py): what
--   the entities show and set. Ble.Entry (custom_components/birdie/__init__.py): setting up and
--   unloading the entry.
-- - Probe (tools/birdie_probe.py): the tool that scans and reads a device without Home Assistant.
-- - Base: Boolean tests, lists, integers, texts, dictionaries and results that the parts share. Dps:
--   the JSON values of data points.
--
-- How the code is modelled: an operation is a function on the state of its object. A method that may
-- raise returns a `Result` beside the state, which keeps what was written before the raise. A callback
-- that a device calls is an event in its state, and the coordinator takes the events when the call
-- has ended. The protocol library, bleak and Home Assistant are not modelled: what they answer is an
-- argument (`Attempt`, `Answer`, `Round`, `Meeting`, `Contact`, `Outside`). `_variants` takes the
-- bytes form of a key as a parameter. The clock is an argument in milliseconds.
--
-- Decoding a report (`from_dps`) is modelled where it does not raise: a float is finite, and the
-- digits of a mode are ASCII digits. A connection raises the errors of lan/errors.py only; another
-- exception of the protocol library is not modelled.
--
-- No fuel is used: a loop over versions, characteristics or data points is recursion on the list, and
-- a run of the background loop is a list of rounds, each with what the outside does in it. The loop
-- of `async_discover` takes a list of waits, and ends within the number that its deadline gives
-- (Collect.Waits says which of them it takes).
--
-- Not modelled: threads, locks and cancellation, so each operation runs to its end before the next
-- one starts, but for a Bluetooth connection that drops while its first values are read; what is
-- logged; the bytes of a discovery request; the forms' schemas; diagnostics, whose redaction is Home
-- Assistant's; the registration of entities with their names, units and ids.
pub mod Base
pub mod Dps
pub mod Lan
pub mod Ble
pub mod Purifier
pub mod Probe
pub mod ConfigFlow
