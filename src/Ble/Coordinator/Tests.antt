-- ===== src/Ble/Coordinator/Tests.antt =====
-- Examples for coordinator.py.
use ha_birdie.Base.{String, ◌≡◌, refl, Bool, true, false, Option, none, some, []}
use ha_birdie.Base.Result.{raised}
use ha_birdie.Ble.Parse.{Bytes}
use ha_birdie.Ble.Data.{BirdieData}
use ha_birdie.Ble.Client.{
  BleClient, Characteristic, Services, Meeting, is_connected, connect, have_known, ble_device,
  get_services, start_notify, ble_error, handle_disconnect as client_disconnected,
}
use ha_birdie.Ble.Coordinator.{
  create, uncaught, dropped, handle_disconnect, set_available, after_connect, handle_values,
  BirdieCoordinator, Contact, async_connect,
}
use ha_birdie.Ble.Coordinator.Writes.{Echoes}
use ha_birdie.Ble.Coordinator.Available.{IsAttempt, async_connect-shown}
use ha_birdie.Ble.Coordinator.History.{
  IsTrue, is_uncaught, Reaches, connects, drops, stays, goes, history-IsTrue,
}

abbrev some_data : BirdieData
some_data = record {
  address = "AA:BB";
  name = some "Birdie";
  available = true;
  co2 = some 800;
  temperature = none;
  humidity = none;
  state = some 1;
  battery = none;
  co2_threshold = none;
  cool_down = none;
  firmware = none;
  hardware = none;
}

abbrev plain : Characteristic
plain = record { readable = true; notifies = false }

abbrev pub every : Services
every uuid = some plain

abbrev pub attached : BleClient
attached = record {
  client = some (record { connected = true });
  services = some every;
  notify = [];
  expected_disconnect = false;
}

abbrev idle : BleClient
idle = record { client = none; services = none; notify = []; expected_disconnect = false }

abbrev pub birdie : BirdieCoordinator
birdie = record { shown = some_data; client = attached; expected_connected = true; listeners = 0 }

abbrev meeting : Meeting
meeting = record {
  lookup = record {
    scanners = true;
    ha_device = some "AA:BB";
    bluez_device = none;
    bluez_client = false;
  };
  established = some true;
  cached = some every;
  fetched = none;
}

abbrev pub contact : Contact
contact = record { meeting = meeting; reads = λ uuid. none; lasts = true; works = λ uuid. true }

abbrev pub accepts_all : Bytes → Bool
accepts_all d = true

abbrev pub echo : Bytes → String → Option Bytes
echo d uuid = some d

pub echoes : (uuid : String) → Echoes attached uuid accepts_all echo
echoes uuid = record {
  connected = refl;
  services = every;
  have = refl;
  characteristic = plain;
  found = refl;
  readable = refl;
  accepts = λ d. refl;
  keeps = λ d. refl;
}

abbrev pub unplugged : BirdieCoordinator
unplugged = record birdie { client = idle }

async_connect-shown_example : IsAttempt (async_connect (record contact { lasts = false }) unplugged)
async_connect-shown_example = async_connect-shown (record contact { lasts = false }) unplugged

-- a connection that ends while the values are read is shown all the same
early_drop :
    let r = async_connect (record contact { lasts = false }) unplugged in
    (r.0 ≡ raised (uncaught ble_error))
    × ((r.1).shown.available ≡ true)
    × (is_connected (r.1).client ≡ false)
unfolding async_connect connect ble_device get_services have_known after_connect start_notify
    handle_values dropped handle_disconnect client_disconnected set_available
early_drop = (refl, refl, refl)

connects_now : is_uncaught (async_connect contact (create "AA:BB" none "Birdie")).0 ≡ false
unfolding async_connect connect ble_device get_services have_known after_connect start_notify
    handle_values create
connects_now = refl

abbrev steps :
    Reaches
      (create "AA:BB" none "Birdie")
      (dropped (async_connect contact (create "AA:BB" none "Birdie")).1)
steps = goes (connects contact _ connects_now) (goes (drops _) (stays _))

history-IsTrue_example : IsTrue (dropped (async_connect contact (create "AA:BB" none "Birdie")).1)
history-IsTrue_example = history-IsTrue "AA:BB" none "Birdie" _ steps
