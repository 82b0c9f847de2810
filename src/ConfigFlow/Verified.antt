-- ===== src/ConfigFlow/Verified.antt =====
-- What the dialogue stores was checked (config_flow.py): the device's key, its address and its version,
-- and that a new device is a podium.
pub mod Steps
pub mod Manual
pub mod Changes
pub mod Runs
use ha_birdie.Base.{
  String, ◌≡◌, refl, sym, ◌∙◌, ap, Bool, true, false, ◌&&◌, ◌||◌, Bool-cases, Option-cases, ◌⊎◌,
  inl, inr, Option, none, some, List, [], ◌∷◌, arith, str_eq, str_eq_iff, contains, if◌then◌else◌,
  get_or,
}
use ha_birdie.Base.Dict.{update}
use ha_birdie.Dps.{Dps}
use ha_birdie.Lan.Device.{DeviceConfig, protocol_auto}
use ha_birdie.Lan.Device.Opening.{Opens}
use ha_birdie.Lan.Device.Once.{first_versions}
use ha_birdie.Purifier.Coordinator.{EntryData}
use ha_birdie.Purifier.Flow.{ConnectionResult}
use ha_birdie.Purifier.Flow.Check.{check_connection-passes}
use ha_birdie.ConfigFlow.{
  Flow, FlowResult, show_form, abort, abort_moved, create_purifier, update_entry, Outside,
  is_podium, async_create_purifier, text_or_none, new_data, connection_checked,
}
use ha_birdie.ConfigFlow.Purifier.{answered}
use ha_birdie.ConfigFlow.Change.{changes_to}

-- The device accepted the key at the host and the version, and answered so.
pub record Passed (o : Outside) (config : DeviceConfig) (v : String) (answer : Dps) : Type 0 where
  pub hint : Option String
  pub accepted :
      Opens
        (o.respond config.device_id config.local_key config.host)
        (first_versions config.protocol_version hint)
        v
        answer

-- the device of an entry, as it is connected to
abbrev pub config_of : EntryData → DeviceConfig
config_of e = record {
  device_id = e.device_id;
  host = e.host;
  local_key = e.local_key;
  protocol_version = get_or e.protocol_version protocol_auto;
  port = 6668;
}

module _ (Occurs : Outside → Type 0) where
  -- In an outside that occurs, the entry's device accepted its key at its host. The version that the
  -- entry stores is the one that was accepted, unless that was empty.
  pub record IsVerified (e : EntryData) : Type 0 where
    pub outside : Outside
    pub occurs : Occurs outside
    pub version : String
    pub answer : Dps
    pub passed : Passed outside (config_of e) version answer
    pub detected : (e.detected_version ≡ some version) ⊎ (version ≡ "")

  -- What is stored was verified; a new entry has an id that no entry had, and is a podium's. A host
  -- that is stored unverified is that of an announcement, for an entry that is there.
  abbrev pub Sound : Outside → FlowResult → Type 0
  Sound o (create_purifier id e) =
      (id ≡ e.device_id)
      × (contains o.configured id ≡ false)
      × (v : IsVerified e) × (is_podium (some (update [] v.answer)) e.product_key ≡ true)
  Sound o (update_entry e) = IsVerified e
  Sound o (abort_moved id host) = contains o.configured id ≡ true
  Sound o _ = Unit

is_podium-text_or_none :
    (d : Option Dps) (k : Option String) → is_podium d (text_or_none k) ≡ is_podium d k
unfolding is_podium
is_podium-text_or_none d none = refl
is_podium-text_or_none d (some k) = elim (Bool-cases (str_eq k "")) [
  | inl e ↦ let same : k ≡ "" = (str_eq_iff k "").0 e in rw same refl
  | inr e ↦ rw e refl
]

-- what a connection check without an error says
pub record Checked (o : Outside) (config : DeviceConfig) (r : ConnectionResult) : Type 0 where
  pub version : String
  pub answer : Dps
  pub passed : Passed o config version answer
  pub shown : r.version ≡ some version
  pub status : r.dps ≡ some (update [] answer)

pub connection_checked-Checked :
    (bytes_form : String → String) (o : Outside) (config : DeviceConfig) (hint : Option String)
    (f : Flow)
    → (connection_checked bytes_form o config hint f).0.error ≡ none
    → Checked o config (connection_checked bytes_form o config hint f).0
connection_checked-Checked bytes_form o config hint f h =
    let (v, e, opens, same) =
      check_connection-passes bytes_form config hint
        (o.respond config.device_id config.local_key config.host) o.now f.secrets h in
    record {
      version = v;
      answer = e;
      passed = record { hint = hint; accepted = opens };
      shown = ap (λ (r : ConnectionResult). r.version) same;
      status = ap (λ (r : ConnectionResult). r.dps) same;
    }

module _ (Occurs : Outside → Type 0) (o : Outside) where
  pub async_create_purifier-Sound :
      (config : DeviceConfig) (r : ConnectionResult) (product_key : Option String) (p : Outside)
      → Occurs p
      → (v : String) (answer : Dps) → Passed p (record config { port = 6668 }) v answer
      → (r.version ≡ some v) ⊎ (v ≡ "")
      → is_podium (some (update [] answer)) product_key ≡ true
      → Sound Occurs o (async_create_purifier o config r product_key)
  unfolding async_create_purifier
  async_create_purifier-Sound config r product_key p occurs v answer passed detected podium =
      elim (Bool-cases (contains o.configured config.device_id)) [
        | inl e ↦ rw e tt
        | inr e ↦ rw e (
          refl,
          e,
          record {
            outside = p;
            occurs = occurs;
            version = v;
            answer = answer;
            passed = passed;
            detected = detected;
          },
          is_podium-text_or_none (some (update [] answer)) product_key ∙ podium,
        )
      ]

  choose-Sound :
      (b : Bool) (x y : FlowResult)
      → (b ≡ true → Sound Occurs o x)
      → Sound Occurs o y
      → Sound Occurs o (if b then x else y)
  choose-Sound true x y hx hy = hx refl
  choose-Sound false x y hx hy = hy

  pub answered-Sound :
      (step : String) (config : DeviceConfig) (product_key : Option String) (r : ConnectionResult)
      (error : Option String)
      → Occurs o
      → (error ≡ none → Checked o (record config { port = 6668 }) r)
      → Sound Occurs o (answered o step config product_key r error)
  answered-Sound step config product_key r (some e) occurs h = tt
  answered-Sound step config product_key r none occurs h =
      let c = h refl in
      choose-Sound (is_podium r.dps product_key) (async_create_purifier o config r product_key)
        (show_form step (("base", "not_a_podium") ∷ []))
        (λ p.
          async_create_purifier-Sound config r product_key o occurs c.version c.answer c.passed
            (inl c.shown) (ap (λ d. is_podium d product_key) (sym c.status) ∙ p))
        tt

  pub changes_to-Sound :
      (step : String) (config : DeviceConfig) (changed : EntryData) (r : ConnectionResult)
      (error : Option String)
      → Occurs o
      → config_of changed ≡ config
      → changed.detected_version ≡ r.version
      → (error ≡ none → Checked o config r)
      → Sound Occurs o (changes_to step changed error)
  changes_to-Sound step config changed r (some e) occurs same detected h = tt
  changes_to-Sound step config changed r none occurs same detected h =
      let c = h refl in
      record {
        outside = o;
        occurs = occurs;
        version = c.version;
        answer = c.answer;
        passed = rw same c.passed;
        detected = inl (detected ∙ c.shown);
      }
