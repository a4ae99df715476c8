-- ===== src/MainLoop/Start.antt =====
-- src/main.rs, `main` up to its loop: the saved Wi-Fi credentials, or provisioning and a restart; then the
-- identity and the token.
pub mod Restart
pub mod Tests
use hub_core.Base.{ℕ, Bool, List, Option, none, some}
use hub_core.Base.Text.{Text}
use hub_core.Base.Result.{Result, ok, err, panic}
use hub_core.Provisioning.Credentials.{WifiCredentials}
use hub_core.Provisioning.Run.{
  Tick, ProvisionedHub, Prov, Outcome, waiting, provisioned, not_advertised, panicked, run,
}
use hub_core.Net.Wifi.{Driver, Radio, WifiError, connect}
use hub_core.Storage.Flash.{Flash}
use hub_core.Storage.WifiStore.{load}
use hub_core.Grpc.{Server, Wire}
use hub_core.Claim.{AuthService, World, Boot, ProvisionError, claim_hub_after_time_sync}

-- Outside: what the hub meets from one power-on on.
pub record Power : Type 0 where
  pub driver : Driver
  pub boot : Boot
  pub advertises : Bool
  pub ticks : List Tick

pub data Started : Type 0 where
  -- The main loop is entered, with the identity and the token.
  running : WifiCredentials → Text × Text → Started
  -- `esp_restart`, behind a provisioning.
  restarting : ProvisionedHub → Started
  still_waiting : Started
  -- `main` returns an error.
  ended_unclaimed : ProvisionError → Started
  ended_unadvertised : Started
  ended_by_panic : Started

pub record Hardware (S W : Type 0) : Type 0 where
  pub world : World S W
  pub wire : Wire
  pub radio : Radio

module _ {S W : Type 0} (f : Flash S) (service : AuthService W) (server : Server) where
  unfoldable pub restart_after_provisioning : Outcome × Prov S W → Started × Hardware S W
  restart_after_provisioning (waiting, s) =
      (still_waiting, record { world = s.world; wire = s.wire; radio = s.radio })
  restart_after_provisioning (provisioned h, s) =
      (restarting h, record { world = s.world; wire = s.wire; radio = s.radio })
  restart_after_provisioning (not_advertised, s) =
      (ended_unadvertised, record { world = s.world; wire = s.wire; radio = s.radio })
  restart_after_provisioning (panicked, s) =
      (ended_by_panic, record { world = s.world; wire = s.wire; radio = s.radio })

  unfoldable pub provision : Power → Hardware S W → Started × Hardware S W
  unfolding restart_after_provisioning run
  provision p hw =
      restart_after_provisioning
        (run f service server p.advertises p.ticks hw.world hw.wire hw.radio)

  abbrev pub claimed :
      WifiCredentials
      → Hardware S W
      → Result ProvisionError (Text × Text) × World S W
      → Started × Hardware S W
  claimed creds hw (ok c, w) = (running creds c, record hw { world = w })
  claimed creds hw (err e, w) = (ended_unclaimed e, record hw { world = w })
  claimed creds hw (panic, w) = (ended_by_panic, record hw { world = w })

  unfoldable pub after_connect :
      Power → WifiCredentials → Result WifiError (Unit {0}) → Hardware S W → Started × Hardware S W
  unfolding provision claim_hub_after_time_sync
  after_connect p creds (ok u) hw =
      claimed creds hw (claim_hub_after_time_sync f service p.boot hw.world)
  after_connect p creds (err e) hw = provision p hw
  after_connect p creds panic hw = (ended_by_panic, hw)

  unfoldable pub from_saved : Power → Option WifiCredentials → Hardware S W → Started × Hardware S W
  unfolding after_connect connect
  from_saved p none hw = provision p hw
  from_saved p (some creds) hw =
      let (r, radio') = connect p.driver creds.ssid hw.radio in
      after_connect p creds r (record hw { radio = radio' })

  unfoldable pub start_hub : Power → Hardware S W → Started × Hardware S W
  unfolding from_saved load
  start_hub p hw = from_saved p (load f hw.world.store) hw
