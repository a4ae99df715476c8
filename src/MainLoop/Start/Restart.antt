-- ===== src/MainLoop/Start/Restart.antt =====
-- The start behind a provisioning: src/main.rs, src/wifi_prov.rs, src/persist.rs and src/nvs_store.rs
-- together.
use hub_core.Base.{◌≡◌, ◌≢◌, refl, ap, ◌∙◌, ℕ, [], Option, none, some, arith}
use hub_core.Base.Text.{Text}
use hub_core.Base.Result.{Result, ok, err, panic}
use hub_core.Provisioning.Credentials.{WifiCredentials}
use hub_core.Provisioning.Run.{
  ProvisionedHub, Prov, Outcome, waiting, provisioned, not_advertised, panicked, run,
}
use hub_core.Provisioning.Run.Stored.{InStore, Handed, run-Stored}
use hub_core.Net.Sntp.{synced, get_sync_sntp}
use hub_core.Net.Wifi.{WifiError, connect}
use hub_core.Storage.Flash.{Flash, Laws, HasRoom}
use hub_core.Storage.WifiStore.{load}
use hub_core.Storage.Reload.{load_saved}
use hub_core.Grpc.{Server}
use hub_core.Claim.{AuthService, World, Boot, ProvisionError, after_sync, claim_hub_after_time_sync}
use hub_core.Claim.Again.{provision_hub_of_stored}
use hub_core.MainLoop.Start.{
  Radio, Power, running, restarting, Hardware, restart_after_provisioning, provision, claimed,
  after_connect, from_saved, start_hub,
}

module _ {S W : Type 0} (f : Flash S) (service : AuthService W) (server : Server) (laws : Laws f)
    (room : HasRoom f) where
  restart-InStore :
      (q : Outcome × Prov S W) (h : ProvisionedHub)
      → Handed f q.0 q.1.world.store
      → (restart_after_provisioning f service server q).0 ≡ restarting h
      → InStore f h (restart_after_provisioning f service server q).1.world.store
  unfolding restart_after_provisioning
  restart-InStore (waiting, s) h v e = absurd (ground arith)
  restart-InStore (provisioned g, s) h v e = let same : g ≡ h = ground arith in rw (← same) v
  restart-InStore (not_advertised, s) h v e = absurd (ground arith)
  restart-InStore (panicked, s) h v e = absurd (ground arith)

  provision-InStore :
      (p : Power) (hw : Hardware S W) (h : ProvisionedHub)
      → (provision f service server p hw).0 ≡ restarting h
      → InStore f h (provision f service server p hw).1.world.store
  unfolding provision
  provision-InStore p hw h e =
      restart-InStore (run f service server p.advertises p.ticks hw.world hw.wire hw.radio) h
        (run-Stored f service server laws room p.advertises p.ticks hw.world hw.wire hw.radio) e

  claimed-ne-restarting :
      (creds : WifiCredentials) (hw : Hardware S W)
      (r : Result ProvisionError (Text × Text) × World S W) (h : ProvisionedHub)
      → (claimed f service server creds hw r).0 ≢ restarting h
  claimed-ne-restarting creds hw (ok c, w) h e = ground arith
  claimed-ne-restarting creds hw (err x, w) h e = ground arith
  claimed-ne-restarting creds hw (panic, w) h e = ground arith

  after_connect-InStore :
      (p : Power) (creds : WifiCredentials) (r : Result WifiError (Unit {0})) (hw : Hardware S W)
      (h : ProvisionedHub)
      → (after_connect f service server p creds r hw).0 ≡ restarting h
      → InStore f h (after_connect f service server p creds r hw).1.world.store
  unfolding after_connect
  after_connect-InStore p creds (ok u) hw h e =
      absurd
        (claimed-ne-restarting creds hw (claim_hub_after_time_sync f service p.boot hw.world) h e)
  after_connect-InStore p creds (err x) hw h e = provision-InStore p hw h e
  after_connect-InStore p creds panic hw h e = absurd (ground arith)

  from_saved-InStore :
      (p : Power) (o : Option WifiCredentials) (hw : Hardware S W) (h : ProvisionedHub)
      → (from_saved f service server p o hw).0 ≡ restarting h
      → InStore f h (from_saved f service server p o hw).1.world.store
  unfolding from_saved
  from_saved-InStore p none hw h e = provision-InStore p hw h e
  from_saved-InStore p (some creds) hw h e =
      let called = connect p.driver creds.ssid hw.radio in
      after_connect-InStore p creds called.0 (record hw { radio = called.1 }) h e

  start-InStore :
      (p : Power) (hw : Hardware S W) (h : ProvisionedHub)
      → (start_hub f service server p hw).0 ≡ restarting h
      → InStore f h (start_hub f service server p hw).1.world.store
  unfolding start_hub
  start-InStore p hw h e = from_saved-InStore p (load f hw.world.store) hw h e

  claim_of_stored :
      (b : Boot) (w : World S W) (h : ProvisionedHub) (k : ℕ)
      → b.hub_token ≡ none
      → (get_sync_sntp b.sntp_starts b.sync_completed).0 ≡ synced k
      → InStore f h w.store
      → claim_hub_after_time_sync f service b w ≡ (ok (h.hub_device_id, h.jwt), w)
  unfolding claim_hub_after_time_sync after_sync
  claim_of_stored b w h k n sync v =
      rw sync
        (provision_hub_of_stored f service laws b w (h.hub_device_id, h.jwt) n v.identity_there)

  from_saved_connected :
      (p : Power) (creds : WifiCredentials) (hw : Hardware S W)
      → (connect p.driver creds.ssid hw.radio).0 ≡ ok tt
      → from_saved f service server p (some creds) hw
        ≡ claimed f service server creds
            (record hw { radio = (connect p.driver creds.ssid hw.radio).1 })
            (claim_hub_after_time_sync f service p.boot hw.world)
  unfolding from_saved after_connect
  from_saved_connected p creds hw c = rw c refl

  start_of_stored :
      (p : Power) (hw : Hardware S W) (h : ProvisionedHub) (k : ℕ)
      → h.credentials.ssid ≢ []
      → p.boot.hub_token ≡ none
      → (connect p.driver h.credentials.ssid hw.radio).0 ≡ ok tt
      → (get_sync_sntp p.boot.sntp_starts p.boot.sync_completed).0 ≡ synced k
      → InStore f h hw.world.store
      → start_hub f service server p hw ≡ (
        running h.credentials (h.hub_device_id, h.jwt),
        record hw { radio = (connect p.driver h.credentials.ssid hw.radio).1 },
      )
  unfolding start_hub
  start_of_stored p hw h k named n c sync v =
      let loaded = load_saved f h.credentials hw.world.store named v.credentials_there in
      ap (λ o. from_saved f service server p o hw) loaded
      ∙ from_saved_connected p h.credentials hw c
      ∙ ap
          (claimed f service server h.credentials
            (record hw { radio = (connect p.driver h.credentials.ssid hw.radio).1 }))
          (claim_of_stored p.boot hw.world h k n sync v)

-- Where the store has room, a start that ends in a restart behind a provisioning is followed by one that runs
-- the main loop with the credentials, the identity and the token of that provisioning, and that neither
-- writes to the store nor calls the service, if the network can be joined (its name is not empty), the time
-- can be had, and the build brings no token. The restart may leave the radio in any state.
pub start-restart :
    {S W : Type 0} (f : Flash S) (service : AuthService W) (server : Server) (p later : Power)
    (hw : Hardware S W) (h : ProvisionedHub) (radio : Radio) (k : ℕ)
    → Laws f
    → HasRoom f
    → (start_hub f service server p hw).0 ≡ restarting h
    → h.credentials.ssid ≢ []
    → later.boot.hub_token ≡ none
    → (connect later.driver h.credentials.ssid radio).0 ≡ ok tt
    → (get_sync_sntp later.boot.sntp_starts later.boot.sync_completed).0 ≡ synced k
    → let hw' = (start_hub f service server p hw).1 in
      start_hub f service server later (record hw' { radio = radio }) ≡ (
        running h.credentials (h.hub_device_id, h.jwt),
        record hw' { radio = (connect later.driver h.credentials.ssid radio).1 },
      )
start-restart f service server p later hw h radio k laws room e named n c sync =
    let hw' = (start_hub f service server p hw).1 in
    start_of_stored f service server laws room later (record hw' { radio = radio }) h k named n c
      sync (start-InStore f service server laws room p hw h e)
