-- ===== src/Storage/Tests.antt =====
-- The theorems of Storage on a flash store that never fails.
use hub_core.Base.{◌≡◌, ◌≢◌, refl, true, [], some, none, arith}
use hub_core.Base.Text.{ascii, text_eq}
use hub_core.Provisioning.Credentials.{WifiCredentials}
use hub_core.Storage.WifiStore.{load, save}
use hub_core.Storage.Identity.{load_or_generate_creds, write_hub_jwt}
use hub_core.Storage.Flash.{Laws}
use hub_core.Storage.Nvs.{flash_of, read_str, clear, flash_of-Laws, load-clear}
use hub_core.Storage.Cells.{flash, empty_cells, Cells, nvs, nvs-NvsLaws}

abbrev garden : WifiCredentials
garden = record { ssid = ascii "garden"; password = ascii "secret" }

saved_test : (save flash garden empty_cells).0 ≡ true
unfolding save
saved_test = refl

named : garden.ssid ≢ []
named e = ground arith

abbrev seeded : Cells
seeded = (load_or_generate_creds flash (ascii "id") (ascii "secret") empty_cells).1

seeded_test :
    (load_or_generate_creds flash (ascii "id") (ascii "secret") empty_cells).0
    ≡ some (ascii "id", ascii "secret")
unfolding load_or_generate_creds
seeded_test = refl

written_test : (write_hub_jwt flash (ascii "jwt") seeded).0 ≡ true
unfolding write_hub_jwt
written_test = refl

-- Over the calls of NVS, the identity is read back, and `clear` leaves no credentials.
over_calls_test : Laws (flash_of nvs)
over_calls_test = flash_of-Laws nvs (λ ns key s. s ns key) nvs-NvsLaws

cleared_test : load (flash_of nvs) (clear nvs (save (flash_of nvs) garden empty_cells).1).1 ≡ none
cleared_test =
    load-clear nvs (λ ns key s. s ns key) nvs-NvsLaws (save (flash_of nvs) garden empty_cells).1
      refl refl

loaded_test : load (flash_of nvs) (save (flash_of nvs) garden empty_cells).1 ≡ some garden
unfolding load save read_str text_eq
loaded_test = refl
