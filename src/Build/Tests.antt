-- ===== src/Build/Tests.antt =====
-- The theorems of Build on a first build, and on a second one with other random bytes.
use hub_core.Base.{◌≡◌, refl, ℕ, ◌∷◌, true, none, some, replicate}
use hub_core.Base.Text.{ascii}
use hub_core.Base.Result.{ok}
use hub_core.Uuid.{hex_digit}
use hub_core.Build.{env_identity, HubIdentity, Machine, parse_identity_file, build_identity}
use hub_core.Build.Stays.{build_identity-stays}

abbrev machine : ℕ → Machine
machine b = record { id_bytes = replicate 16 b; secret_bytes = replicate 32 b; writes = true }

abbrev first : HubIdentity
first = record {
  device_id = ascii "abababab-abab-4bab-abab-abababababab";
  hub_secret = ascii "abababababababababababababababababababababababababababababababab";
}

first_test : (build_identity (machine 171) none none none).0 ≡ ok first
unfolding build_identity hex_digit
first_test = refl

without_test : env_identity none none ≡ none
unfolding env_identity
without_test = refl

half_test : env_identity (some (ascii "id")) none ≡ none
unfolding env_identity
half_test = refl

build_identity-stays_example :
    build_identity
      (machine 7)
      (some (ascii "id"))
      none
      (build_identity (machine 171) none none none).1
    ≡ (ok first, (build_identity (machine 171) none none none).1)
build_identity-stays_example =
    build_identity-stays (machine 171) (machine 7) none none (some (ascii "id")) none none first
      without_test half_test first_test

-- As an editor on Windows may leave it, with the lines the other way round.
windows_test :
    parse_identity_file (b'\n' ∷ ascii "HUB_SECRET=s\r\nHUB_DEVICE_ID=id")
    ≡ some (record { device_id = ascii "id"; hub_secret = ascii "s" })
unfolding parse_identity_file
windows_test = refl
