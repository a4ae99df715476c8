-- ===== src/Storage/Identity.antt =====
-- src/persist.rs: the identity of the hub, seeded from the build, and its token.
use hub_core.Base.{Bool, true, false, not, Option, none, some, if◌then◌else◌}
use hub_core.Base.Text.{Text, ascii, text_eq}
use hub_core.Storage.Flash.{Flash}

abbrev pub hub_namespace : Text
hub_namespace = ascii "hub"

abbrev pub key_device_id : Text
key_device_id = ascii "device_id"

abbrev pub key_hub_secret : Text
key_hub_secret = ascii "hub_secret"

abbrev pub key_jwt : Text
key_jwt = ascii "jwt"

-- `none` is an error of any call.
abbrev pub Creds : Type 0
Creds = Option (Text × Text)

module _ {S : Type 0} (f : Flash S) (build_device_id build_hub_secret : Text) where
  abbrev pub then_secret : Bool × S → Creds × S
  then_secret (false, s) = (none, s)
  then_secret (true, s) =
      let (written, s') = f.set_str hub_namespace key_hub_secret build_hub_secret s in
      (if written then some (build_device_id, build_hub_secret) else none, s')

  abbrev pub seed : S → Creds × S
  seed s = then_secret (f.set_str hub_namespace key_device_id build_device_id s)

  -- From what is stored; the secret is read only if the identifier was read without an error.
  abbrev pub creds_of : Option (Option Text) → Option (Option Text) → S → Creds × S
  creds_of (some (some id)) (some (some secret)) s = (some (id, secret), s)
  creds_of (some (some id)) (some none) s = seed s
  creds_of (some none) (some secret) s = seed s
  creds_of none secret s = (none, s)
  creds_of (some id) none s = (none, s)

  unfoldable pub load_or_generate_creds : S → Creds × S
  load_or_generate_creds s =
      if not (f.opens hub_namespace true s)
      then (none, s)
      else creds_of (f.get_str hub_namespace key_device_id s)
          (f.get_str hub_namespace key_hub_secret s) s

module _ {S : Type 0} (f : Flash S) where
  -- `none` is an error.
  unfoldable pub read_hub_jwt : S → Option (Option Text)
  read_hub_jwt s =
      if not (f.opens hub_namespace false s) then none else f.get_str hub_namespace key_jwt s

  unfoldable pub write_hub_jwt : Text → S → Bool × S
  write_hub_jwt jwt s =
      if not (f.opens hub_namespace true s)
      then (false, s)
      else f.set_str hub_namespace key_jwt jwt s

  -- From the token that is stored: the same one is not written again.
  abbrev pub seed_over : Text → Option (Option Text) → S → Bool × S
  seed_over token none s = (false, s)
  seed_over token (some none) s = write_hub_jwt token s
  seed_over token (some (some existing)) s =
      if text_eq existing token then (true, s) else write_hub_jwt token s

  unfoldable pub seed_jwt_from_env : Text → S → Bool × S
  unfolding read_hub_jwt write_hub_jwt text_eq
  seed_jwt_from_env token s = seed_over token (read_hub_jwt s) s
