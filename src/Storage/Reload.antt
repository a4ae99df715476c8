-- ===== src/Storage/Reload.antt =====
-- The Wi-Fi credentials that are saved are loaded back: src/nvs_store.rs.
use hub_core.Base.{inl, ◌≡◌, ◌≢◌, refl, ◌∙◌, inr, true, [], ◌∷◌, some, arith}
use hub_core.Base.Text.{Text}
use hub_core.Provisioning.Credentials.{WifiCredentials}
use hub_core.Storage.Flash.{Flash, Laws}
use hub_core.Storage.WifiStore.{wifi_namespace, key_ssid, key_pass, loaded, load, save}

-- The credentials stand in the store.
pub record WifiSaved {S : Type 0} (f : Flash S) (c : WifiCredentials) (s : S) : Type 0 where
  pub opens : f.opens wifi_namespace true s ≡ true
  pub ssid_there : f.get_str wifi_namespace key_ssid s ≡ some (some c.ssid)
  pub password_there : f.get_str wifi_namespace key_pass s ≡ some (some c.password)

keys-ne : key_ssid ≢ key_pass
keys-ne e = ground arith

module _ {S : Type 0} (f : Flash S) (laws : Laws f) where
  save_ok :
      (c : WifiCredentials) (s : S)
      → (save f c s).0 ≡ true
      → let s1 = f.set_str wifi_namespace key_ssid c.ssid s in
        (s1.0 ≡ true)
        × ((f.set_str wifi_namespace key_pass c.password s1.1).0 ≡ true)
        × ((save f c s).1 ≡ (f.set_str wifi_namespace key_pass c.password s1.1).1)
        × (f.opens wifi_namespace true s ≡ true)
  unfolding save
  save_ok c s h = ground arith

  -- A save that went through leaves both texts.
  pub save-WifiSaved :
      (c : WifiCredentials) (s : S) → (save f c s).0 ≡ true → WifiSaved f c (save f c s).1
  save-WifiSaved c s h =
      let (a, b, e, o) = save_ok c s h in
      let s1 : S = (f.set_str wifi_namespace key_ssid c.ssid s).1 in
      let opens1 = laws.opens_after wifi_namespace key_ssid c.ssid wifi_namespace true s o in
      let opens2 =
        laws.opens_after wifi_namespace key_pass c.password wifi_namespace true s1 opens1 in
      let pass = laws.get_of_set wifi_namespace key_pass c.password s1 b in
      let ssid =
        laws.get_of_other wifi_namespace key_pass c.password wifi_namespace key_ssid s1
          (inr keys-ne)
        ∙ laws.get_of_set wifi_namespace key_ssid c.ssid s a in
      rw e (record { opens = opens2; ssid_there = ssid; password_there = pass })

  -- What is written in another namespace leaves them too.
  pub WifiSaved-other :
      (c : WifiCredentials) (ns key value : Text) (s : S)
      → wifi_namespace ≢ ns
      → WifiSaved f c s
      → WifiSaved f c (f.set_str ns key value s).1
  WifiSaved-other c ns key value s n v = record {
    opens = laws.opens_after ns key value wifi_namespace true s v.opens;
    ssid_there = laws.get_of_other ns key value wifi_namespace key_ssid s (inl n) ∙ v.ssid_there;
    password_there =
        laws.get_of_other ns key value wifi_namespace key_pass s (inl n) ∙ v.password_there;
  }

-- The password may be empty, and the name may not.
pub load_saved :
    {S : Type 0} (f : Flash S) (c : WifiCredentials) (s : S)
    → c.ssid ≢ []
    → WifiSaved f c s
    → load f s ≡ some c
unfolding load
load_saved f c s n v = rw (v.opens, v.password_there, v.ssid_there) (named c.ssid n)
  where
    named :
        (ssid : Text)
        → ssid ≢ []
        → loaded (some (some ssid)) (some (some c.password))
          ≡ some (record { ssid = ssid; password = c.password })
    named [] n = absurd (n refl)
    named (b ∷ bs) n = refl

-- Credentials whose `save` went through are what `load` returns from then on, unless the network's name
-- is empty.
pub load-save :
    {S : Type 0} (f : Flash S) (c : WifiCredentials) (s : S)
    → Laws f
    → c.ssid ≢ []
    → (save f c s).0 ≡ true
    → load f (save f c s).1 ≡ some c
load-save f c s laws n h = load_saved f c (save f c s).1 n (save-WifiSaved f laws c s h)
