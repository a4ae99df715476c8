-- ===== src/Build/Stays.antt =====
-- A build keeps the identity of the build before it: src/build.rs.
use hub_core.Base.{◌≡◌, ◌∙◌, ap, refl, Option, none, some, arith, Bool-cases, inl, inr}
use hub_core.Base.Text.{Text}
use hub_core.Base.Result.{ok}
use hub_core.Build.{
  env_identity, HubIdentity, Machine, parsed, unless_parsed, generate_uuid_v4, generate_hex_secret,
  generated_identity, build_identity,
}
use hub_core.Build.Lines.{parse_identity_file-identity_text}
use hub_core.Build.Uuid.{generate_uuid_v4-IsPlain, hex_string-IsPlain}

-- The file holds the identity.
written_is_parsed :
    (m : Machine) (o : Option HubIdentity) (file : Option Text) (i : HubIdentity)
    → parsed file ≡ o
    → (unless_parsed m o file).0 ≡ ok i
    → parsed (unless_parsed m o file).1 ≡ some i
unfolding generate_hex_secret
written_is_parsed m (some j) file i p h = p ∙ ground arith
written_is_parsed m none file i p h = elim (Bool-cases m.writes) [
  | inr fails ↦ absurd (ground arith)
  | inl goes ↦
      let made : HubIdentity = record {
        device_id = generate_uuid_v4 m.id_bytes;
        hub_secret = generate_hex_secret m.secret_bytes;
      } in
      let same : made ≡ i = ground arith in
      rw goes (
        parse_identity_file-identity_text made (generate_uuid_v4-IsPlain m.id_bytes)
          (hex_string-IsPlain m.secret_bytes)
        ∙ ap some same)
]

without_environment :
    (m : Machine) (id secret : Option Text) (file : Option Text)
    → env_identity id secret ≡ none
    → build_identity m id secret file ≡ unless_parsed m (parsed file) file
unfolding build_identity generated_identity
without_environment m none secret file h = refl
without_environment m (some id) none file h = refl
without_environment m (some id) (some secret) file h = absurd (ground arith)

-- Once a build has an identity that its environment does not give, every later build whose environment does
-- not give one has the same, whatever random bytes it would draw, and leaves the file as it is.
pub build_identity-stays :
    (m later : Machine) (id secret id' secret' : Option Text) (file : Option Text) (i : HubIdentity)
    → env_identity id secret ≡ none
    → env_identity id' secret' ≡ none
    → (build_identity m id secret file).0 ≡ ok i
    → build_identity later id' secret' (build_identity m id secret file).1
      ≡ (ok i, (build_identity m id secret file).1)
build_identity-stays m later id secret id' secret' file i n n' h =
    let first = without_environment m id secret file n in
    let kept = written_is_parsed m (parsed file) file i refl (rw first at h) in
    rw first (
      without_environment later id' secret' (unless_parsed m (parsed file) file).1 n'
      ∙ ap (λ o. unless_parsed later o (unless_parsed m (parsed file) file).1) kept)
