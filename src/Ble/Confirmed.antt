-- ===== src/Ble/Confirmed.antt =====
-- Which probes `discover_setup_probes` of src/ble.rs reports.
use hub_core.Base.{
  ℕ, ◌≡◌, refl, ap, ◌∙◌, inl, inr, Bool, true, false, ◌&&◌, List, [], ◌∷◌, Option, none, some,
  if◌then◌else◌, Bool-cases,
}
use hub_core.Base.Text.{Text}
use hub_core.Base.Result.{Result, ok, err, panic}
use hub_core.Probe.Adverts.{unwrap_or, is_setup}
use hub_core.Probe.Readings.{probe_uuid_char, parse_probe_uuid_ascii}
use hub_core.Probe.Scan.{ProbeCandidate}
use hub_core.Provisioning.ProbeList.{SetupProbe}
use hub_core.Ble.Link.{Device, Link, connect}
use hub_core.Ble.Setup.{
  confirm_magic, SetupError, push_if_ok, new_client, confirm_and_close, confirm_identity,
  read_setup_probe_identity, pick_up, discover_setup_probes,
}

-- The identifier that a probe gives, or else its address.
abbrev pub uuid_given : Device → Option (Option (List ℕ)) → Text
uuid_given d none = d.addr
uuid_given d (some none) = d.addr
uuid_given d (some (some raw)) = unwrap_or (parse_probe_uuid_ascii raw) d.addr

abbrev pub probe_of : Device → ProbeCandidate → SetupProbe
probe_of d c = record {
  probe_uuid = uuid_given d (d.service probe_uuid_char);
  name = c.meta.name;
  version_major = c.meta.version_major;
  version_minor = c.meta.version_minor;
}

-- The probe was asked, and the value of the confirmation was written to it.
abbrev pub took_confirmation : Device → ProbeCandidate → Bool
took_confirmation d c = elim (read_setup_probe_identity d c new_client).1.confirmed [
  | [] ↦ false
  | ◌∷◌ x xs ↦ true
]

-- In the order of the candidates.
unfoldable pub reported : (Text → Device) → List ProbeCandidate → List SetupProbe
reported device_at [] = []
reported device_at (c ∷ cs) =
    let d = device_at c.addr in
    let rest = reported device_at cs in
    if is_setup c.meta.mode && took_confirmation d c then probe_of d c ∷ rest else rest

-- A result, with what was confirmed before and behind it.
abbrev Agree : SetupProbe → Result SetupError SetupProbe → List Text → Type 0
Agree p (ok q) confirmed = (q ≡ p) × (confirmed ≡ confirm_magic ∷ [])
Agree p (err e) confirmed = confirmed ≡ []
Agree p panic confirmed = ⊥

confirm_and_close-Agree :
    (d : Device) (p : SetupProbe) (s : Link)
    → s.confirmed ≡ []
    → Agree p (confirm_and_close d p s).0 (confirm_and_close d p s).1.confirmed
unfolding confirm_and_close
confirm_and_close-Agree d p s h = elim (Bool-cases d.has_setup_confirm) [
  | inr missing ↦ rw missing h
  | inl there ↦ elim (Bool-cases d.confirm_succeeds) [
    | inl written ↦ rw (there, written) (refl, ap (λ l. confirm_magic ∷ l) h)
    | inr failed ↦ rw (there, failed) h
  ]
]

confirm_identity-Agree :
    (d : Device) (c : ProbeCandidate) (o : Option (Option (List ℕ))) (s : Link)
    → d.service probe_uuid_char ≡ o
    → s.confirmed ≡ []
    → Agree (probe_of d c) (confirm_identity d c o s).0 (confirm_identity d c o s).1.confirmed
unfolding confirm_identity
confirm_identity-Agree d c none s e h = rw e (confirm_and_close-Agree d _ s h)
confirm_identity-Agree d c (some none) s e h = h
confirm_identity-Agree d c (some (some raw)) s e h = rw e (confirm_and_close-Agree d _ s h)

read_setup_probe_identity-Agree :
    (d : Device) (c : ProbeCandidate)
    → Agree
        (probe_of d c)
        (read_setup_probe_identity d c new_client).0
        (read_setup_probe_identity d c new_client).1.confirmed
unfolding read_setup_probe_identity
read_setup_probe_identity-Agree d c = elim (Bool-cases d.connects) [
  | inr off ↦ rw off refl
  | inl on ↦ elim (Bool-cases d.has_service) [
    | inr bare ↦ rw (on, bare) refl
    | inl serves ↦
        rw (on, serves)
          (confirm_identity-Agree d c (d.service probe_uuid_char) (connect new_client) refl refl)
  ]
]

abbrev any_confirmed : List Text → Bool
any_confirmed l = elim l [ [] ↦ false | ◌∷◌ x xs ↦ true ]

pushed :
    (p : SetupProbe) (r : Result SetupError SetupProbe) (confirmed : List Text)
    (rest : List SetupProbe)
    → Agree p r confirmed
    → push_if_ok r rest ≡ (if any_confirmed confirmed then p ∷ rest else rest)
pushed p (ok q) confirmed rest (same, l) = rw l (ap (λ x. x ∷ rest) same)
pushed p (err e) confirmed rest l = rw l refl
pushed p panic confirmed rest l = elim l [ ]

pick_up-reported :
    (device_at : Text → Device) (cs : List ProbeCandidate)
    → pick_up device_at cs ≡ reported device_at cs
unfolding pick_up reported
pick_up-reported device_at [] = refl
pick_up-reported device_at (c ∷ cs) =
    let d = device_at c.addr in
    let agree = read_setup_probe_identity-Agree d c in
    let rest = pick_up-reported device_at cs in
    elim (Bool-cases (is_setup c.meta.mode)) [
      | inr normal ↦ rw normal rest
      | inl setup ↦ rw setup (
          pushed (probe_of d c) (read_setup_probe_identity d c new_client).0
            (read_setup_probe_identity d c new_client).1.confirmed (pick_up device_at cs) agree
          ∙ ap (λ l. if took_confirmation d c then probe_of d c ∷ l else l) rest)
    ]

-- `discover_setup_probes` reports, in the order in which they were heard, the probes in setup mode to which it
-- has written the confirmation, and no other: each under the identifier that it gives, or else its
-- address, with the name and the version of its advert.
pub discover_setup_probes-reported :
    (device_at : Text → Device) (cs : List ProbeCandidate)
    → discover_setup_probes device_at (ok cs) ≡ ok (reported device_at cs)
unfolding discover_setup_probes
discover_setup_probes-reported device_at cs = ap (λ l. ok l) (pick_up-reported device_at cs)
