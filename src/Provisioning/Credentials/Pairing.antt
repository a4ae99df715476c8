-- ===== src/Provisioning/Credentials/Pairing.antt =====
-- The loop never pairs a new network with an old password.
use hub_core.Base.{ℕ, ◌≡◌, refl, inl, inr, List, [], ◌∷◌, Option, none, some, arith, Option-cases}
use hub_core.Base.Text.{Text}
use hub_core.Provisioning.Credentials.{
  set_ssid, set_password, written, WifiCredentials, PendingWifiCredentials, default, text_written,
  on_write_ssid, on_write_password, complete, next_pending_credentials_state,
}

-- What happens to the pending credentials: a write to a characteristic, or a look by the loop.
pub data Event : Type 0 where
  ssid_written : List ℕ → Event
  password_written : List ℕ → Event
  looked : Event

abbrev pub after : Event → PendingWifiCredentials → PendingWifiCredentials
after (ssid_written raw) p = on_write_ssid raw p
after (password_written raw) p = on_write_password raw p
after looked p = (next_pending_credentials_state p).1

-- The states that a history leads to, the newest event first.
pub data Run : List Event → PendingWifiCredentials → Type 0 where
  begin : Run [] default
  next :
      {es : List Event} {p : PendingWifiCredentials} (e : Event)
      → Run es p
      → Run (e ∷ es) (after e p)

abbrev or_older : Option Text → Option Text → Option Text
or_older none older = older
or_older (some s) older = some s

-- The newest network name that was written.
abbrev pub newest_ssid : List Event → Option Text
newest_ssid [] = none
newest_ssid (ssid_written raw ∷ es) = or_older (text_written raw) (newest_ssid es)
newest_ssid (password_written raw ∷ es) = newest_ssid es
newest_ssid (looked ∷ es) = newest_ssid es

abbrev unless_written : Option Text → Option Text → Option Text
unless_written none older = older
unless_written (some s) older = none

-- The newest password that was written since the newest network name was.
abbrev pub password_since_ssid : List Event → Option Text
password_since_ssid [] = none
password_since_ssid (ssid_written raw ∷ es) =
    unless_written (text_written raw) (password_since_ssid es)
password_since_ssid (password_written raw ∷ es) =
    or_older (text_written raw) (password_since_ssid es)
password_since_ssid (looked ∷ es) = password_since_ssid es

abbrev Paired : List Event → PendingWifiCredentials → Type 0
Paired es p =
    (s : Text)
    → p.ssid ≡ some s
    → (newest_ssid es ≡ some s)
      × ((w : Text) → p.password ≡ some w → password_since_ssid es ≡ some w)

Paired-ssid :
    (o : Option Text) (raw : List ℕ) (es : List Event) (p : PendingWifiCredentials)
    → text_written raw ≡ o
    → Paired es p
    → Paired (ssid_written raw ∷ es) (written set_ssid o p)
Paired-ssid none raw es p e h s is =
    (ground (arith, h s is), λ w iw. ground (arith, h s is, (h s is).1 w iw))
Paired-ssid (some t) raw es p e h s is = (ground arith, λ w iw. absurd (ground arith))

Paired-password :
    (o : Option Text) (raw : List ℕ) (es : List Event) (p : PendingWifiCredentials)
    → text_written raw ≡ o
    → Paired es p
    → Paired (password_written raw ∷ es) (written set_password o p)
Paired-password none raw es p e h s is = ((h s is).0, λ w iw. ground (arith, (h s is).1 w iw))
Paired-password (some t) raw es p e h s is = ((h s is).0, λ w iw. ground arith)

Paired-looked :
    (es : List Event) (p : PendingWifiCredentials)
    → Paired es p
    → Paired es (next_pending_credentials_state p).1
unfolding next_pending_credentials_state
Paired-looked es p h = elim (Option-cases p.ssid) [
  | inl a ↦ λ s is. absurd (ground arith)
  | inr (x, a) ↦ elim (Option-cases p.password) [
    | inl b ↦ λ s is. ground (arith, h x a)
    | inr (y, b) ↦ λ s is. absurd (ground arith)
  ]
]

Paired-after :
    (e : Event) (es : List Event) (p : PendingWifiCredentials)
    → Paired es p
    → Paired (e ∷ es) (after e p)
unfolding on_write_ssid on_write_password
Paired-after (ssid_written raw) es p h = Paired-ssid (text_written raw) raw es p refl h
Paired-after (password_written raw) es p h = Paired-password (text_written raw) raw es p refl h
Paired-after looked es p h = Paired-looked es p h

Run-Paired : (es : List Event) (p : PendingWifiCredentials) → Run es p → Paired es p
Run-Paired es p begin = λ s is. absurd (ground arith)
Run-Paired es p (next {es = older} {p = q} e r) = Paired-after e older q (Run-Paired older q r)

-- Credentials that the loop finds complete are the newest network name that was written and the
-- newest password, which was written after that name; and they are found once, since nothing is pending
-- behind them.
pub next_pending_credentials_state-paired :
    (es : List Event) (p : PendingWifiCredentials) (c : WifiCredentials)
    → Run es p
    → (next_pending_credentials_state p).0 ≡ complete c
    → (newest_ssid es ≡ some c.ssid)
      × (password_since_ssid es ≡ some c.password)
      × ((next_pending_credentials_state p).1 ≡ default)
unfolding next_pending_credentials_state
next_pending_credentials_state-paired es p c r e =
    let h = Run-Paired es p r in
    elim (Option-cases p.ssid) [
      | inl a ↦ elim (Option-cases p.password) [
        | inl b ↦ absurd (ground arith)
        | inr (y, b) ↦ absurd (ground arith)
      ]
      | inr (x, a) ↦ elim (Option-cases p.password) [
        | inl b ↦ absurd (ground arith)
        | inr (y, b) ↦ (ground (arith, h x a), ground (arith, (h x a).1 y b), ground arith)
      ]
    ]
