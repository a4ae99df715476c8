-- ===== src/Claim/Again.antt =====
-- A boot that has the identity and the token leaves them to every later boot: src/main.rs,
-- `provision_hub`.
use hub_core.Base.{◌≡◌, refl, inl, inr, Bool, true, false, Option, none, some, arith, Bool-cases}
use hub_core.Base.Text.{Text, text_eq, text_eq_iff}
use hub_core.Base.Result.{Result, ok, err, panic}
use hub_core.Storage.Flash.{Flash, Laws}
use hub_core.Storage.Identity.{
  hub_namespace, load_or_generate_creds, read_hub_jwt, write_hub_jwt, seed_over, seed_jwt_from_env,
}
use hub_core.Storage.Kept.{read-write_hub_jwt}
use hub_core.Claim.{
  AuthService, World, Boot, ClaimError, ProvisionError, token_not_written, token_not_seeded,
  token_kept, persist_claimed, from_stored, with_token, with_creds, provision_hub, claim_hub_token,
}
use hub_core.Claim.Seeded.{
  Seeded, load_or_generate_creds-Seeded, load_or_generate_creds_of_stored, write_hub_jwt-Seeded,
}

-- The identity and the token `c` stand in the store.
pub record Settled {S : Type 0} (f : Flash S) (c : Text × Text) (s : S) : Type 0 where
  pub secret : Text
  pub seeded : Seeded f (c.0, secret) s
  pub token_there : read_hub_jwt f s ≡ some (some c.1)

module _ {S W : Type 0} (f : Flash S) (service : AuthService W) (laws : Laws f) where
  read_opens :
      (s : S) (o : Option Text) → read_hub_jwt f s ≡ some o → f.opens hub_namespace false s ≡ true
  unfolding read_hub_jwt
  read_opens s o h = ground arith

  -- A write of the token that went through, over a store that could be read.
  write_hub_jwt-Settled :
      (id secret jwt : Text) (o : Option Text) (s : S)
      → Seeded f (id, secret) s
      → read_hub_jwt f s ≡ some o
      → (write_hub_jwt f jwt s).0 ≡ true
      → Settled f (id, jwt) (write_hub_jwt f jwt s).1
  write_hub_jwt-Settled id secret jwt o s v r w = record {
    secret = secret;
    seeded = write_hub_jwt-Seeded f jwt s (id, secret) laws v;
    token_there = read-write_hub_jwt f laws jwt s w (read_opens s o r);
  }

  token_kept-ok :
      (id jwt : Text) (e : ProvisionError) (w : World S W) (p : Bool × S) (c : Text × Text)
      → (token_kept f service id jwt e w p).0 ≡ ok c
      → (p.0 ≡ true) × (c ≡ (id, jwt)) × ((token_kept f service id jwt e w p).1.store ≡ p.1)
  token_kept-ok id jwt e w (true, s) c h = ground arith
  token_kept-ok id jwt e w (false, s) c h = absurd (ground arith)

  kept-Settled :
      (id secret jwt : Text) (e : ProvisionError) (o : Option Text) (w : World S W) (s : S)
      (c : Text × Text)
      → Seeded f (id, secret) s
      → read_hub_jwt f s ≡ some o
      → (token_kept f service id jwt e w (write_hub_jwt f jwt s)).0 ≡ ok c
      → Settled f c (token_kept f service id jwt e w (write_hub_jwt f jwt s)).1.store
  kept-Settled id secret jwt e o w s c v r h =
      let (written, same, store) = token_kept-ok id jwt e w (write_hub_jwt f jwt s) c h in
      rw (store, same) (write_hub_jwt-Settled id secret jwt o s v r written)

  seed_over-Settled :
      (id secret jwt : Text) (o : Option (Option Text)) (w : World S W) (s : S) (c : Text × Text)
      → Seeded f (id, secret) s
      → read_hub_jwt f s ≡ o
      → (token_kept f service id jwt token_not_seeded w (seed_over f jwt o s)).0 ≡ ok c
      → Settled f c (token_kept f service id jwt token_not_seeded w (seed_over f jwt o s)).1.store
  seed_over-Settled id secret jwt none w s c v r h = absurd (ground arith)
  seed_over-Settled id secret jwt (some none) w s c v r h =
      kept-Settled id secret jwt token_not_seeded none w s c v r h
  seed_over-Settled id secret jwt (some (some old)) w s c v r h =
      elim (Bool-cases (text_eq old jwt)) [
        | inl same ↦
            let old_jwt : old ≡ jwt = (text_eq_iff old jwt).0 same in
            let given : c ≡ (id, jwt) = ground arith in
            rw (same, given) (record { secret = secret; seeded = v; token_there = ground arith })
        | inr differ ↦
            rw differ
              (kept-Settled id secret jwt token_not_seeded (some old) w s c v r (rw differ at h))
      ]

  persist_claimed-Settled :
      (id secret : Text) (o : Option Text) (r : Result ClaimError Text) (w : World S W)
      (c : Text × Text)
      → Seeded f (id, secret) w.store
      → read_hub_jwt f w.store ≡ some o
      → (persist_claimed f service id (r, w)).0 ≡ ok c
      → Settled f c (persist_claimed f service id (r, w)).1.store
  unfolding persist_claimed
  persist_claimed-Settled id secret o (ok jwt) w c v r h =
      kept-Settled id secret jwt token_not_written o w w.store c v r h
  persist_claimed-Settled id secret o (err e) w c v r h = absurd (ground arith)
  persist_claimed-Settled id secret o panic w c v r h = absurd (ground arith)

  from_stored-Settled :
      (builds : Bool) (id secret : Text) (o : Option (Option Text)) (w : World S W)
      (c : Text × Text)
      → Seeded f (id, secret) w.store
      → read_hub_jwt f w.store ≡ o
      → (from_stored f service builds (id, secret) o w).0 ≡ ok c
      → Settled f c (from_stored f service builds (id, secret) o w).1.store
  unfolding from_stored claim_hub_token
  from_stored-Settled builds id secret none w c v r h = absurd (ground arith)
  from_stored-Settled builds id secret (some (some jwt)) w c v r h =
      let given : c ≡ (id, jwt) = ground arith in
      rw given (record { secret = secret; seeded = v; token_there = r })
  from_stored-Settled true id secret (some none) w c v r h =
      let called = claim_hub_token service id secret w in
      persist_claimed-Settled id secret none called.0 called.1 c v r h
  from_stored-Settled false id secret (some none) w c v r h = absurd (ground arith)

  with_token-Settled :
      (hub_token : Option Text) (builds : Bool) (id secret : Text) (w : World S W) (c : Text × Text)
      → Seeded f (id, secret) w.store
      → (with_token f service hub_token builds (id, secret) w).0 ≡ ok c
      → Settled f c (with_token f service hub_token builds (id, secret) w).1.store
  unfolding with_token seed_jwt_from_env
  with_token-Settled none builds id secret w c v h =
      from_stored-Settled builds id secret (read_hub_jwt f w.store) w c v refl h
  with_token-Settled (some jwt) builds id secret w c v h =
      seed_over-Settled id secret jwt (read_hub_jwt f w.store) w w.store c v refl h

  with_creds-Settled :
      (b : Boot) (creds : Option (Text × Text)) (w : World S W) (c : Text × Text)
      → ((a : Text × Text) → creds ≡ some a → Seeded f a w.store)
      → (with_creds f service b.hub_token b.runtime_builds creds w).0 ≡ ok c
      → Settled f c (with_creds f service b.hub_token b.runtime_builds creds w).1.store
  unfolding with_creds
  with_creds-Settled b none w c v h = absurd (ground arith)
  with_creds-Settled b (some (id, secret)) w c v h =
      with_token-Settled b.hub_token b.runtime_builds id secret w c (v (id, secret) refl) h

  pub provision_hub-Settled :
      (b : Boot) (w : World S W) (c : Text × Text)
      → (provision_hub f service b w).0 ≡ ok c
      → Settled f c (provision_hub f service b w).1.store
  unfolding provision_hub
  provision_hub-Settled b w c h =
      let loaded = load_or_generate_creds f b.build_device_id b.build_hub_secret w.store in
      with_creds-Settled b loaded.0 (record w { store = loaded.1 }) c
        (λ a e.
          load_or_generate_creds-Seeded f b.build_device_id b.build_hub_secret w.store a laws e)
        h

  pub provision_hub_of_stored :
      (b : Boot) (w : World S W) (c : Text × Text)
      → b.hub_token ≡ none
      → Settled f c w.store
      → provision_hub f service b w ≡ (ok c, w)
  unfolding provision_hub with_creds with_token from_stored
  provision_hub_of_stored b w c n v =
      let loaded =
        load_or_generate_creds_of_stored f b.build_device_id b.build_hub_secret w.store
          (c.0, v.secret) laws v.seeded in
      rw (loaded, n, v.token_there) refl

-- Once a boot has its identity and its token, whether they were claimed, stored or brought by the build,
-- every later boot of a build that brings no token gets the same two, writes nothing and calls nothing,
-- whichever identity that build was seeded with.
pub provision_hub-again :
    {S W : Type 0} (f : Flash S) (service : AuthService W) (b later : Boot) (w : World S W)
    (c : Text × Text)
    → Laws f
    → later.hub_token ≡ none
    → (provision_hub f service b w).0 ≡ ok c
    → provision_hub f service later (provision_hub f service b w).1
      ≡ (ok c, (provision_hub f service b w).1)
provision_hub-again f service b later w c laws n h =
    provision_hub_of_stored f service laws later (provision_hub f service b w).1 c n
      (provision_hub-Settled f service laws b w c h)
