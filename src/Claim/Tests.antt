-- ===== src/Claim/Tests.antt =====
-- The theorems of Claim on a service that gives each identifier one token, and on stores of which one
-- never fails and the other cannot write tokens.
use hub_core.Base.{
  ◌≡◌, ◌≢◌, ◌↔◌, refl, ◌⊎◌, inl, inr, Bool, true, false, ◌&&◌, [], ◌∷◌, All, none, some,
  if◌then◌else◌, arith, Bool-cases,
}
use hub_core.Base.Text.{Text, ascii, text_eq, text_eq_refl}
use hub_core.Base.Result.{Result, ok, err}
use hub_core.Storage.Flash.{Flash, Laws}
use hub_core.Storage.Identity.{hub_namespace, key_jwt, read_hub_jwt, write_hub_jwt}
use hub_core.Storage.Cells.{Cells, flash, flash-Laws, empty_cells}
use hub_core.Claim.{
  AuthService, refused, token, failed_precondition, World, Boot, ProvisionError, token_not_written,
  claim_failed, already_claimed, provision_hub, boots,
}
use hub_core.Claim.Again.{provision_hub-again}
use hub_core.Claim.Spent.{ClaimOnce, is_ok}
use hub_core.Claim.LockedOut.{boots_locked_out}
use hub_core.Claim.Errors.{Refused, provision_hub-already_claimed_iff}

-- Which identifiers have their token.
abbrev pub Register : Type 0
Register = Text → Bool

abbrev pub auth : AuthService Register
auth id secret r = (
  if r id then refused failed_precondition else token (ascii "jwt"),
  λ id'. if text_eq id' id then true else r id',
)

abbrev taken : Text → Register → Bool
taken id r = r id

auth-ClaimOnce : ClaimOnce auth taken
auth-ClaimOnce = record {
  taken_by_token = λ id secret jwt s h. ground (arith, text_eq_refl id);
  no_second_token = λ id secret jwt s h e. ground arith;
  still_taken = λ id id' secret' s h. elim (Bool-cases (text_eq id id')) [
    | inl a ↦ ground arith
    | inr b ↦ ground arith
  ];
}

abbrev pub fresh : World Cells Register
fresh = record { store = empty_cells; server = λ id. false; claims = 0 }

abbrev pub first_boot : Boot
first_boot = record {
  build_device_id = ascii "id";
  build_hub_secret = ascii "secret";
  hub_token = none;
  runtime_builds = true;
  sntp_starts = true;
  sync_completed = λ n. true;
}

abbrev pub later_boot : Boot
later_boot = record first_boot { build_device_id = ascii "other" }

first_test : (provision_hub flash auth first_boot fresh).0 ≡ ok (ascii "id", ascii "jwt")
unfolding provision_hub text_eq write_hub_jwt
first_test = refl

provision_hub-again_example :
    provision_hub flash auth later_boot (provision_hub flash auth first_boot fresh).1
    ≡ (ok (ascii "id", ascii "jwt"), (provision_hub flash auth first_boot fresh).1)
provision_hub-again_example =
    provision_hub-again flash auth first_boot later_boot fresh (ascii "id", ascii "jwt") flash-Laws
      refl first_test

-- A store with no room for a token.
abbrev full : Flash Cells
full = record flash {
  set_str = λ ns key value s.
      if text_eq ns hub_namespace && text_eq key key_jwt
      then (false, s)
      else flash.set_str ns key value s;
}

full_other :
    (ns key value ns' key' : Text) (s : Cells)
    → (ns' ≢ ns) ⊎ (key' ≢ key)
    → full.get_str ns' key' (full.set_str ns key value s).1 ≡ full.get_str ns' key' s
full_other ns key value ns' key' s n =
    elim (Bool-cases (text_eq ns hub_namespace && text_eq key key_jwt)) [
      | inl shut ↦ rw shut refl
      | inr room ↦ rw room (flash-Laws.get_of_other ns key value ns' key' s n)
    ]

full_set :
    (ns key value : Text) (s : Cells)
    → (full.set_str ns key value s).0 ≡ true
    → full.get_str ns key (full.set_str ns key value s).1 ≡ some (some value)
full_set ns key value s h = elim (Bool-cases (text_eq ns hub_namespace && text_eq key key_jwt)) [
  | inl shut ↦ absurd (ground arith)
  | inr room ↦ rw room (flash-Laws.get_of_set ns key value s refl)
]

full-Laws : Laws full
full-Laws = record {
  get_of_set = full_set;
  get_of_other = full_other;
  opens_after = λ ns key value ns' rw s h. refl;
}

unwritten_test : (provision_hub full auth first_boot fresh).0 ≡ err token_not_written
unfolding provision_hub text_eq write_hub_jwt
unwritten_test = refl

absent_test : read_hub_jwt full (provision_hub full auth first_boot fresh).1.store ≡ some none
unfolding provision_hub text_eq write_hub_jwt
absent_test = refl

-- Even where the store has room again.
boots_locked_out_example :
    All
      (λ (r : Result ProvisionError (Text × Text)). is_ok r ≡ false)
      (boots full auth (later_boot ∷ first_boot ∷ []) (provision_hub full auth first_boot fresh).1)
boots_locked_out_example =
    boots_locked_out full auth taken first_boot (later_boot ∷ first_boot ∷ []) fresh full-Laws
      auth-ClaimOnce (refl, (refl, tt)) unwritten_test absent_test

provision_hub-already_claimed_iff_example :
    ((provision_hub flash auth first_boot (record fresh { server = λ id. true })).0
      ≡ err (claim_failed already_claimed))
    ↔ ((c : Text × Text) × Refused flash auth first_boot (record fresh { server = λ id. true }) c)
provision_hub-already_claimed_iff_example =
    provision_hub-already_claimed_iff flash auth first_boot (record fresh { server = λ id. true })

already_claimed_test :
    (provision_hub flash auth first_boot (record fresh { server = λ id. true })).0
    ≡ err (claim_failed already_claimed)
unfolding provision_hub text_eq write_hub_jwt
already_claimed_test = refl
