-- ===== src/Build/Lines.antt =====
-- The file of the identity, written and parsed: src/build.rs.
use hub_core.Base.{
  ◌≡◌, ◌∙◌, ap, refl, ℕ, false, [], ◌∷◌, ◌++◌, All, All-append, none, some, ◌==◌, arith,
}
use hub_core.Base.Text.{Text, ascii}
use hub_core.Build.{HubIdentity, both_vars, lines, parse_loop, parse_identity_file, identity_text}

-- Neither a line feed nor a carriage return.
abbrev pub IsPlain : ℕ → Type 0
IsPlain c = ((c == b'\n') ≡ false) × ((c == b'\r') ≡ false)

lines_line :
    (line rest : Text) → All IsPlain line → lines (line ++ b'\n' ∷ rest) ≡ line ∷ lines rest
unfolding lines
lines_line [] rest h = refl
lines_line (c ∷ cs) rest ((feed, ret), h) = ground (arith, lines_line cs rest h)

id_key-IsPlain : All IsPlain (ascii "HUB_DEVICE_ID=")
id_key-IsPlain = ground arith

secret_key-IsPlain : All IsPlain (ascii "HUB_SECRET=")
secret_key-IsPlain = ground arith

identity_lines :
    (i : HubIdentity)
    → All IsPlain i.device_id
    → All IsPlain i.hub_secret
    → lines (identity_text i)
      ≡ (ascii "HUB_DEVICE_ID=" ++ i.device_id) ∷ (ascii "HUB_SECRET=" ++ i.hub_secret) ∷ []
unfolding lines
identity_lines i a b =
    let second = All-append IsPlain (ascii "HUB_SECRET=") i.hub_secret secret_key-IsPlain b in
    let first = All-append IsPlain (ascii "HUB_DEVICE_ID=") i.device_id id_key-IsPlain a in
    lines_line (ascii "HUB_DEVICE_ID=" ++ i.device_id)
      (ascii "HUB_SECRET=" ++ (i.hub_secret ++ b'\n' ∷ [])) first
    ∙ ap (λ ls. (ascii "HUB_DEVICE_ID=" ++ i.device_id) ∷ ls)
        (lines_line (ascii "HUB_SECRET=" ++ i.hub_secret) [] second)

-- An identity of plain texts is read back from the file that is written for it.
pub parse_identity_file-identity_text :
    (i : HubIdentity)
    → All IsPlain i.device_id
    → All IsPlain i.hub_secret
    → parse_identity_file (identity_text i) ≡ some i
unfolding parse_identity_file
parse_identity_file-identity_text i a b =
    ap
      (λ ls.
        let s = parse_loop ls (record { device_id = none; hub_secret = none }) in
        both_vars s.device_id s.hub_secret)
      (identity_lines i a b)
