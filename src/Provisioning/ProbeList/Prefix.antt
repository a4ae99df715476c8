-- ===== src/Provisioning/ProbeList/Prefix.antt =====
-- How much of the list `encode_setup_probes` gives.
use mathlib.Core.List.{append_assoc, append-nil}
use hub_core.Base.{
  ℕ, suc, ◌+◌, ◌≤◌, ◌<◌, ◌≡◌, refl, ap, sym, ◌∙◌, ◌⊎◌, inl, inr, List, [], ◌∷◌, ◌++◌, ltb, length,
  take, length-append, arith, Bool-cases,
}
use hub_core.Base.Text.{Text, decimal}
use hub_core.Provisioning.ProbeList.{
  SetupProbe, line_of, push_line, separator_len, max_probe_result_bytes, encode_loop,
  encode_setup_probes,
}

-- The lines, with a line feed between each two.
abbrev pub behind : List SetupProbe → Text
behind [] = []
behind (p ∷ ps) = b'\n' ∷ line_of p ++ behind ps

abbrev pub lines : List SetupProbe → Text
lines [] = []
lines (p ∷ ps) = line_of p ++ behind ps

onto : Text → List SetupProbe → Text
onto encoded [] = encoded
onto encoded (p ∷ ps) = onto (push_line encoded (line_of p)) ps

onto-cons : (x : ℕ) (xs : Text) (ps : List SetupProbe) → onto (x ∷ xs) ps ≡ x ∷ xs ++ behind ps
unfolding onto
onto-cons x xs [] = ap (◌∷◌ x) (sym (append-nil xs))
onto-cons x xs (p ∷ ps) =
    onto-cons x (xs ++ (b'\n' ∷ line_of p)) ps
    ∙ ap (◌∷◌ x) (append_assoc xs (b'\n' ∷ line_of p) (behind ps))

-- A line is never empty.
line_of-cons : (p : SetupProbe) → (x : ℕ) × (xs : Text) × (line_of p ≡ x ∷ xs)
unfolding line_of
line_of-cons p =
    elim p.probe_uuid
      as (λ u.
        (x : ℕ) × (xs : Text) × (u
            ++ (b'|' ∷ p.name
                ++ (b'|' ∷ decimal p.version_major ++ (b'.' ∷ decimal p.version_minor)))
          ≡ x ∷ xs)) [ [] ↦ (b'|', _, refl) | ◌∷◌ x xs ↦ (x, _, refl) ]

onto-lines : (ps : List SetupProbe) → onto [] ps ≡ lines ps
unfolding onto
onto-lines [] = refl
onto-lines (p ∷ ps) = let (x, xs, e) = line_of-cons p in rw e (onto-cons x xs ps)

length-push_line :
    (encoded line : Text)
    → length (push_line encoded line) ≡ length encoded + separator_len encoded + length line
length-push_line [] line = omega arith
length-push_line (x ∷ xs) line = omega (arith, length-append xs (b'\n' ∷ line))

encode_loop_lem :
    (encoded : Text) (ps : List SetupProbe)
    → length encoded ≤ max_probe_result_bytes
    → (n : ℕ) × (n ≤ length ps)
      × (encode_loop encoded ps ≡ onto encoded (take n ps))
      × (length (onto encoded (take n ps)) ≤ max_probe_result_bytes)
      × ((n ≡ length ps) ⊎ (max_probe_result_bytes < length (onto encoded (take (suc n) ps))))
unfolding encode_loop onto
encode_loop_lem encoded [] h = (0, omega arith, refl, h, inl refl)
encode_loop_lem encoded (p ∷ ps) h =
    let more = push_line encoded (line_of p) in
    let size = length-push_line encoded (line_of p) in
    elim (Bool-cases
      (ltb max_probe_result_bytes (length encoded + separator_len encoded + length (line_of p)))) [
        | inl full ↦ (0, omega arith, rw full refl, h, inr (ground arith))
        | inr fits ↦
            let (n, l, e, s, m) = encode_loop_lem more ps (ground arith) in
            (
              suc n,
              omega arith,
              rw fits e,
              s,
              elim m [ inl all ↦ inl (omega arith) | inr over ↦ inr over ],
            )
      ]

-- What `encode_setup_probes` gives is the lines of the first `n` probes, with a line feed between each
-- two, for the largest `n` for which this is at most 220 bytes: either all probes are listed, or one
-- more line would not have fitted.
pub encode_setup_probes-lines :
    (ps : List SetupProbe)
    → (n : ℕ) × (n ≤ length ps)
      × (encode_setup_probes ps ≡ lines (take n ps))
      × (length (encode_setup_probes ps) ≤ max_probe_result_bytes)
      × ((n ≡ length ps) ⊎ (max_probe_result_bytes < length (lines (take (suc n) ps))))
unfolding encode_setup_probes
encode_setup_probes-lines ps =
    let (n, l, e, s, m) = encode_loop_lem [] ps (omega arith) in
    let same = e ∙ onto-lines (take n ps) in
    (
      n,
      l,
      same,
      rw e s,
      elim m [ inl all ↦ inl all | inr over ↦ inr (rw (← onto-lines (take (suc n) ps)) over) ],
    )
