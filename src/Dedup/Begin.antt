-- ===== src/Dedup/Begin.antt =====
-- The three answers of `try_begin` of src/polling.rs, and when each is given.
use hub_core.Base.{
  ◌≡◌, ◌⊎◌, inl, inr, ◌∙◌, true, false, ◌||◌, none, some, arith, Bool-cases, Option-cases,
}
use hub_core.Base.Int.{ℤ, pos, leb_ℤ, ◌≤ℤ◌, ◌<ℤ◌, ◌-ℤ◌}
use hub_core.Base.Maps.{contains_key}
use hub_core.Base.Text.{Text, text_eq}
use hub_core.Dedup.{
  CommandDedupSet, DedupBegin, new, already_processing, already_processed, prune, try_begin,
}
use hub_core.Dedup.Retention.{saturating_sub_leb}

-- The id is on record as finished for at most 300 s, or not at all or for longer.
abbrev pub IsRemembered : ℤ → Text → CommandDedupSet → Type 0
IsRemembered now id d = (seen : ℤ) × (d.processed id ≡ some seen) × (now -ℤ seen ≤ℤ pos 300000)

abbrev pub IsForgotten : ℤ → Text → CommandDedupSet → Type 0
IsForgotten now id d =
    (d.processed id ≡ none)
    ⊎ ((seen : ℤ) × (d.processed id ≡ some seen) × (pos 300000 <ℤ now -ℤ seen))

module _ (now : ℤ) (id : Text) (d : CommandDedupSet) where
  -- What the answer leaves in progress.
  abbrev Same : CommandDedupSet → Type 0
  Same d' = (j : Text) → d'.processing j ≡ d.processing j

  abbrev pub Answered : DedupBegin → CommandDedupSet → Type 0
  Answered already_processed d' = IsRemembered now id d × Same d'
  Answered already_processing d' = IsForgotten now id d × (d.processing id ≡ true) × Same d'
  Answered new d' =
      IsForgotten now id d
      × (d.processing id ≡ false)
      × ((j : Text) → d'.processing j ≡ (text_eq j id || d.processing j))

  answered :
      (b : DedupBegin)
      → (try_begin now id d).0 ≡ b
      → Answered b (try_begin now id d).1
      → Answered (try_begin now id d).0 (try_begin now id d).1
  answered b h a = rw h a

  known :
      (seen : ℤ)
      → d.processed id ≡ some seen
      → leb_ℤ (now -ℤ seen) (pos 300000) ≡ true
      → Answered (try_begin now id d).0 (try_begin now id d).1
  unfolding try_begin
  known seen there soon =
      let kept = saturating_sub_leb now seen ∙ soon in
      answered already_processed (ground (arith, there, kept))
        ((seen, there, ground arith), λ j. ground (arith, there, kept))

  -- The id is not in the pruned map.
  unknown :
      IsForgotten now id d
      → contains_key (prune now d).processed id ≡ false
      → Answered (try_begin now id d).0 (try_begin now id d).1
  unfolding try_begin prune
  unknown forgotten gone = elim (Bool-cases (d.processing id)) [
    | inl busy ↦
        answered already_processing (ground (arith, gone, busy))
          (forgotten, busy, λ j. ground (arith, gone, busy))
    | inr idle ↦
        answered new (ground (arith, gone, idle)) (forgotten, idle, λ j. ground (arith, gone, idle))
  ]

  pub try_begin-Answered : Answered (try_begin now id d).0 (try_begin now id d).1
  unfolding prune
  try_begin-Answered = elim (Option-cases (d.processed id)) [
    | inl absent ↦ unknown (inl absent) (ground (arith, absent))
    | inr (seen, there) ↦ elim (Bool-cases (leb_ℤ (now -ℤ seen) (pos 300000))) [
      | inl soon ↦ known seen there soon
      | inr long_ago ↦
          unknown (inr (seen, there, ground arith))
            (ground (arith, there, saturating_sub_leb now seen ∙ long_ago))
    ]
  ]
