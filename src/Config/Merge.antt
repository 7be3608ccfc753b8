-- ===== src/Config/Merge.antt =====
-- `_deep_merge` of core/config.py, on the trees that YAML reads.
use pypoc.Prelude.{
  Bool-cases, ap, ◌∙◌, String, ◌≡◌, refl, Option, none, some, arith, if◌then◌else◌, ◌==◌, string_eq,
  inl, inr, sym,
}
use pypoc.Prelude.Json.{Json, Fields, object, no_fields, field, get, set}

unfoldable mutual
  -- The loop over the entries of the override, with the result so far.
  pub deep_merge : {F : Type 0} → Fields F → Fields F → Fields F
  deep_merge result no_fields = result
  deep_merge result (field key value rest) =
      deep_merge (set key (merge_value (get key result) value) result) rest

  -- What an entry of the override makes of the value that stands under its key.
  pub merge_value : {F : Type 0} → Option (Json F) → Json F → Json F
  merge_value (some (object old)) (object value) = object (deep_merge old value)
  merge_value _ value = value

module _ {F : Type 0} where
  -- The keys of a dict differ.
  abbrev pub HasDistinctKeys : Fields F → Type 0
  HasDistinctKeys no_fields = Unit
  HasDistinctKeys (field k v d) = (get k d ≡ none) × HasDistinctKeys d

  get-set :
      (k j : String) (v : Json F) (d : Fields F)
      → get j (set k v d) ≡ (if k == j then some v else get j d)
  get-set k j v no_fields = refl
  get-set k j v (field i w d) =
      ground (
        arith,
        string_eq.beq_iff k j,
        string_eq.beq_iff i k,
        string_eq.beq_iff i j,
        get-set k j v d,
      )

  -- What stands under a key after the merge.
  abbrev pub merged : Option (Json F) → Option (Json F) → Option (Json F)
  merged old none = old
  merged old (some value) = some (merge_value old value)

  merged-step :
      (key k : String) (value : Json F) (base rest : Fields F)
      → get key rest ≡ none
      → merged
          (if key == k then some (merge_value (get key base) value) else get k base)
          (get k rest)
        ≡ merged (get k base) (get k (field key value rest))
  merged-step key k value base rest new = elim (Bool-cases (key == k)) [
    | inr other ↦ rw other refl
    | inl same ↦ let e = sym ((string_eq.beq_iff key k).0 same) in rw (same, e, new) refl
  ]

  -- After a merge every key holds: what the base holds, if the override does not have the key; the
  -- merge of the two, if both hold a dict; and else what the override holds.
  pub deep_merge-merged :
      (base over : Fields F) (k : String)
      → HasDistinctKeys over
      → get k (deep_merge base over) ≡ merged (get k base) (get k over)
  unfolding deep_merge
  deep_merge-merged base no_fields k h = refl
  deep_merge-merged base (field key value rest) k (new, h) =
      let entry = merge_value (get key base) value in
      deep_merge-merged (set key entry base) rest k h
      ∙ ap (λ old. merged old (get k rest)) (get-set key k entry base)
      ∙ merged-step key k value base rest new
