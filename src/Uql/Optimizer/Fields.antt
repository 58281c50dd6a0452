-- ===== src/Uql/Optimizer/Fields.antt =====
-- The choice of the fields of a SELECT, and the order of its sorting.
use Prim.Native.String.{◌++◌ as ◌+++◌}
use mirador_core.Prelude.{
  ◌≡◌, refl, Bool, ◌&&◌, ◌||◌, not, List, [], ◌∷◌, ◌++◌, map, String, arith, if◌then◌else◌, ◌==◌,
  contains, string_keys, length, ltb, keep, Distinct, Bool-cases, same_refl, inl, inr,
}
use mirador_core.Prelude.Strings.{str_ltb}
use mirador_core.Prelude.Sorting.{sort_by}
use mirador_core.Uql.Syntax.{UqlField, UqlOrderBy, UqlCondition, no_condition, condition, UqlSelect}

abbrev pub field_key : UqlField → String
field_key f = f.name +++ f.function

-- The loop of `optimizeFieldSelection` with the keys that it has seen.
unfoldable pub unique_fields : List String → List UqlField → List UqlField
unique_fields seen [] = []
unique_fields seen (f ∷ fields) =
    if contains (field_key f) seen
    then unique_fields seen fields
    else f ∷ unique_fields (field_key f ∷ seen) fields

unfoldable pub optimize_field_selection : List UqlField → List UqlField
unfolding unique_fields
optimize_field_selection fields = unique_fields [] fields

abbrev pub by_field : UqlOrderBy → UqlOrderBy → Bool
by_field a b = str_ltb a.field b.field

unfoldable pub optimize_order_by : List UqlOrderBy → List UqlOrderBy
optimize_order_by order_by = sort_by by_field order_by

-- A field is used if it is the wildcard or its name is.
abbrev pub is_field_used : List String → UqlField → Bool
is_field_used used f = f.name == "*" || contains f.name used

module _ {V : Type 0} where
  -- The names used by a condition.
  unfoldable pub mark_used_fields_in_condition : UqlCondition V → List String → List String
  mark_used_fields_in_condition no_condition used = used
  mark_used_fields_in_condition (condition field operator value and or) used =
      mark_used_fields_in_condition or
        (mark_used_fields_in_condition and (if not (field == "") then field ∷ used else used))

  unfoldable pub identify_used_fields : UqlSelect V → List UqlOrderBy → List String
  unfolding mark_used_fields_in_condition
  identify_used_fields s order_by =
      map (λ o. o.field) order_by ++ (s.group_by ++ mark_used_fields_in_condition s.filter [])

  -- The fields that pruning leaves.
  unfoldable pub prune : UqlSelect V → List UqlOrderBy → List UqlField
  unfolding identify_used_fields
  prune s order_by =
      let pruned = keep (is_field_used (identify_used_fields s order_by)) s.fields in
      if ltb (length pruned) (length s.fields) then pruned else s.fields

-- Selection keeps a field for each key: the fields that it leaves have distinct keys, which are those
-- of the fields that it is given.
unique_fields_lem :
    (seen : List String) (fields : List UqlField) (k : String)
    → contains k (map field_key (unique_fields seen fields))
      ≡ (contains k (map field_key fields) && not (contains k seen))
unfolding unique_fields
unique_fields_lem seen [] k = refl
unique_fields_lem seen (f ∷ fields) k = ground (
  arith,
  string_keys.same_iff (field_key f) k,
  unique_fields_lem seen fields k,
  unique_fields_lem (field_key f ∷ seen) fields k,
)

unique_fields-Distinct :
    (seen : List String) (fields : List UqlField)
    → Distinct (map field_key (unique_fields seen fields))
unfolding unique_fields
unique_fields-Distinct seen [] = tt
unique_fields-Distinct seen (f ∷ fields) = elim (Bool-cases (contains (field_key f) seen)) [
  | inl old ↦ rw (unique_fields, old) (unique_fields-Distinct seen fields)
  | inr new ↦
      rw (unique_fields, new)
        (
          ground (
            arith,
            unique_fields_lem (field_key f ∷ seen) fields (field_key f),
            same_refl (field_key f),
          ),
          unique_fields-Distinct (field_key f ∷ seen) fields,
        )
]

-- The fields that `optimizeFieldSelection` leaves have distinct keys, a key being the name followed by
-- the function, and these are the keys that were given.
pub optimize_field_selection_lem :
    (fields : List UqlField)
    → Distinct (map field_key (optimize_field_selection fields))
      × ((k : String)
          → contains k (map field_key (optimize_field_selection fields))
            ≡ contains k (map field_key fields))
unfolding optimize_field_selection
optimize_field_selection_lem fields =
    (unique_fields-Distinct [] fields, λ k. ground (arith, unique_fields_lem [] fields k))
