-- ===== src/Uql/Translate/Filters.antt =====
-- The texts that conditions are translated to.
use Prim.Native.String.{◌++◌ as ◌+++◌}
use mirador_core.Prelude.{
  not, Option, none, some, List, [], ◌∷◌, ◌++◌, String, if◌then◌else◌, ◌==◌, string_keys,
}
use mirador_core.Uql.Syntax.{
  UqlCondition, no_condition, condition, UqlOperator, op_eq, op_neq, op_lt, op_le, op_gt, op_ge,
  op_like, op_match,
}
use mirador_core.Uql.Text.{Formats, join_texts}
use mirador_core.Uql.Translate.Defs.{like_pattern, kept_text, quoted}

-- `as_text` is the type assertion to string.
module _ {V : Type 0} (f : Formats V) (as_text : V → Option String) where
  -- `%v` of the value once LIKE has made it a pattern, where it is a text.
  abbrev pub like_text : Option String → V → String
  like_text (some t) value = like_pattern t
  like_text none value = f.show_value value

  unfoldable pub build_single_label_selector : String → UqlOperator → V → String
  unfolding like_pattern
  build_single_label_selector field op_eq value = field +++ ("=" +++ quoted (f.show_value value))
  build_single_label_selector field op_neq value = field +++ ("!=" +++ quoted (f.show_value value))
  build_single_label_selector field op_like value =
      field +++ ("=~" +++ quoted (like_text (as_text value) value))
  build_single_label_selector field op_match value =
      field +++ ("=~" +++ quoted (f.show_value value))
  build_single_label_selector field _ value = ""

  -- A pattern, where the value is a text.
  abbrev pub pattern_filter : String → Option String → String
  pattern_filter prefix none = ""
  pattern_filter prefix (some t) = prefix +++ quoted (like_pattern t)

  unfoldable pub build_single_logs_filter : String → UqlOperator → V → String
  unfolding like_pattern
  build_single_logs_filter field op_eq value = field +++ (":" +++ quoted (f.show_value value))
  build_single_logs_filter field op_neq value = field +++ ("!:" +++ quoted (f.show_value value))
  build_single_logs_filter field op_like value = pattern_filter (field +++ ":~") (as_text value)
  build_single_logs_filter field op_match value = pattern_filter (field +++ ":~") (as_text value)
  build_single_logs_filter field op_gt value = field +++ (" > " +++ f.show_value value)
  build_single_logs_filter field op_lt value = field +++ (" < " +++ f.show_value value)
  build_single_logs_filter field op_ge value = field +++ (" >= " +++ f.show_value value)
  build_single_logs_filter field op_le value = field +++ (" <= " +++ f.show_value value)
  build_single_logs_filter field _ value = ""

  unfoldable pub build_single_tag_filter : String → UqlOperator → V → String
  unfolding like_pattern
  build_single_tag_filter field op_eq value = field +++ ("=" +++ quoted (f.show_value value))
  build_single_tag_filter field op_neq value = field +++ ("!=" +++ quoted (f.show_value value))
  build_single_tag_filter field op_like value = pattern_filter (field +++ "=~") (as_text value)
  build_single_tag_filter field op_match value = pattern_filter (field +++ "=~") (as_text value)
  build_single_tag_filter field _ value = ""

  -- The main condition of the node, when it names a field.
  abbrev pub main_text : String → String → List String
  main_text field text = if not (field == "") then kept_text text else []

  -- An OR is left out.
  unfoldable pub build_label_selectors : UqlCondition V → String
  unfolding build_single_label_selector
  build_label_selectors no_condition = ""
  build_label_selectors (condition field op value and or) = join_texts "," (
      main_text field (build_single_label_selector field op value)
      ++ kept_text (build_label_selectors and))

  abbrev pub parenthesized : String → List String
  parenthesized t = if t == "" then [] else ("(" +++ (t +++ ")")) ∷ []

  unfoldable pub build_logs_filter : UqlCondition V → String
  unfolding build_single_logs_filter join_texts
  build_logs_filter no_condition = ""
  build_logs_filter (condition field op value and or) = join_texts " AND " (
      main_text field (build_single_logs_filter field op value)
      ++ (parenthesized (build_logs_filter and) ++ parenthesized (build_logs_filter or)))

  unfoldable pub build_tag_filters : UqlCondition V → String
  unfolding build_single_tag_filter join_texts
  build_tag_filters no_condition = ""
  build_tag_filters (condition field op value and or) = join_texts " && " (
      main_text field (build_single_tag_filter field op value)
      ++ (kept_text (build_tag_filters and) ++ kept_text (build_tag_filters or)))
