-- ===== src/Uql/Parse/Select.antt =====
-- The parser of SELECT queries.
use Prim.Native.String.{◌++◌ as ◌+++◌, len, slice}
use mirador_core.Prelude.{
  ℕ, ◌+◌, ◌-◌, Bool, true, false, ◌&&◌, ◌||◌, not, Option, none, some, List, [], ◌∷◌, String,
  if◌then◌else◌, ◌==◌, string_keys, leb, ltb,
}
use mirador_core.Prelude.Int.{ℤ}
use mirador_core.Uql.Outcome.{Outcome, done, failed, ◌>>=◌, ◌>>◌, reject_if, wrap_error}
use mirador_core.Uql.Syntax.{UqlQuery, no_condition, type_select}
use mirador_core.Uql.Parse.Texts.{TextLibrary, index, has_prefix, has_suffix, from}
use mirador_core.Uql.Parse.Clauses.{
  parse_data_source, parse_select_fields, parse_group_by, parse_order_by,
}
use mirador_core.Uql.Parse.Conditions.{UqlValue, parse_condition, whole_condition}

abbrev pub least : Option ℕ → ℕ → ℕ
least none best = best
least (some i) best = if ltb i best then i else best

-- The position of a text at the end.
abbrev pub index_at_end : String → String → Option ℕ
index_at_end s t = if has_suffix s t then some (len s - len t) else none

-- The loop over the keywords in the upper case of the text.
unfoldable pub keywords_end : String → List String → ℕ → ℕ
unfolding index has_suffix
keywords_end upper [] best = best
keywords_end upper (k ∷ keywords) best =
    keywords_end upper keywords
      (least (index_at_end upper (" " +++ k)) (least (index upper (" " +++ (k +++ " "))) best))

-- A position that must be there.
abbrev pub required : String → Option ℕ → Outcome ℕ
required message none = failed message
required message (some i) = done i

module _ {F : Type 0} (lib : TextLibrary F) where
  unfoldable pub find_clause_end : String → ℕ → List String → ℕ
  unfolding keywords_end
  find_clause_end query start keywords =
      let rest = from query start in start + keywords_end (lib.to_upper rest) keywords (len rest)

  -- A clause that may be left out: what follows its keyword, up to the next one, is parsed where the
  -- keyword stands in the rest of the query. `strict` is the test for an empty clause.
  unfoldable pub parse_clause {ℓ} :
      {A : Type ℓ}
      → String
      → List String
      → Bool
      → (String → Outcome A)
      → A
      → String
      → Outcome (A × String)
  unfolding find_clause_end index
  parse_clause word enders strict parse default remaining =
      let keyword = " " +++ (word +++ " ") in
      elim (index (lib.to_upper remaining) keyword) [
        | none ↦ done (default, remaining)
        | some i ↦ do
          let end = find_clause_end remaining (i + len keyword) enders
          let text = lib.trim (slice remaining (i + len keyword) end)
          reject_if (strict && ltb (len remaining) (i + len keyword))
              ("incomplete " +++ (word +++ " clause"))
          reject_if (strict && text == "") ("empty " +++ (word +++ " clause"))
          a ← wrap_error ("invalid " +++ (word +++ " clause: ")) (parse text)
          done (a, from remaining end)
      ]

  abbrev pub limit_value : String → Outcome ℤ
  limit_value text = elim (lib.atoi text) [
    | none ↦ failed ("invalid LIMIT value: " +++ lib.atoi_error text)
    | some n ↦ done n
  ]

  unfoldable pub parse_limit : String → Outcome (Option ℤ)
  unfolding index
  parse_limit remaining = elim (index (lib.to_upper remaining) " LIMIT ") [
    | none ↦ done none
    | some i ↦ do
      let text = lib.trim (from remaining (i + 7))
      reject_if (leb (len remaining) (i + 7)) "incomplete LIMIT clause"
      reject_if (text == "") "empty LIMIT clause"
      n ← limit_value text
      done (some n)
  ]

  abbrev pub is_keyword : String → Bool
  is_keyword s = s == "WHERE" || s == "GROUP" || s == "ORDER" || s == "LIMIT" || s == "HAVING"

  abbrev pub has_text : String → String → Bool
  unfolding index
  has_text s t = elim (index s t) [ none ↦ false | some _ ↦ true ]

  abbrev pub lacks_by : String → String → Bool
  lacks_by word upper = has_prefix upper word && not (has_text upper " BY ")

  -- Keywords without the rest of their clauses at the end of the query.
  unfoldable pub check_remaining : String → Outcome (Unit {0})
  unfolding has_prefix
  check_remaining remaining = do
    let text = lib.trim remaining
    let upper = lib.to_upper text
    reject_if (not (text == "") && is_keyword upper) ("incomplete " +++ (upper +++ " clause"))
    reject_if (not (text == "") && lacks_by "GROUP " upper) "incomplete GROUP BY clause"
    reject_if (not (text == "") && lacks_by "ORDER " upper) "incomplete ORDER BY clause"
    reject_if (not (text == "") && (has_prefix upper "HAVING " && lib.trim (from upper 7) == ""))
        "incomplete HAVING clause"

  unfoldable pub parse_select_query : String → Outcome (UqlQuery (UqlValue F))
  unfolding index parse_select_fields parse_data_source parse_clause parse_limit check_remaining
      parse_condition parse_group_by parse_order_by
  parse_select_query query = do
    let upper = lib.to_upper query
    select_at ← required "missing SELECT keyword" (index upper "SELECT ")
    from_at ← required "missing FROM keyword" (index upper " FROM ")
    reject_if (leb from_at (select_at + 7)) "missing fields in SELECT clause"
    fields ←
        wrap_error "invalid SELECT fields: "
          (parse_select_fields lib (lib.trim (slice query (select_at + 7) from_at)))
    let from_end =
        find_clause_end query (from_at + 6) ("WHERE" ∷ "GROUP" ∷ "ORDER" ∷ "LIMIT" ∷ "HAVING" ∷ [])
    source ←
        wrap_error "invalid FROM clause: "
          (parse_data_source lib (lib.trim (slice query (from_at + 6) from_end)))
    filtered ←
        parse_clause "WHERE" ("GROUP" ∷ "ORDER" ∷ "LIMIT" ∷ "HAVING" ∷ []) true
          (whole_condition lib) no_condition (from query from_end)
    grouped ←
        parse_clause "GROUP BY" ("ORDER" ∷ "LIMIT" ∷ "HAVING" ∷ []) true
          (λ s. done (parse_group_by lib s)) [] filtered.1
    had ←
        parse_clause "HAVING" ("ORDER" ∷ "LIMIT" ∷ []) false (whole_condition lib) no_condition
          grouped.1
    ordered ←
        parse_clause "ORDER BY" ("LIMIT" ∷ []) true (λ s. done (parse_order_by lib s)) [] had.1
    limit ← parse_limit ordered.1
    check_remaining ordered.1
    done (record {
      query_type = type_select;
      raw_query = query;
      select = some (record {
        fields = fields;
        data_source = source;
        filter = filtered.0;
        group_by = grouped.0;
        having = had.0;
      });
      correlation = none;
      aggregation = none;
      join = none;
      window = none;
      limit = limit;
      order_by = ordered.0;
    })
