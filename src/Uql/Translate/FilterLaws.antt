-- ===== src/Uql/Translate/FilterLaws.antt =====
-- The filters that conditions become, against the list of their parts.
use Prim.Native.String.{◌++◌ as ◌+++◌}
use mathlib.Core.List.{append-nil, append_assoc as list_assoc}
use text.Mathlib.TextLemmas.{append_assoc, cons-append, cons≢nil}
use mirador_core.Prelude.{
  ◌≡◌, refl, sym, ap, ◌∙◌, false, Option, List, [], ◌∷◌, ◌++◌, String, ◌==◌, string_keys, All,
  Bool-cases, inl, inr,
}
use mirador_core.Uql.Syntax.{UqlCondition, no_condition, condition, UqlOperator}
use mirador_core.Uql.Text.{Formats, join_texts}
use mirador_core.Uql.Translate.Defs.{kept_text}
use mirador_core.Uql.Translate.Filters.{
  main_text, build_single_label_selector, build_label_selectors, build_logs_filter,
  build_single_logs_filter, build_tag_filters, build_single_tag_filter, parenthesized,
}

abbrev IsText : String → Type 0
IsText t = (t == "") ≡ false

append-IsText : (t u : String) → IsText t → IsText (t +++ u)
append-IsText String.[] u h = cc h
append-IsText (String.◌∷◌ c s) u h = elim (Bool-cases (String.◌∷◌ c s +++ u == "")) [
  | inl e ↦ elim (cons≢nil (sym (cons-append c s u) ∙ (string_keys.same_iff _ "").0 e)) [ ]
  | inr e ↦ e
]

join-append :
    (sep x y : String) (xs ys : List String)
    → join_texts sep ((x ∷ xs) ++ (y ∷ ys))
      ≡ join_texts sep (x ∷ xs) +++ (sep +++ join_texts sep (y ∷ ys))
unfolding join_texts
join-append sep x y [] ys = refl
join-append sep x y (z ∷ xs) ys =
    ap (λ t. x +++ (sep +++ t)) (join-append sep z y xs ys)
    ∙ sym (
        append_assoc x (sep +++ join_texts sep (z ∷ xs)) (sep +++ join_texts sep (y ∷ ys))
        ∙ ap (λ t. x +++ t)
            (append_assoc sep (join_texts sep (z ∷ xs)) (sep +++ join_texts sep (y ∷ ys))))

join-IsText : (sep t : String) (ts : List String) → IsText t → IsText (join_texts sep (t ∷ ts))
unfolding join_texts
join-IsText sep t [] h = h
join-IsText sep t (u ∷ ts) h = append-IsText t _ h

-- The same text after the same parts.
join-congruence :
    (sep u v : String) (xs us vs : List String)
    → join_texts sep (u ∷ us) ≡ join_texts sep (v ∷ vs)
    → join_texts sep (xs ++ u ∷ us) ≡ join_texts sep (xs ++ v ∷ vs)
join-congruence sep u v [] us vs h = h
join-congruence sep u v (x ∷ xs) us vs h =
    join-append sep x u xs us
    ∙ ap (λ t. join_texts sep (x ∷ xs) +++ (sep +++ t)) h
    ∙ sym (join-append sep x v xs vs)

-- Parts that were joined among themselves before count as those parts.
join-kept :
    (sep : String) (xs ys zs : List String)
    → All IsText ys
    → join_texts sep (xs ++ (kept_text (join_texts sep ys) ++ zs))
      ≡ join_texts sep (xs ++ (ys ++ zs))
unfolding join_texts
join-kept sep xs [] zs all = refl
join-kept sep xs (y ∷ ys) zs all =
    rw (join-IsText sep y ys all.0)
      (join-congruence sep (join_texts sep (y ∷ ys)) y xs zs (ys ++ zs) (joined zs))
  where
    joined :
        (ws : List String)
        → join_texts sep (join_texts sep (y ∷ ys) ∷ ws) ≡ join_texts sep (y ∷ (ys ++ ws))
    joined [] = ap (λ l. join_texts sep (y ∷ l)) (sym (append-nil ys))
    joined (w ∷ ws) = sym (join-append sep y w ys ws)

join-kept_two :
    (sep : String) (xs ys zs : List String)
    → All IsText ys
    → All IsText zs
    → join_texts sep (xs ++ (kept_text (join_texts sep ys) ++ kept_text (join_texts sep zs)))
      ≡ join_texts sep (xs ++ (ys ++ zs))
join-kept_two sep xs ys zs hy hz =
    join-kept sep xs ys (kept_text (join_texts sep zs)) hy
    ∙ ap (join_texts sep) (
        sym (list_assoc xs ys (kept_text (join_texts sep zs)))
        ∙ ap (λ l. (xs ++ ys) ++ l) (sym (append-nil (kept_text (join_texts sep zs)))))
    ∙ join-kept sep (xs ++ ys) zs [] hz
    ∙ ap (join_texts sep) (ap (λ l. (xs ++ ys) ++ l) (append-nil zs) ∙ list_assoc xs ys zs)

kept-All : (t : String) → All IsText (kept_text t)
kept-All t = elim (Bool-cases (t == "")) [ inl e ↦ rw e tt | inr e ↦ rw e (e, tt) ]

append-All : (xs ys : List String) → All IsText xs → All IsText ys → All IsText (xs ++ ys)
append-All [] ys hx hy = hy
append-All (x ∷ xs) ys hx hy = (hx.0, append-All xs ys hx.1 hy)

module _ {V : Type 0} (f : Formats V) (as_text : V → Option String) where
  main-All : (field t : String) → All IsText (main_text f as_text field t)
  main-All field t = elim (Bool-cases (field == "")) [ inl e ↦ rw e tt | inr e ↦ rw e (kept-All t) ]

  -- The selectors of the conditions that are joined by AND, in their order.
  abbrev pub selectors : UqlCondition V → List String
  selectors no_condition = []
  selectors (condition field op value and or) =
      main_text f as_text field (build_single_label_selector f as_text field op value)
      ++ selectors and

  -- The tag filters of all the conditions, in the order AND before OR.
  abbrev pub tag_filters : UqlCondition V → List String
  tag_filters no_condition = []
  tag_filters (condition field op value and or) =
      main_text f as_text field (build_single_tag_filter f as_text field op value)
      ++ (tag_filters and ++ tag_filters or)

  selectors-All : (c : UqlCondition V) → All IsText (selectors c)
  selectors-All no_condition = tt
  selectors-All (condition field op value and or) =
      append-All (main_text f as_text field _) (selectors and) (main-All field _)
        (selectors-All and)

  tag_filters-All : (c : UqlCondition V) → All IsText (tag_filters c)
  tag_filters-All no_condition = tt
  tag_filters-All (condition field op value and or) =
      append-All (main_text f as_text field _) (tag_filters and ++ tag_filters or)
        (main-All field _)
        (append-All (tag_filters and) (tag_filters or) (tag_filters-All and) (tag_filters-All or))

  -- The label selectors of PromQL are the selectors of the conditions that AND joins to the first, each
  -- that has one, separated by commas. What OR joins is left out.
  pub build_label_selectors_lem :
      (c : UqlCondition V) → build_label_selectors f as_text c ≡ join_texts "," (selectors c)
  unfolding build_label_selectors join_texts
  build_label_selectors_lem no_condition = refl
  build_label_selectors_lem (condition field op value and or) =
      let main = main_text f as_text field (build_single_label_selector f as_text field op value) in
      ap (λ t. join_texts "," (main ++ kept_text t)) (build_label_selectors_lem and)
      ∙ ap (λ l. join_texts "," (main ++ l))
          (sym (append-nil (kept_text (join_texts "," (selectors and)))))
      ∙ join-kept "," main (selectors and) [] (selectors-All and)
      ∙ ap (λ l. join_texts "," (main ++ l)) (append-nil (selectors and))

  -- The tag filters of a traces query are the filters of all the conditions, each that has one, joined
  -- by &&, whether AND or OR joins them in the query.
  pub build_tag_filters_lem :
      (c : UqlCondition V) → build_tag_filters f as_text c ≡ join_texts " && " (tag_filters c)
  unfolding build_tag_filters join_texts
  build_tag_filters_lem no_condition = refl
  build_tag_filters_lem (condition field op value and or) =
      let main = main_text f as_text field (build_single_tag_filter f as_text field op value) in
      ap
        (λ t.
          join_texts " && " (main ++ (kept_text t ++ kept_text (build_tag_filters f as_text or))))
        (build_tag_filters_lem and)
      ∙ ap
          (λ t.
            join_texts " && "
              (main ++ (kept_text (join_texts " && " (tag_filters and)) ++ kept_text t)))
          (build_tag_filters_lem or)
      ∙ join-kept_two " && " main (tag_filters and) (tag_filters or) (tag_filters-All and)
          (tag_filters-All or)

  -- The filters of logs and of traces are the same for a condition that OR joins to another as for one
  -- that AND joins to it.
  pub or_as_and :
      (field : String) (op : UqlOperator) (value : V) (c : UqlCondition V)
      → (build_logs_filter f as_text (condition field op value no_condition c)
          ≡ build_logs_filter f as_text (condition field op value c no_condition))
        × (build_tag_filters f as_text (condition field op value no_condition c)
            ≡ build_tag_filters f as_text (condition field op value c no_condition))
  unfolding build_logs_filter build_tag_filters
  or_as_and field op value c = (
    ap
        (λ l.
          join_texts " AND "
            (main_text f as_text field (build_single_logs_filter f as_text field op value) ++ l))
        (sym (append-nil (parenthesized f as_text (build_logs_filter f as_text c)))),
    ap
        (λ l.
          join_texts " && "
            (main_text f as_text field (build_single_tag_filter f as_text field op value) ++ l))
        (sym (append-nil (kept_text (build_tag_filters f as_text c)))),
  )
