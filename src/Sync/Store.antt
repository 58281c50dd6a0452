-- ===== src/Sync/Store.antt =====
-- `CreateOrUpdateKPI` (internal/weavstore/kpi_store.go) for the KPIs that the worker converts, over
-- the objects that Weaviate holds. The fields that the worker leaves unset are left out, as for
-- a store that the worker alone fills. The
-- comparisons of queries (`reflect.DeepEqual`) and of thresholds are parameters.
use mirador_core.Prelude.{
  ◌≡◌, refl, Bool, true, false, ◌&&◌, Option, none, some, String, arith, if◌then◌else◌, ◌==◌,
  string_keys, int_keys, ◌⊎◌, inl, inr,
}
use mirador_core.Sync.Defs.{IndexedKpi, KpiStore, id_of}
use mirador_core.Sync.Fields.{same_columns, same_columns_lem, both, same_text}

pub record Comparison (Query Thresholds : Type 0) : Type 0 where
  pub same_query : Option Query → Option Query → Bool
  pub same_thresholds : Option Thresholds → Option Thresholds → Bool

-- The objects of Weaviate by the identifiers of their KPIs. `put` creates one, or updates the one that
-- is there, as the creation does that meets one. A write that reports no error reads back.
pub record Weaviate (E S W : Type 0) (id_of : W → String) : Type 0 where
  pub find : S → String → E ⊎ Option W
  pub put : S → W → S × Option E
  pub find-put :
      (s : S) (w : W) (id : String)
      → (put s w).1 ≡ none
      → find (put s w).0 id ≡ (if id_of w == id then inr (some w) else find s id)

module _ {Query Thresholds : Type 0} (same : Comparison Query Thresholds) where
  unfoldable pub kpi_equal : IndexedKpi Query Thresholds → IndexedKpi Query Thresholds → Bool
  unfolding same_columns
  kpi_equal a b =
      same_columns a.copied b.copied
      && a.source == b.source
      && same.same_query a.query b.query
      && same.same_thresholds a.thresholds b.thresholds

  module _ {E S : Type 0} (empty_id : E)
      (client : Weaviate E S (IndexedKpi Query Thresholds) id_of) where
    -- What follows the search for the KPI.
    abbrev pub write_unless_equal :
        S → IndexedKpi Query Thresholds → E ⊎ Option (IndexedKpi Query Thresholds) → S × Option E
    write_unless_equal s k (inl err) = (s, some err)
    write_unless_equal s k (inr none) = client.put s k
    write_unless_equal s k (inr (some existing)) =
        if kpi_equal existing k then (s, none) else client.put s k

    unfoldable pub create_or_update_kpi : S → IndexedKpi Query Thresholds → S × Option E
    unfolding kpi_equal
    create_or_update_kpi s k =
        if k.copied.id == ""
        then (s, some empty_id)
        else write_unless_equal s k (client.find s k.copied.id)

    abbrev pub weaviate_kpi_store : KpiStore E S (IndexedKpi Query Thresholds)
    weaviate_kpi_store = record { create_or_update = create_or_update_kpi }

    -- Equal in every field but the two times, as far as the comparisons of the query and the thresholds
    -- tell.
    pub record IsAlike (a b : IndexedKpi Query Thresholds) : Type 0 where
      pub columns :
          record a.copied { created_at = b.copied.created_at; updated_at = b.copied.updated_at }
          ≡ b.copied
      pub source : a.source ≡ b.source
      pub query : same.same_query a.query b.query ≡ true
      pub thresholds : same.same_thresholds a.thresholds b.thresholds ≡ true

    kpi_equal-IsAlike : (a b : IndexedKpi Query Thresholds) → kpi_equal a b ≡ true → IsAlike a b
    unfolding kpi_equal
    kpi_equal-IsAlike a b h =
        let (h3, thresholds) = both h in
        let (h2, query) = both h3 in
        let (columns, source) = both h2 in
        record {
          columns = same_columns_lem a.copied b.copied columns;
          source = same_text a.source b.source source;
          query = query;
          thresholds = thresholds;
        }

    -- The KPI that is found is the one given, or one that is alike.
    abbrev pub IsHeld :
        IndexedKpi Query Thresholds → E ⊎ Option (IndexedKpi Query Thresholds) → Type 0
    IsHeld k found =
        (stored : IndexedKpi Query Thresholds) × (found ≡ inr (some stored))
        × ((stored ≡ k) ⊎ IsAlike stored k)

    -- The store afterwards: the KPI is held, and every other one is as it was.
    abbrev pub Holds : S → IndexedKpi Query Thresholds → S → Type 0
    Holds s k after =
        IsHeld k (client.find after k.copied.id)
        × ((id : String) → (k.copied.id == id) ≡ false → client.find after id ≡ client.find s id)

    put-Holds :
        (s : S) (k : IndexedKpi Query Thresholds)
        → (client.put s k).1 ≡ none
        → Holds s k (client.put s k).0
    put-Holds s k done = (
      (
        k,
        ground (
          arith,
          client.find-put s k k.copied.id done,
          string_keys.same_iff k.copied.id k.copied.id,
        ),
        inl refl,
      ),
      λ id other. ground (arith, client.find-put s k id done),
    )

    written-Holds :
        (s : S) (k : IndexedKpi Query Thresholds) (found : E ⊎ Option (IndexedKpi Query Thresholds))
        → client.find s k.copied.id ≡ found
        → (write_unless_equal s k found).1 ≡ none
        → Holds s k (write_unless_equal s k found).0
    written-Holds s k (inl err) e done = absurd cc
    written-Holds s k (inr none) e done = put-Holds s k done
    written-Holds s k (inr (some existing)) e done = unless_equal (kpi_equal existing k) refl done
      where
        unless_equal :
            (b : Bool)
            → kpi_equal existing k ≡ b
            → (if b then (s, none) else client.put s k).1 ≡ none
            → Holds s k (if b then (s, none) else client.put s k).0
        unless_equal true alike h =
            ((existing, e, inr (kpi_equal-IsAlike existing k alike)), λ id other. refl)
        unless_equal false differs h = put-Holds s k h

    pub create_or_update_kpi-Holds :
        (s : S) (k : IndexedKpi Query Thresholds)
        → (create_or_update_kpi s k).1 ≡ none
        → Holds s k (create_or_update_kpi s k).0
    unfolding create_or_update_kpi
    create_or_update_kpi-Holds s k = by_id (k.copied.id == "")
      where
        by_id :
            (b : Bool)
            → (if b
                then (s, some empty_id)
                else write_unless_equal s k (client.find s k.copied.id)).1
              ≡ none
            → Holds s k
                (if b
                  then (s, some empty_id)
                  else write_unless_equal s k (client.find s k.copied.id)).0
        by_id true h = absurd cc
        by_id false h = written-Holds s k (client.find s k.copied.id) refl h
