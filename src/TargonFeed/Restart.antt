-- ===== src/TargonFeed/Restart.antt =====
-- What validator/targon_payout_feed.py reads back from the cache that it wrote for a live snapshot.
use mathlib.Core.List.{append_assoc, append-nil}
use mathlib.Core.Path.{subst}
use kubetee_subnet.Base.{
  ◌≡◌, refl, ap, ◌∙◌, inl, inr, true, false, Option, none, some, List, [], ◌∷◌, ◌++◌, String,
  string_eq, ◌==◌, Bool-cases, Option-cases, any, ok, All,
}
use kubetee_subnet.Text.{upper, has}
use kubetee_subnet.Dict.{Dict, lookup, insert, map_values}
use kubetee_subnet.Dict.Laws.{lookup-insert, insert-append}
use kubetee_subnet.Float.{Float, le, lt, ◌≺◌, of_ℕ}
use kubetee_subnet.Json.{
  Json, num, Fields, Items, or_json, get, get_default, entries, of_entries, as_obj, as_arr,
  elements, str, to_str,
}
use kubetee_subnet.GpuCard.{class_names, positive_prices}
use kubetee_subnet.Market.{class_in, CacheFile, or_none, load_cache, save_cache}
use kubetee_subnet.TargonSnapshot.{
  gpu_class_of, keep_highest, add_rate, add_compute, snapshot_from, per_class_from_snapshot, usable,
  of_compute, of_snapshot, parse_snapshot, get_in,
}
use kubetee_subnet.TargonFeed.{TargonPayoutFeed, resolve_per_card_usd}
use kubetee_subnet.TargonFeed.Sources.{AllPositive}

abbrev pub IsCapital : Option String → Type 0
IsCapital none = Unit
IsCapital (some k) = upper k ≡ k

class_in-IsCapital :
    (classes : List String) (text : String)
    → All (λ k. upper k ≡ k) classes
    → IsCapital (class_in classes text)
unfolding class_in
class_in-IsCapital [] text h = tt
class_in-IsCapital (k ∷ classes) text h = elim (Bool-cases (has text k)) [
  | inl e ↦ rw e h.0
  | inr e ↦ rw e (class_in-IsCapital classes text h.1)
]

gpu_class_of-IsCapital : (text : String) → IsCapital (gpu_class_of text)
unfolding gpu_class_of upper
gpu_class_of-IsCapital text =
    class_in-IsCapital class_names (upper text) (refl, (refl, (refl, (refl, (refl, tt)))))

module _ {F : Type 0} ⦃f : Float F⦄ where
  -- Keys in upper case that are all different, and none of `seen`.
  abbrev pub IsSaved : List String → Dict String F → Type 0
  IsSaved seen [] = Unit
  IsSaved seen ((k, v) ∷ d) =
      (upper k ≡ k) × (any (λ s. s == k) seen ≡ false) × IsSaved (k ∷ seen) d

  insert-IsSaved :
      (k : String) (v : F) (seen : List String) (d : Dict String F)
      → upper k ≡ k
      → any (λ s. s == k) seen ≡ false
      → IsSaved seen d
      → IsSaved seen (insert k v d)
  insert-IsSaved k v seen [] capital fresh h = (capital, fresh, tt)
  insert-IsSaved k v seen ((j, w) ∷ d) capital fresh h = elim (Bool-cases (j == k)) [
    | inl same ↦ rw same (h.0, h.1, h.2)
    | inr other ↦
        rw other (h.0, h.1, insert-IsSaved k v (j ∷ seen) d capital (rw (other, fresh) refl) h.2)
  ]

  positive_prices-step :
      (k : String) (v : F) (items : Dict String (Json F)) (acc : Dict String F)
      → upper k ≡ k
      → of_ℕ 0 ≺ v
      → positive_prices ((k, num v) ∷ items) acc ≡ positive_prices items (insert k v acc)
  unfolding positive_prices
  positive_prices-step k v items acc capital positive = rw (positive, capital) refl

  positive_prices-saved :
      (seen : List String) (d acc : Dict String F)
      → ((k : String) → any (λ s. s == k) seen ≡ false → lookup k acc ≡ none)
      → IsSaved seen d
      → AllPositive d
      → positive_prices (entries (of_entries (map_values num d))) acc ≡ acc ++ d
  unfolding positive_prices
  positive_prices-saved seen [] acc fresh h p = rw append-nil
  positive_prices-saved seen ((k, v) ∷ d) acc fresh h p =
      positive_prices-step k v (entries (of_entries (map_values num d))) acc h.0 p.0
      ∙ positive_prices-saved (k ∷ seen) d (insert k v acc)
          (λ j e. lookup-insert k j v acc ∙ elim (Bool-cases (k == j)) [
            | inl same ↦ cc (rw same at e)
            | inr other ↦ rw other (fresh j (rw other at e))
          ])
          h.2 p.1
      ∙ ap (λ t. t ++ d) (insert-append k v acc (fresh k h.1))
      ∙ append_assoc acc ((k, v) ∷ []) d

  abbrev pub IsSnapshot : Dict String F → Type 0
  IsSnapshot d = IsSaved [] d

  keep_highest-IsSnapshot :
      (klass : String) (o : Option F) (d : Dict String F)
      → upper klass ≡ klass
      → IsSnapshot d
      → IsSnapshot (keep_highest klass o d)
  keep_highest-IsSnapshot klass none d capital h = h
  keep_highest-IsSnapshot klass (some rate) d capital h = elim (Bool-cases (le rate (of_ℕ 0))) [
    | inl low ↦ rw low h
    | inr high ↦
        let kept = insert-IsSaved klass rate [] d capital refl h in
        elim (Option-cases (lookup klass d)) [
          | inl e ↦ rw (high, e) kept
          | inr (prev, e) ↦ elim (Bool-cases (lt prev rate)) [
            | inl more ↦ rw (high, e, more) kept
            | inr less ↦ rw (high, e, less) h
          ]
        ]
  ]

  add_rate-IsSnapshot :
      (row : Fields F) (o : Option String) (d : Dict String F)
      → IsCapital o
      → IsSnapshot d
      → IsSnapshot (add_rate row o d)
  add_rate-IsSnapshot row none d c h = h
  add_rate-IsSnapshot row (some klass) d c h = keep_highest-IsSnapshot klass _ d c h

  add_compute-IsSnapshot :
      (o : Option (Fields F)) (d : Dict String F) → IsSnapshot d → IsSnapshot (add_compute o d)
  add_compute-IsSnapshot none d h = h
  add_compute-IsSnapshot (some row) d h =
      elim (Bool-cases (to_str (get_default "kind" row (str "gpu")) == "gpu")) [
        | inl e ↦ rw e (
            add_rate-IsSnapshot row _ d
              (gpu_class_of-IsCapital (to_str (get_default "key" row (str "")))) h)
        | inr e ↦ rw e h
      ]

  snapshot_from-IsSnapshot :
      (rows : List (Json F)) (d : Dict String F) → IsSnapshot d → IsSnapshot (snapshot_from rows d)
  unfolding snapshot_from
  snapshot_from-IsSnapshot [] d h = h
  snapshot_from-IsSnapshot (row ∷ rows) d h =
      snapshot_from-IsSnapshot rows _ (add_compute-IsSnapshot (as_obj row) d h)

  usable-IsSnapshot :
      (d prices : Dict String F)
      → IsSnapshot d
      → usable d ≡ ok prices
      → IsSnapshot prices × (or_none prices ≡ some prices)
  usable-IsSnapshot [] prices h e = cc e
  usable-IsSnapshot (x ∷ d) prices h e =
      subst (λ t. IsSnapshot t × (or_none t ≡ some t)) {x = x ∷ d} (cc e) (h, refl)

  of_compute-IsSnapshot :
      (o : Option (Items F)) (prices : Dict String F)
      → of_compute o ≡ ok prices
      → IsSnapshot prices × (or_none prices ≡ some prices)
  unfolding per_class_from_snapshot
  of_compute-IsSnapshot none prices e = cc e
  of_compute-IsSnapshot (some rows) prices e =
      usable-IsSnapshot (snapshot_from (elements rows) []) prices
        (snapshot_from-IsSnapshot (elements rows) [] tt) e

  of_snapshot-IsSnapshot :
      (o : Option (Fields F)) (prices : Dict String F)
      → of_snapshot o ≡ ok prices
      → IsSnapshot prices × (or_none prices ≡ some prices)
  of_snapshot-IsSnapshot none prices e = cc e
  of_snapshot-IsSnapshot (some fs) prices e =
      of_compute-IsSnapshot (as_arr (get "compute" fs)) prices e

  -- The object in the envelope of a reply.
  abbrev pub snapshot_of : Json F → Option (Fields F)
  snapshot_of payload =
      let data' = or_json (get_in "data" (get_in "result" payload)) payload in
      as_obj (or_json (get_in "json" data') data')

  load_cache-save_cache :
      (prices : Dict String F) (disk : CacheFile F)
      → IsSnapshot prices
      → AllPositive prices
      → or_none prices ≡ some prices
      → load_cache (save_cache true prices disk) ≡ ok (some prices)
  unfolding load_cache save_cache
  load_cache-save_cache prices disk h p e =
      rw (positive_prices-saved [] prices [] (λ k t. refl) h p, e) refl

  -- Prices that were read from a live snapshot and written to the cache file, if all are above 0 (none is
  -- a NaN), are the ones that any later feed resolves to, from the cache, while the live feed is down.
  pub resolve_per_card_usd-save_cache :
      (feed : TargonPayoutFeed F) (payload : Json F) (prices : Dict String F) (disk : CacheFile F)
      (published : Option (Fields F))
      → parse_snapshot payload ≡ ok prices
      → AllPositive prices
      → resolve_per_card_usd feed none (save_cache true prices disk) published
        ≡ ok (prices, "cache")
  unfolding resolve_per_card_usd parse_snapshot
  resolve_per_card_usd-save_cache feed payload prices disk published e p =
      let (h, full) = of_snapshot-IsSnapshot (snapshot_of payload) prices e in
      rw (load_cache-save_cache prices disk h p full) refl
