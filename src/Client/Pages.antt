-- ===== src/Client/Pages.antt =====
-- The pages that `_get_all_pages` of validator/rancher_client.py collects.
use kubetee_subnet.Base.{
  ℕ, zero, suc, ◌≤◌, ◌≡◌, refl, Option, none, some, List, [], ◌∷◌, ◌++◌, length, String, Result, ok,
  err, arith, ◌∙◌, sym, ap,
}
use mathlib.Core.Option.{some-injective}
use mathlib.Core.List.{append_assoc, append-nil}
use kubetee_subnet.Dict.{Dict}
use kubetee_subnet.Float.{Float}
use kubetee_subnet.Json.{Fields}
use kubetee_subnet.Client.{PageError, page_params, page_of, get_all_pages, after_page}

-- All the pages, in their order.
abbrev pub concat : {A : Type 0} → List (List A) → List A
concat [] = []
concat (xs ∷ xss) = xs ++ concat xss

module _ {F : Type 0} ⦃f : Float F⦄ (fetch : Dict String String → Result PageError (Fields F))
    (params : Dict String String) where
  -- From a marker on the server has these pages, the last one without a marker.
  pub data Serves : Option String → List (List (Fields F)) → Type 0 where
    last :
        {marker : Option String} (page : List (Fields F))
        → page_of (fetch (page_params params marker)) ≡ ok (page, none)
        → Serves marker (page ∷ [])
    more :
        {marker : Option String} {pages : List (List (Fields F))} (page : List (Fields F))
        (next : String)
        → page_of (fetch (page_params params marker)) ≡ ok (page, some next)
        → Serves (some next) pages
        → Serves marker (page ∷ pages)

  step :
      (fuel : ℕ) (marker : Option String) (items : List (Fields F))
      (r : Result PageError (List (Fields F) × Option String))
      → page_of (fetch (page_params params marker)) ≡ r
      → get_all_pages fetch params (suc fuel) marker items
        ≡ after_page items (λ m xs. get_all_pages fetch params fuel (some m) xs) r
  unfolding get_all_pages
  step fuel marker items r e =
      ap (after_page items (λ m xs. get_all_pages fetch params fuel (some m) xs)) e

  -- If the server has finitely many pages from a marker on, then with as many requests as there are
  -- pages, or more, the loop returns what it started with and all their items, in order.
  pub get_all_pages-Serves :
      (fuel : ℕ) (marker : Option String) (items : List (Fields F)) (pages : List (List (Fields F)))
      → Serves marker pages
      → length pages ≤ fuel
      → get_all_pages fetch params fuel marker items ≡ some (ok (items ++ concat pages))
  get_all_pages-Serves zero marker items pages (last page e) h = absurd (omega arith)
  get_all_pages-Serves zero marker items pages (more page next e s) h = absurd (omega arith)
  get_all_pages-Serves (suc fuel) marker items pages (last page e) h =
      step fuel marker items _ e ∙ rw append-nil
  get_all_pages-Serves (suc fuel) marker items pages (more {pages = pages'} page next e s) h =
      step fuel marker items _ e
      ∙ get_all_pages-Serves fuel (some next) (items ++ page) pages' s (omega arith)
      ∙ ap (λ xs. some (ok xs)) (append_assoc items page (concat pages'))

  -- The pages that make up what was found.
  abbrev pub IsWhole : Option String → List (Fields F) → List (Fields F) → Type 0
  IsWhole marker items found =
      (pages : List (List (Fields F))) × Serves marker pages × (found ≡ items ++ concat pages)

  after_page-IsWhole :
      (next : String → List (Fields F) → Option (Result PageError (List (Fields F))))
      (marker : Option String) (items found : List (Fields F))
      (r : Result PageError (List (Fields F) × Option String))
      → ((m : String) (xs : List (Fields F))
          → next m xs ≡ some (ok found)
          → IsWhole (some m) xs found)
      → page_of (fetch (page_params params marker)) ≡ r
      → after_page items next r ≡ some (ok found)
      → IsWhole marker items found
  after_page-IsWhole next marker items found (err x) ih e h = cc (some-injective _ _ h)
  after_page-IsWhole next marker items found (ok (page, none)) ih e h = (
    page ∷ [],
    last page e,
    (let same : items ++ page ≡ found = cc h in sym same ∙ rw append-nil),
  )
  after_page-IsWhole next marker items found (ok (page, some m)) ih e h =
      let (pages, s, q) = ih m (items ++ page) h in
      (page ∷ pages, more page m e s, q ∙ append_assoc items page (concat pages))

  -- The loop returns items only where the server's pages from the marker on come to an end, and then
  -- it returns what it started with and the items of every page there is, in order.
  pub get_all_pages-IsWhole :
      (fuel : ℕ) (marker : Option String) (items found : List (Fields F))
      → get_all_pages fetch params fuel marker items ≡ some (ok found)
      → IsWhole marker items found
  unfolding get_all_pages
  get_all_pages-IsWhole zero marker items found h = cc h
  get_all_pages-IsWhole (suc fuel) marker items found h =
      after_page-IsWhole (λ m xs. get_all_pages fetch params fuel (some m) xs) marker items found
        (page_of (fetch (page_params params marker)))
        (λ m xs. get_all_pages-IsWhole fuel (some m) xs found) refl h
