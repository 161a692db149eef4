-- ===== src/Listing.antt =====
-- The sorted and paged listings of apps/api/src/services: job-service.ts, resource-service.ts and
-- query-service.ts. What the database does for `find(filter).sort(...)` is a parameter.
pub mod Pages
pub mod Complete
use cloudops_sentinel.Base.{
  ℕ, ◌-◌, ◌*◌, String, ◌≡◌, Bool, true, ◌||◌, Option, none, some, List, Memᴰ, ◌==◌, length, count,
  take, drop,
}

-- `find` with a sort lists the documents that match, each once. Documents that the keys of the sort
-- do not tell apart may come in another order in another query: a query has a number.
pub record SortedFind (A : Type 0) : Type 0 where
  pub find_sorted : (query : ℕ) → (A → Bool) → List A → List A
  pub sorted_sound :
      (query : ℕ) (p : A → Bool) (docs : List A) (x : A)
      → Memᴰ x (find_sorted query p docs)
      → Memᴰ x docs × (p x ≡ true)
  pub sorted_complete :
      (query : ℕ) (p : A → Bool) (docs : List A) (x : A)
      → Memᴰ x docs
      → p x ≡ true
      → Memᴰ x (find_sorted query p docs)
  pub length-find_sorted :
      (query : ℕ) (p : A → Bool) (docs : List A) → length (find_sorted query p docs) ≡ count p docs

pub record Page (A : Type 0) : Type 0 where
  pub items : List A
  pub page : ℕ
  pub limit : ℕ
  pub total : ℕ

-- `skip` and `limit` of a sorted listing.
unfoldable pub page_of : {A : Type 0} → (page limit : ℕ) → List A → List A
page_of page limit sorted = take limit (drop ((page - 1) * limit) sorted)

-- `if (value) filter.key = value`: a missing or an empty text asks for everything.
abbrev pub wants : Option String → String → Bool
wants none x = true
wants (some value) x = value == "" || x == value

-- The count, the page and the answer, as every listing of the services makes them. Each page is a
-- query of its own, which has the number of the page.
unfoldable pub listing :
    {A : Type 0} → SortedFind A → (A → Bool) → (page limit : ℕ) → List A → Page A
listing sorted matches page limit docs = record {
  items = page_of page limit (sorted.find_sorted page matches docs);
  page = page;
  limit = limit;
  total = count matches docs;
}
