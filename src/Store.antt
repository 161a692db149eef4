-- ===== src/Store.antt =====
-- The MongoDB collections that packages/shared/src/db/models declares, as lists of documents. What
-- mongoose and the database do is a parameter, `Collection`: which of several matching documents an
-- operation without a sort finds, and in which order `find` lists them, is the database's choice.
-- Each operation is atomic, as a single-document operation of MongoDB is.
pub mod Among
pub mod Counts
pub mod Laws
pub mod Upserts
pub mod Repeats
pub mod Elsewhere
use cloudops_sentinel.Base.{
  ℕ, ◌≡◌, Bool, true, false, Option, none, some, List, [], ◌∷◌, ◌++◌, Memᴰ, map, All, length, count,
  if◌then◌else◌,
}

-- A found document, with those before and after it in the collection.
abbrev pub Found : Type 0 → Type 0
Found A = Option (List A × A × List A)

pub record Collection (A : Type 0) : Type 0 where
  pub find_one : (A → Bool) → List A → Found A
  pub find : (A → Bool) → List A → List A
  -- `findOne` finds a document that matches, if there is one.
  pub found :
      (p : A → Bool) (docs pre : List A) (x : A) (post : List A)
      → find_one p docs ≡ some (pre, x, post)
      → (docs ≡ pre ++ x ∷ post) × (p x ≡ true)
  pub missed : (p : A → Bool) (docs : List A) → find_one p docs ≡ none → All (λ x. p x ≡ false) docs
  -- `find` lists the documents that match, each once.
  pub find_sound :
      (p : A → Bool) (docs : List A) (x : A) → Memᴰ x (find p docs) → Memᴰ x docs × (p x ≡ true)
  pub find_complete :
      (p : A → Bool) (docs : List A) (x : A) → Memᴰ x docs → p x ≡ true → Memᴰ x (find p docs)
  pub length-find : (p : A → Bool) (docs : List A) → length (find p docs) ≡ count p docs

module _ {A : Type 0} where
  abbrev pub the_doc : Found A → Option A
  the_doc none = none
  the_doc (some (pre, x, post)) = some x

  abbrev updated : (A → A) → List A → Found A → List A × Option A
  updated f docs none = (docs, none)
  updated f docs (some (pre, x, post)) = (pre ++ f x ∷ post, some (f x))

  abbrev pub upserted : A → (A → A) → List A → Found A → List A × A
  upserted fresh f docs none = (docs ++ fresh ∷ [], fresh)
  upserted fresh f docs (some (pre, x, post)) = (pre ++ f x ∷ post, f x)

  -- `updateMany`: the new collection, and how many documents matched.
  unfoldable pub update_many : (A → Bool) → (A → A) → List A → List A × ℕ
  update_many p f docs = (map (λ x. if p x then f x else x) docs, count p docs)

module _ {A : Type 0} (c : Collection A) where
  unfoldable pub find_one : (A → Bool) → List A → Option A
  find_one p docs = the_doc (c.find_one p docs)

  -- `findOneAndUpdate` with `{ new: true }`: the new collection, and the document as it is now.
  unfoldable pub find_one_and_update : (A → Bool) → (A → A) → List A → List A × Option A
  find_one_and_update p f docs = updated f docs (c.find_one p docs)

  -- The same with `upsert: true`; `fresh` is the document that is inserted if none matches.
  unfoldable pub upsert : (A → Bool) → A → (A → A) → List A → List A × A
  upsert p fresh f docs = upserted fresh f docs (c.find_one p docs)
