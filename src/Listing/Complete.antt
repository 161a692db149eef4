-- ===== src/Listing/Complete.antt =====
-- The pages of a listing against the set of the documents that match its filter.
use cloudops_sentinel.Base.{
  min, ℕ, zero, suc, ◌-◌, ◌*◌, ◌≤◌, ◌≡◌, refl, sym, ap, subst, ◌∙◌, ◌↔◌, ◌⊎◌, inl, inr, Bool, true,
  List, [], ◌∷◌, ◌++◌, Memᴰ, arith, length, count, take, drop,
}
use cloudops_sentinel.Listing.{SortedFind, page_of, listing}
use cloudops_sentinel.Listing.Pages.{first_pages, first_pages_lem}

mem-take : {A : Type 0} {x : A} (n : ℕ) (xs : List A) → Memᴰ x (take n xs) → Memᴰ x xs
mem-take zero xs m = elim m [ ]
mem-take (suc n) [] m = elim m [ ]
mem-take (suc n) (y ∷ ys) (Memᴰ.head e) = Memᴰ.head e
mem-take (suc n) (y ∷ ys) (Memᴰ.tail m) = Memᴰ.tail (mem-take n ys m)

mem-drop : {A : Type 0} {x : A} (n : ℕ) (xs : List A) → Memᴰ x (drop n xs) → Memᴰ x xs
mem-drop zero xs m = m
mem-drop (suc n) [] m = m
mem-drop (suc n) (y ∷ ys) m = Memᴰ.tail (mem-drop n ys m)

length-drop : {A : Type 0} (n : ℕ) (xs : List A) → length (drop n xs) ≡ length xs - n
length-drop zero xs = omega arith
length-drop (suc n) [] = omega arith
length-drop (suc n) (x ∷ xs) = omega (arith, length-drop n xs)

length-take : {A : Type 0} (n : ℕ) (xs : List A) → length (take n xs) ≡ min n (length xs)
length-take zero xs = omega arith
length-take (suc n) [] = omega arith
length-take (suc n) (x ∷ xs) = omega (arith, length-take n xs)

mem-append_cases : {A : Type 0} {x : A} (xs ys : List A) → Memᴰ x (xs ++ ys) → Memᴰ x xs ⊎ Memᴰ x ys
mem-append_cases [] ys m = inr m
mem-append_cases (z ∷ zs) ys (Memᴰ.head e) = inl (Memᴰ.head e)
mem-append_cases (z ∷ zs) ys (Memᴰ.tail m) = elim (mem-append_cases zs ys m) [
  | inl h ↦ inl (Memᴰ.tail h)
  | inr h ↦ inr h
]

-- An item of the first pages is on one of them.
mem-first_pages :
    {A : Type 0} {x : A} (n limit : ℕ) (xs : List A)
    → Memᴰ x (first_pages n limit xs)
    → (page : ℕ) × (1 ≤ page) × Memᴰ x (page_of page limit xs)
mem-first_pages zero limit xs m = elim m [ ]
mem-first_pages (suc n) limit xs m =
    elim (mem-append_cases (first_pages n limit xs) (page_of (suc n) limit xs) m) [
      | inl earlier ↦ mem-first_pages n limit xs earlier
      | inr last ↦ (suc n, omega arith, last)
    ]

le_times : (n limit : ℕ) → 1 ≤ limit → n ≤ n * limit
le_times n limit h = grind arith

module _ {A : Type 0} (sorted : SortedFind A) (matches : A → Bool) (docs : List A) (limit : ℕ) where
  pub listing_sound :
      (page : ℕ) (x : A)
      → Memᴰ x (listing sorted matches page limit docs).items
      → Memᴰ x docs × (matches x ≡ true)
  unfolding listing page_of
  listing_sound page x m =
      sorted.sorted_sound page matches docs x (mem-drop _ _ (mem-take limit _ m))

  pub page_length :
      (page : ℕ)
      → length (page_of page limit (sorted.find_sorted page matches docs))
        ≡ min limit (count matches docs - (page - 1) * limit)
  unfolding page_of
  page_length page =
      length-take limit (drop ((page - 1) * limit) (sorted.find_sorted page matches docs))
      ∙ ap (λ n. min limit n)
          (length-drop ((page - 1) * limit) (sorted.find_sorted page matches docs)
            ∙ ap (λ n. n - (page - 1) * limit) (sorted.length-find_sorted page matches docs))

  -- Where the queries of all pages list the matching documents in one order, as they do when no two
  -- of them have the same keys of the sort, a listing taken over all of its pages is the set of the
  -- documents that match its filter: with a limit of at least one, a document is on one of the pages
  -- exactly when it is stored and matches. A page tells the number of those documents, and is as long as what is left behind the
  -- pages before it, up to the limit.
  pub listing_lem :
      1 ≤ limit
      → ((page other : ℕ)
          → sorted.find_sorted page matches docs ≡ sorted.find_sorted other matches docs)
      → ((x : A)
          → ((page : ℕ) × (1 ≤ page) × Memᴰ x (listing sorted matches page limit docs).items)
            ↔ (Memᴰ x docs × (matches x ≡ true)))
        × ((page : ℕ)
            → (length (listing sorted matches page limit docs).items
                ≡ min limit (count matches docs - (page - 1) * limit))
              × ((listing sorted matches page limit docs).total ≡ count matches docs))
  unfolding listing
  listing_lem h alike = (
    λ x. (
      λ on_page. listing_sound on_page.0 x on_page.2,
      λ stored.
          let all = sorted.find_sorted 1 matches docs in
          let m : Memᴰ x all = sorted.sorted_complete 1 matches docs x stored.0 stored.1 in
          let (page, first, on_page) = mem-first_pages (length all) limit all (
            subst (λ l. Memᴰ x l)
              (sym ((first_pages_lem (length all) limit all).2 (le_times (length all) limit h)))
              m) in
          (page, first, subst (λ l. Memᴰ x (page_of page limit l)) (alike 1 page) on_page),
    ),
    λ page. (page_length page, refl),
  )
