-- ===== src/Listing/Pages.antt =====
-- The pages of a listing, put together.
use cloudops_sentinel.Base.{
  ℕ, zero, suc, ◌+◌, ◌-◌, ◌*◌, ◌≤◌, ◌≡◌, refl, sym, ap, ◌∙◌, List, [], ◌∷◌, ◌++◌, arith, length,
  take, drop,
}
use cloudops_sentinel.Listing.{page_of}

-- The first pages of a listing, one after the other.
abbrev pub first_pages : {A : Type 0} → (n limit : ℕ) → List A → List A
first_pages zero limit sorted = []
first_pages (suc n) limit sorted = first_pages n limit sorted ++ page_of (suc n) limit sorted

zero_add : (b : ℕ) → 0 + b ≡ b
zero_add b = omega arith

suc_add : (a b : ℕ) → suc a + b ≡ suc (a + b)
suc_add a b = omega arith

take-nil : {A : Type 0} (n : ℕ) → take {A = A} n [] ≡ []
take-nil zero = refl
take-nil (suc n) = refl

take-add : {A : Type 0} (a b : ℕ) (xs : List A) → take (a + b) xs ≡ take a xs ++ take b (drop a xs)
take-add zero b xs = ap (λ n. take n xs) (zero_add b)
take-add (suc a) b [] = ap (λ n. take n []) (suc_add a b) ∙ sym (take-nil b)
take-add (suc a) b (x ∷ xs) =
    ap (λ n. take n (x ∷ xs)) (suc_add a b) ∙ ap (λ l. x ∷ l) (take-add a b xs)

take-all : {A : Type 0} (n : ℕ) (xs : List A) → length xs ≤ n → take n xs ≡ xs
take-all zero [] h = refl
take-all (suc n) [] h = refl
take-all zero (x ∷ xs) h = absurd (omega (arith, h))
take-all (suc n) (x ∷ xs) h = ap (λ l. x ∷ l) (take-all n xs (omega (arith, h)))

length-take_le : {A : Type 0} (n : ℕ) (xs : List A) → length (take n xs) ≤ n
length-take_le zero xs = omega arith
length-take_le (suc n) [] = omega arith
length-take_le (suc n) (x ∷ xs) = omega (arith, length-take_le n xs)

zero_times : (limit : ℕ) → 0 ≡ 0 * limit
zero_times limit = omega arith

suc_pred : (n : ℕ) → suc n - 1 ≡ n
suc_pred n = omega arith

suc_times : (n limit : ℕ) → n * limit + limit ≡ suc n * limit
suc_times n limit = grind arith

first_pages-take :
    {A : Type 0} (n limit : ℕ) (xs : List A) → first_pages n limit xs ≡ take (n * limit) xs
unfolding page_of
first_pages-take zero limit xs = ap (λ m. take m xs) (zero_times limit)
first_pages-take (suc n) limit xs =
    ap (λ l. l ++ page_of (suc n) limit xs) (first_pages-take n limit xs)
    ∙ ap (λ m. take (n * limit) xs ++ take limit (drop (m * limit) xs)) (suc_pred n)
    ∙ sym (take-add (n * limit) limit xs)
    ∙ ap (λ m. take m xs) (suc_times n limit)

-- The pages of a listing, from the first to the n-th, are its first n times `limit` items in their
-- order: nothing is left out or listed twice, no page is longer than the limit, and together they
-- are the whole listing as soon as n times `limit` reaches its length.
pub first_pages_lem :
    {A : Type 0} (n limit : ℕ) (sorted : List A)
    → (first_pages n limit sorted ≡ take (n * limit) sorted)
      × ((page : ℕ) → length (page_of page limit sorted) ≤ limit)
      × (length sorted ≤ n * limit → first_pages n limit sorted ≡ sorted)
unfolding page_of
first_pages_lem n limit sorted = (
  first_pages-take n limit sorted,
  λ page. length-take_le limit (drop ((page - 1) * limit) sorted),
  λ h. first_pages-take n limit sorted ∙ take-all (n * limit) sorted h,
)
