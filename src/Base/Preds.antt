-- ===== src/Base/Preds.antt =====
-- Predicates that hold of every item of a list, and members by an untruncated family.
use mathlib.Core.Path.{◌≡◌, refl, sym, subst}
use mathlib.Core.Bool.{Bool, false}
use mathlib.Core.List.{List, [], ◌∷◌, ◌++◌, Memᴰ}
use native.Mathlib.Omega.{arith}
use cloudops_sentinel.Base.Lists.{any, count}

abbrev pub All {ℓ κ} : {A : Type ℓ} → (A → Type κ) → List A → Type κ
All P [] = Unit
All P (x ∷ xs) = P x × All P xs

module _ {ℓ κ} {A : Type ℓ} (P : A → Type κ) where
  pub All-append : (xs ys : List A) → All P xs → All P ys → All P (xs ++ ys)
  All-append [] ys hx hy = hy
  All-append (x ∷ xs) ys hx hy = (hx.0, All-append xs ys hx.1 hy)

  pub All-append_left : (xs ys : List A) → All P (xs ++ ys) → All P xs
  All-append_left [] ys h = tt
  All-append_left (x ∷ xs) ys h = (h.0, All-append_left xs ys h.1)

  pub All-append_right : (xs ys : List A) → All P (xs ++ ys) → All P ys
  All-append_right [] ys h = h
  All-append_right (x ∷ xs) ys h = All-append_right xs ys h.1

  pub All-mem : {x : A} (xs : List A) → All P xs → Memᴰ x xs → P x
  All-mem [] h m = elim m [ ]
  All-mem (y ∷ ys) h (Memᴰ.head e) = subst P (sym e) h.0
  All-mem (y ∷ ys) h (Memᴰ.tail m) = All-mem ys h.1 m

  pub All-of_mem : (xs : List A) → ((x : A) → Memᴰ x xs → P x) → All P xs
  All-of_mem [] f = tt
  All-of_mem (x ∷ xs) f = (f x (Memᴰ.head refl), All-of_mem xs (λ y m. f y (Memᴰ.tail m)))

pub All-mono {ℓ κ μ} :
    {A : Type ℓ} (P : A → Type κ) (Q : A → Type μ) (xs : List A)
    → ((x : A) → P x → Q x)
    → All P xs
    → All Q xs
All-mono P Q [] f h = tt
All-mono P Q (x ∷ xs) f h = (f x h.0, All-mono P Q xs f h.1)

module _ {ℓ} {A : Type ℓ} where
  pub mem-append_left : {x : A} (xs ys : List A) → Memᴰ x xs → Memᴰ x (xs ++ ys)
  mem-append_left [] ys m = elim m [ ]
  mem-append_left (y ∷ xs) ys (Memᴰ.head e) = Memᴰ.head e
  mem-append_left (y ∷ xs) ys (Memᴰ.tail m) = Memᴰ.tail (mem-append_left xs ys m)

  pub mem-append_right : {x : A} (xs ys : List A) → Memᴰ x ys → Memᴰ x (xs ++ ys)
  mem-append_right [] ys m = m
  mem-append_right (y ∷ xs) ys m = Memᴰ.tail (mem-append_right xs ys m)

  pub count-zero : (p : A → Bool) (xs : List A) → All (λ x. p x ≡ false) xs → count p xs ≡ 0
  count-zero p [] h = refl
  count-zero p (x ∷ xs) h = ground (arith, count-zero p xs h.1)

  pub any-none : (p : A → Bool) (xs : List A) → All (λ x. p x ≡ false) xs → any p xs ≡ false
  any-none p [] h = refl
  any-none p (x ∷ xs) h = ground (arith, any-none p xs h.1)

-- Two lists of one length whose items are related in turn.
abbrev pub All₂ {ℓ} : {A : Type ℓ} → (A → A → Type 0) → List A → List A → Type 0
All₂ R [] [] = Unit
All₂ R (x ∷ xs) (y ∷ ys) = R x y × All₂ R xs ys
All₂ R _ _ = ⊥

module _ {ℓ} {A : Type ℓ} (R : A → A → Type 0) where
  pub All₂-refl : ((x : A) → R x x) → (xs : List A) → All₂ R xs xs
  All₂-refl r [] = tt
  All₂-refl r (x ∷ xs) = (r x, All₂-refl r xs)

  pub All₂-append :
      (xs xs' ys ys' : List A) → All₂ R xs xs' → All₂ R ys ys' → All₂ R (xs ++ ys) (xs' ++ ys')
  All₂-append [] [] ys ys' h k = k
  All₂-append (x ∷ xs) (x' ∷ xs') ys ys' h k = (h.0, All₂-append xs xs' ys ys' h.1 k)
  All₂-append [] (_ ∷ _) ys ys' h k = elim h [ ]
  All₂-append (_ ∷ _) [] ys ys' h k = elim h [ ]

  pub All₂-trans :
      ((x y z : A) → R x y → R y z → R x z)
      → (xs ys zs : List A) → All₂ R xs ys
      → All₂ R ys zs
      → All₂ R xs zs
  All₂-trans t [] [] [] h k = tt
  All₂-trans t (x ∷ xs) (y ∷ ys) (z ∷ zs) h k = (t x y z h.0 k.0, All₂-trans t xs ys zs h.1 k.1)
  All₂-trans t [] [] (_ ∷ _) h k = elim k [ ]
  All₂-trans t [] (_ ∷ _) zs h k = elim h [ ]
  All₂-trans t (_ ∷ _) [] zs h k = elim h [ ]
  All₂-trans t (_ ∷ _) (_ ∷ _) [] h k = elim k [ ]

  pub All₂-All {κ μ} :
      (P : A → Type κ) (Q : A → Type μ)
      → ((x y : A) → R x y → P x → Q y)
      → (xs ys : List A) → All₂ R xs ys
      → All P xs
      → All Q ys
  All₂-All P Q f [] [] h k = tt
  All₂-All P Q f (x ∷ xs) (y ∷ ys) h k = (f x y h.0 k.0, All₂-All P Q f xs ys h.1 k.1)
  All₂-All P Q f [] (_ ∷ _) h k = elim h [ ]
  All₂-All P Q f (_ ∷ _) [] h k = elim h [ ]

pub All₂-mono_mem :
    {A : Type 0} (R S : A → A → Type 0) (xs ys : List A)
    → ((x y : A) → Memᴰ x xs → R x y → S x y)
    → All₂ R xs ys
    → All₂ S xs ys
All₂-mono_mem R S [] [] f h = tt
All₂-mono_mem R S (x ∷ xs) (y ∷ ys) f h =
    (f x y (Memᴰ.head refl) h.0, All₂-mono_mem R S xs ys (λ a b m. f a b (Memᴰ.tail m)) h.1)
All₂-mono_mem R S [] (_ ∷ _) f h = elim h [ ]
All₂-mono_mem R S (_ ∷ _) [] f h = elim h [ ]
