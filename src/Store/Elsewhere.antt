-- ===== src/Store/Elsewhere.antt =====
-- The documents of a collection that belong to other workspaces than one.
use cloudops_sentinel.Base.{
  String, ◌≡◌, refl, ap, ◌∙◌, ◌⊎◌, inl, inr, Bool, true, false, not, List, [], ◌∷◌, ◌++◌, Memᴰ,
  ◌==◌, eq_iff, eq_refl, Bool-cases, filter, All₂,
}
use mathlib.Core.List.{append-nil}
use cloudops_sentinel.Store.{update_many}

pub filter-append {ℓ} :
    {A : Type ℓ} (p : A → Bool) (xs ys : List A) → filter p (xs ++ ys) ≡ filter p xs ++ filter p ys
filter-append p [] ys = refl
filter-append p (x ∷ xs) ys = elim (Bool-cases (p x)) [
  | inl e ↦ rw e (ap (λ l. x ∷ l) (filter-append p xs ys))
  | inr e ↦ rw e (filter-append p xs ys)
]

pub filter-drop {ℓ} :
    {A : Type ℓ} (p : A → Bool) (pre : List A) (x : A) (post : List A)
    → p x ≡ false
    → filter p (pre ++ x ∷ post) ≡ filter p pre ++ filter p post
filter-drop p pre x post e =
    filter-append p pre (x ∷ post) ∙ ap (λ l. filter p pre ++ l) (rw e refl)

-- Documents of one id belong to one workspace.
abbrev pub AreOwned : {A : Type 0} → (A → String) → (A → String) → List A → Type 0
AreOwned {A} id_of workspace_of docs =
    (x y : A) → Memᴰ x docs → Memᴰ y docs → id_of x ≡ id_of y → workspace_of x ≡ workspace_of y

module _ {A : Type 0} (workspace_of : A → String) (workspace_id : String) where
  abbrev pub is_other : A → Bool
  is_other x = not (workspace_of x == workspace_id)

  -- The documents of the other workspaces, in their order.
  abbrev pub others : List A → List A
  others docs = filter is_other docs

  own-other : (x : A) → workspace_of x ≡ workspace_id → is_other x ≡ false
  own-other x own = rw (own, eq_refl workspace_id) refl

  pub others-insert :
      (x : A) (docs : List A)
      → workspace_of x ≡ workspace_id
      → others (docs ++ x ∷ []) ≡ others docs
  others-insert x docs own = filter-drop is_other docs x [] (own-other x own) ∙ append-nil _

  -- A document that is replaced by one of its workspace, where it is changed at all.
  abbrev pub StaysAway : A → A → Type 0
  StaysAway x y = (y ≡ x) ⊎ ((workspace_of x ≡ workspace_id) × (workspace_of y ≡ workspace_id))

  pub others-all : (docs docs' : List A) → All₂ StaysAway docs docs' → others docs' ≡ others docs
  others-all [] [] h = refl
  others-all (x ∷ xs) (y ∷ ys) (inl same, h) = rw (same, others-all xs ys h) refl
  others-all (x ∷ xs) (y ∷ ys) (inr (own, own'), h) =
      rw (own-other x own, own-other y own') (others-all xs ys h)
  others-all [] (_ ∷ _) h = elim h [ ]
  others-all (_ ∷ _) [] h = elim h [ ]

  pub update_many-StaysAway :
      (p : A → Bool) (f : A → A)
      → ((x : A) → workspace_of (f x) ≡ workspace_of x)
      → (docs : List A) → ((x : A) → Memᴰ x docs → p x ≡ true → workspace_of x ≡ workspace_id)
      → All₂ StaysAway docs (update_many p f docs).0
  unfolding update_many
  update_many-StaysAway p f keeps [] own = tt
  update_many-StaysAway p f keeps (x ∷ xs) own =
      let rest = update_many-StaysAway p f keeps xs (λ y m. own y (Memᴰ.tail m)) in
      elim (Bool-cases (p x)) [
        | inl hit ↦
            let here = own x (Memᴰ.head refl) hit in rw hit (inr (here, keeps x ∙ here), rest)
        | inr miss ↦ rw miss (inl refl, rest)
      ]

  -- An update of the documents of an id, one of which belongs to the workspace.
  pub others-update :
      (id_of : A → String) (x : A) (f : A → A) (docs : List A)
      → ((y : A) → workspace_of (f y) ≡ workspace_of y)
      → AreOwned id_of workspace_of docs
      → Memᴰ x docs
      → workspace_of x ≡ workspace_id
      → others (update_many (λ y. id_of y == id_of x) f docs).0 ≡ others docs
  others-update id_of x f docs keeps owned m own = others-all docs _ (
      update_many-StaysAway (λ y. id_of y == id_of x) f keeps docs
        λ y m' hit. owned y x m' m ((eq_iff (id_of y) (id_of x)).0 hit) ∙ own)
