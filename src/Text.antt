-- ===== src/Text.antt =====
-- The text operations of the language that the source uses: template literals and trimming aside,
-- `join` puts the parts of a template literal together, and a Record<string, T> is an association
-- list in which a key that is set again keeps its place.
use Prim.Native.String
use cloudops_sentinel.Base.{
  Bool-cases, inl, sym, ◌∙◌, inr, Option-cases, Memᴰ, ◌≢◌, String, ◌≡◌, refl, Bool, false, ◌||◌,
  Option, none, some, List, [], ◌∷◌, arith, ◌==◌, eq_iff, eq_refl, if◌then◌else◌, is_some,
}

unfoldable pub template : List String → String
template [] = ""
template (s ∷ ss) = String.◌++◌ s (template ss)

unfoldable pub includes : String → List String → Bool
includes s [] = false
includes s (t ∷ ts) = t == s || includes s ts

module _ {ℓ} {V : Type ℓ} where
  unfoldable pub get : String → List (String × V) → Option V
  get k [] = none
  get k ((j, v) ∷ m) = if j == k then some v else get k m

  unfoldable pub put : String → V → List (String × V) → List (String × V)
  put k v [] = (k, v) ∷ []
  put k v ((j, w) ∷ m) = if j == k then (k, v) ∷ m else (j, w) ∷ put k v m

  pub get-put :
      (k j : String) (v : V) (m : List (String × V))
      → get j (put k v m) ≡ (if k == j then some v else get j m)
  unfolding get put
  get-put k j v [] = refl
  get-put k j v ((i, w) ∷ m) = ground (arith, eq_iff k j, eq_iff i k, eq_iff i j, get-put k j v m)

  pub get-put_self : (k : String) (v : V) (m : List (String × V)) → get k (put k v m) ≡ some v
  get-put_self k v m = rw (get-put k k v m, eq_refl k) refl

  pub get-put_ne :
      (k j : String) (v : V) (m : List (String × V)) → j ≢ k → get j (put k v m) ≡ get j m
  get-put_ne k j v m n = rw (get-put k j v m) (ground (arith, eq_iff k j))

  -- Setting a key to the same value again changes nothing.
  pub put-put : (k : String) (v : V) (m : List (String × V)) → put k v (put k v m) ≡ put k v m
  unfolding put
  put-put k v [] = ground (arith, eq_refl k)
  put-put k v ((j, w) ∷ m) = ground (arith, eq_refl k, put-put k v m)

-- A Map built from a list: of several entries for a key the last one counts.
module _ {ℓ} {A : Type ℓ} where
  unfoldable pub map_get : (A → String) → String → List A → Option A
  map_get key k [] = none
  map_get key k (x ∷ xs) =
      let later = map_get key k xs in
      if is_some later then later else if key x == k then some x else none

  pub map_get_sound :
      (key : A → String) (k : String) (xs : List A) {x : A}
      → map_get key k xs ≡ some x
      → Memᴰ x xs × (key x ≡ k)
  unfolding map_get
  map_get_sound key k [] h = cc
  map_get_sound key k (y ∷ ys) {x} h = elim (Option-cases (map_get key k ys)) [
    | inr (z, later) ↦
        let (m, e) = map_get_sound key k ys (later ∙ sym (rw (← h, later) refl)) in (Memᴰ.tail m, e)
    | inl none_later ↦ elim (Bool-cases (key y == k)) [
      | inl hit ↦
          let same : y ≡ x = ground arith in
          (Memᴰ.head (sym same), rw (← same) ((eq_iff (key y) k).0 hit))
      | inr miss ↦ absurd (ground arith)
    ]
  ]
