-- ===== src/Scenarios/Raw.antt =====
-- A small validation library, and sorted searches, to run the schemas and the listings on.
use cloudops_sentinel.Base.{
  ℕ, ◌≤◌, String, ◌≡◌, refl, subst, ◌⊎◌, inl, inr, Bool, true, false, ◌&&◌, Option, none, some,
  List, [], ◌∷◌, arith, ◌==◌, leb, if◌then◌else◌, leb→le, Bool-cases, length, All,
}
use Prim.Native.String.{len}
use cloudops_sentinel.Text.{get, includes}
use cloudops_sentinel.Listing.{SortedFind}
use cloudops_sentinel.Query.{SortedMongo}
use cloudops_sentinel.Schemas.{Zod, Below}
use cloudops_sentinel.Scenarios.FirstMatch.{collection}

-- Texts, and objects of texts.
pub data Raw : Type 0 where
  absent : Raw
  word : String → Raw
  object : List (String × String) → Raw

abbrev in_range : ℕ → Option ℕ → ℕ → Bool
in_range min none n = leb min n
in_range min (some max) n = leb min n && leb n max

abbrev when_in_range : {A : Type 0} → ℕ → Option ℕ → ℕ → A → Option A
when_in_range min max n a = if in_range min max n then some a else none

abbrev raw_string : ℕ → Option ℕ → Raw → Option String
raw_string min max (word s) = when_in_range min max (len s) s
raw_string min max absent = none
raw_string min max (object o) = none

abbrev numeral : String → Option ℕ
numeral s =
    if s == "2"
    then some 2
    else if s == "10"
    then some 10
    else if s == "500"
    then some 500
    else none

abbrev ranged : ℕ → Option ℕ → Option ℕ → Option ℕ
ranged min max none = none
ranged min max (some n) = when_in_range min max n n

abbrev raw_int : ℕ → Option ℕ → Raw → Option ℕ
raw_int min max (word s) = ranged min max (numeral s)
raw_int min max absent = none
raw_int min max (object o) = none

abbrev raw_enum : List String → Raw → Option String
raw_enum names (word s) = if includes s names then some s else none
raw_enum names absent = none
raw_enum names (object o) = none

abbrev raw_boolean : Raw → Option Bool
raw_boolean (word s) = if s == "true" then some true else if s == "false" then some false else none
raw_boolean absent = none
raw_boolean (object o) = none

-- A value alone is a list of one item.
abbrev one_item : {A : Type 0} → ℕ → Option A → Option (List A)
one_item min none = none
one_item min (some a) = if leb min 1 then some (a ∷ []) else none

abbrev some_of : {A : Type 0} → Option A → Option (Option A)
some_of none = none
some_of (some a) = some (some a)

abbrev raw_optional : (A : Type 0) → (Raw → Option A) → Raw → Option (Option A)
raw_optional A p absent = some none
raw_optional A p (word s) = some_of (p (word s))
raw_optional A p (object o) = some_of (p (object o))

abbrev raw_default : (A : Type 0) → A → (Raw → Option A) → Raw → Option A
raw_default A d p absent = some d
raw_default A d p (word s) = p (word s)
raw_default A d p (object o) = p (object o)

abbrev word_or_absent : Option String → Raw
word_or_absent none = absent
word_or_absent (some s) = word s

abbrev raw_field : Raw → String → Option Raw
raw_field (object o) name = some (word_or_absent (get name o))
raw_field absent name = none
raw_field (word s) name = none

in_range_lem :
    (min : ℕ) (max : Option ℕ) (n : ℕ) → in_range min max n ≡ true → (min ≤ n) × Below n max
in_range_lem min none n h = (leb→le min n h, tt)
in_range_lem min (some max) n h = ground arith

when_in_range_lem :
    {A : Type 0} (min : ℕ) (max : Option ℕ) (n : ℕ) (a : A) {b : A}
    → when_in_range min max n a ≡ some b
    → (in_range min max n ≡ true) × (a ≡ b)
when_in_range_lem min max n a h = ground arith

pub string_law :
    (min : ℕ) (max : Option ℕ) (v : Raw) (s : String)
    → raw_string min max v ≡ some s
    → (min ≤ len s) × Below (len s) max
string_law min max (word t) s h =
    let (fits, same) = when_in_range_lem min max (len t) t h in
    subst (λ u. (min ≤ len u) × Below (len u) max) same (in_range_lem min max (len t) fits)
string_law min max absent s h = cc
string_law min max (object o) s h = cc

pub int_law :
    (min : ℕ) (max : Option ℕ) (v : Raw) (n : ℕ)
    → raw_int min max v ≡ some n
    → (min ≤ n) × Below n max
int_law min max (word t) n h = by_numeral (numeral t) h
  where
    by_numeral : (m : Option ℕ) → ranged min max m ≡ some n → (min ≤ n) × Below n max
    by_numeral none h = cc
    by_numeral (some m) h =
        let (fits, same) = when_in_range_lem min max m m h in
        subst (λ u. (min ≤ u) × Below u max) same (in_range_lem min max m fits)
int_law min max absent n h = cc
int_law min max (object o) n h = cc

pub enum_law :
    (names : List String) (v : Raw) (s : String)
    → raw_enum names v ≡ some s
    → includes s names ≡ true
enum_law names (word t) s h = elim (Bool-cases (includes t names)) [
  | inl listed ↦ let same : t ≡ s = ground arith in subst (λ u. includes u names ≡ true) same listed
  | inr not_listed ↦ absurd (ground arith)
]
enum_law names absent s h = cc
enum_law names (object o) s h = cc

pub array_law :
    (A : Type 0) (min : ℕ) (p : Raw → Option A) (v : Raw) (l : List A)
    → one_item min (p v) ≡ some l
    → (min ≤ length l) × All (λ a. (w : Raw) × (p w ≡ some a)) l
array_law A min p v l h = by_item (p v) refl h
  where
    by_item :
        (o : Option A)
        → p v ≡ o
        → one_item min o ≡ some l
        → (min ≤ length l) × All (λ a. (w : Raw) × (p w ≡ some a)) l
    by_item none e h = cc
    by_item (some a) e h = elim (Bool-cases (leb min 1)) [
      | inl fits ↦
          let same : a ∷ [] ≡ l = ground arith in
          subst (λ l. (min ≤ length l) × All (λ a. (w : Raw) × (p w ≡ some a)) l) same
            (omega (arith, leb→le _ _ fits), ((v, e), tt))
      | inr more ↦ absurd (ground arith)
    ]

some_of_lem : {A : Type 0} (o : Option A) {a : A} → some_of o ≡ some (some a) → o ≡ some a
some_of_lem none h = cc
some_of_lem (some b) h = cc

pub optional_law :
    (A : Type 0) (p : Raw → Option A) (v : Raw) (a : A)
    → raw_optional A p v ≡ some (some a)
    → p v ≡ some a
optional_law A p absent a h = cc
optional_law A p (word s) a h = some_of_lem (p (word s)) h
optional_law A p (object o) a h = some_of_lem (p (object o)) h

pub default_law :
    (A : Type 0) (d : A) (p : Raw → Option A) (v : Raw) (a : A)
    → raw_default A d p v ≡ some a
    → (a ≡ d) ⊎ (p v ≡ some a)
default_law A d p absent a h = inl (cc)
default_law A d p (word s) a h = inr h
default_law A d p (object o) a h = inr h

abbrev pub zod : Zod
zod = record {
  Value = Raw;
  string = raw_string;
  email = raw_string 3 none;
  boolean = raw_boolean;
  enum = raw_enum;
  coerced_int = raw_int;
  array = λ A min p v. one_item min (p v);
  optional = raw_optional;
  default = raw_default;
  field = raw_field;
  undefined = absent;
  units = len;
  string_in_range = string_law;
  enum_listed = enum_law;
  int_in_range = int_law;
  array_of = array_law;
  optional_of = optional_law;
  default_of = default_law;
  default_missing = λ A d p. refl;
}

-- The order of the collection is the order of the search.
abbrev pub in_order : {A : Type 0} → SortedFind A
in_order = record {
  find_sorted = λ query. collection.find;
  sorted_sound = λ query. collection.find_sound;
  sorted_complete = λ query. collection.find_complete;
  length-find_sorted = λ query. collection.length-find;
}

abbrev pub sorted : SortedMongo
sorted = record {
  resources_by_name = in_order;
  jobs_by_date = in_order;
  findings_by_date = in_order;
  recommendations_by_date = in_order;
  audits_by_date = in_order;
  checks_by_observation = in_order;
}
