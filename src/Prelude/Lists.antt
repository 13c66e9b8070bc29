-- ===== src/Prelude/Lists.antt =====
-- Lists: Boolean queries, predicates by recursion and their lemmas.
use Prim.Native.Nat.{ℕ, suc}
use Prim.Native.String.{String}
use mathlib.Core.Path.{◌≡◌}
use mathlib.Core.Logic.{◌⊎◌}
use mathlib.Core.Bool.{Bool, true, false, ◌&&◌, ◌||◌}
use mathlib.Core.List.{List, [], ◌∷◌}
use text.Mathlib.Text.{◌==◌}
use mathlib.Core.Option.{Option, none, some}
use native.Mathlib.Omega.{arith}
use text.Mathlib.TextEquality.{eq_iff}
use package.data_lineage_fix_agent.Prelude.Tests.{if◌then◌else◌}

module _ {ℓ} {A : Type ℓ} where
  abbrev pub length : List A → ℕ
  length [] = 0
  length (x ∷ xs) = suc (length xs)

  -- `any(test(x) for x in xs)`
  abbrev pub any : (A → Bool) → List A → Bool
  any p [] = false
  any p (x ∷ xs) = p x || any p xs

  -- `all(test(x) for x in xs)`
  abbrev pub all : (A → Bool) → List A → Bool
  all p [] = true
  all p (x ∷ xs) = p x && all p xs

  -- `[x for x in xs if test(x)]`
  abbrev pub filter : (A → Bool) → List A → List A
  filter p [] = []
  filter p (x ∷ xs) = let rest = filter p xs in if p x then x ∷ rest else rest

  abbrev pub count_where : (A → Bool) → List A → ℕ
  count_where p [] = 0
  count_where p (x ∷ xs) = let rest = count_where p xs in if p x then suc rest else rest

  abbrev pub All {κ} : (A → Type κ) → List A → Type κ
  All P [] = Unit
  All P (x ∷ xs) = P x × All P xs

-- Membership, as data.
abbrev pub In : {A : Type 0} → A → List A → Type 0
In a [] = ⊥
In a (x ∷ xs) = (a ≡ x) ⊎ In a xs

-- `x in xs` on texts
abbrev pub elem : String → List String → Bool
elem a [] = false
elem a (x ∷ xs) = (a == x) || elem a xs

-- `len(xs) == len(set(xs))` on texts
abbrev pub distinct : List String → Bool
distinct [] = true
distinct (x ∷ xs) = elim (elem x xs) [ true ↦ false | false ↦ distinct xs ]

-- `set(xs) <= set(ys)` on texts
abbrev pub subset : List String → List String → Bool
subset xs ys = all (λ x. elem x ys) xs

-- A dict as the list of its entries: `entries.get(key)`, and `entries[key] = value`.
abbrev pub lookup {ℓ} : {A : Type ℓ} → String → List (String × A) → Option A
lookup key [] = none
lookup key ((k, a) ∷ rest) = if k == key then some a else lookup key rest

abbrev pub set_entry {ℓ} : {A : Type ℓ} → String → A → List (String × A) → List (String × A)
set_entry key a [] = (key, a) ∷ []
set_entry key a ((k, b) ∷ rest) = elim (k == key) [
  | true ↦ (k, a) ∷ rest
  | false ↦ (k, b) ∷ set_entry key a rest
]

pub lookup-set_entry {ℓ} :
    {A : Type ℓ} (key : String) (a : A) (entries : List (String × A))
    → lookup key (set_entry key a entries) ≡ some a
lookup-set_entry key a [] = ground (arith, eq_iff key key)
lookup-set_entry key a ((k, b) ∷ rest) = ground (arith, eq_iff key key, lookup-set_entry key a rest)
