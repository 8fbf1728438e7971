-- ===== src/Base/Maps.antt =====
-- Rust's `HashMap` as an association list: `get`, `insert` and `contains_key`, over keys whose
-- equality is decided.
use mathlib.Core.Path.{◌≡◌, refl}
use mathlib.Core.Logic.{◌≢◌, ◌⊎◌, inl, inr}
use mathlib.Core.List.{List, [], ◌∷◌}
use mathlib.Core.Bool.{Bool, true, false}
use mathlib.Core.Option.{Option, none, some}

abbrev pub HashMap {ℓ κ} : Type ℓ → Type κ → Type (ℓ ⊔ κ)
HashMap K V = List (K × V)

pub some_injective {ℓ} : {A : Type ℓ} {a b : A} → some a ≡ some b → a ≡ b
some_injective h = cc

module _ {ℓ κ} {K : Type ℓ} {V : Type κ} (same : Discrete K) where
  unfoldable pub get : K → HashMap K V → Option V
  get k [] = none
  get k ((j, v) ∷ m) = elim (same j k) [ yes _ ↦ some v | no _ ↦ get k m ]

  unfoldable pub insert : K → V → HashMap K V → HashMap K V
  insert k v m = (k, v) ∷ m

  unfoldable pub contains_key : K → HashMap K V → Bool
  unfolding get
  contains_key k m = elim (get k m) [ none ↦ false | some _ ↦ true ]

  pub get-insert_self : (k : K) (v : V) (m : HashMap K V) → get k (insert k v m) ≡ some v
  unfolding get insert
  get-insert_self k v m =
      elim (same k k)
        as (λ d. elim d as (λ _. Option V) [ yes _ ↦ some v | no _ ↦ get k m ] ≡ some v) [
          | yes e ↦ refl
          | no ne ↦ absurd (ne refl)
        ]

  pub get-insert_ne : (k j : K) (v : V) (m : HashMap K V) → k ≢ j → get j (insert k v m) ≡ get j m
  unfolding get insert
  get-insert_ne k j v m h =
      elim (same k j)
        as (λ d. elim d as (λ _. Option V) [ yes _ ↦ some v | no _ ↦ get j m ] ≡ get j m) [
          | yes e ↦ absurd (h e)
          | no ne ↦ refl
        ]

  -- What a table holds once a key was inserted.
  pub get-insert_cases :
      (k j : K) (v : V) (m : HashMap K V) {w : V}
      → get j (insert k v m) ≡ some w
      → ((k ≡ j) × (v ≡ w)) ⊎ ((k ≢ j) × (get j m ≡ some w))
  unfolding get insert
  get-insert_cases k j v m {w} h =
      (elim (same k j)
          as (λ d.
            elim d as (λ _. Option V) [ yes _ ↦ some v | no _ ↦ get j m ] ≡ some w
            → ((k ≡ j) × (v ≡ w)) ⊎ ((k ≢ j) × (get j m ≡ some w))) [
              | yes e ↦ λ p. inl (e, some_injective p)
              | no ne ↦ λ p. inr (ne, p)
            ])
        h
