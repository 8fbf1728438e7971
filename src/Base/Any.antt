-- ===== src/Base/Any.antt =====
-- Boolean search through a list, and what it says of the members.
use mathlib.Core.Path.{◌≡◌, refl, subst}
use mathlib.Core.Logic.{inl, inr, ◌↔◌}
use mathlib.Core.List.{List, [], ◌∷◌, Memᴰ}
use mathlib.Core.List.Memᴰ
use mathlib.Core.Bool.{Bool, true, false, ◌||◌}
use native.Mathlib.Omega.{arith}
use llvm_in_rust.Base.Tests.{if◌then◌else◌, Bool-cases}
use llvm_in_rust.Base.Lists.{retain}

module _ {ℓ} {A : Type ℓ} where
  abbrev pub any : (A → Bool) → List A → Bool
  any p [] = false
  any p (x ∷ xs) = p x || any p xs

  pub any-mem : (p : A → Bool) (xs : List A) {x : A} → any p xs ≡ false → Memᴰ x xs → p x ≡ false
  any-mem p [] h m = elim m [ ]
  any-mem p (y ∷ ys) h (Memᴰ.head e) = rw e (ground arith)
  any-mem p (y ∷ ys) h (Memᴰ.tail m) = any-mem p ys (ground arith) m

  pub any_witness :
      (p : A → Bool) (xs : List A) → any p xs ≡ true → (x : A) × Memᴰ x xs × (p x ≡ true)
  any_witness p [] h = absurd (cc)
  any_witness p (x ∷ xs) h = elim (Bool-cases (p x)) [
    | inl e ↦ (x, Memᴰ.head refl, e)
    | inr e ↦ let (y, m, q) = any_witness p xs (ground arith) in (y, Memᴰ.tail m, q)
  ]

  pub any_intro : (p : A → Bool) (xs : List A) {x : A} → Memᴰ x xs → p x ≡ true → any p xs ≡ true
  any_intro p [] m h = elim m [ ]
  any_intro p (y ∷ ys) (Memᴰ.head e) h = let h' = rw e at h in ground arith
  any_intro p (y ∷ ys) (Memᴰ.tail m) h = ground (arith, any_intro p ys m h)

  pub mem_of_retain :
      (p : A → Bool) (xs : List A) {x : A} → Memᴰ x (retain p xs) → Memᴰ x xs × (p x ≡ true)
  mem_of_retain p [] m = elim m [ ]
  mem_of_retain p (y ∷ ys) {x} m = elim (Bool-cases (p y)) [
    | inl e ↦
        elim (Memᴰ.cases_cons
          (subst (λ b. Memᴰ x (if b then y ∷ retain p ys else retain p ys)) e m)) [
            | inl same ↦ (Memᴰ.head same, rw same e)
            | inr later ↦ let (n, q) = mem_of_retain p ys later in (Memᴰ.tail n, q)
          ]
    | inr e ↦
        let (n, q) =
          mem_of_retain p ys
            (subst (λ b. Memᴰ x (if b then y ∷ retain p ys else retain p ys)) e m) in
        (Memᴰ.tail n, q)
  ]

  pub retain_of_mem :
      (p : A → Bool) (xs : List A) {x : A} → Memᴰ x xs → p x ≡ true → Memᴰ x (retain p xs)
  retain_of_mem p [] m q = elim m [ ]
  retain_of_mem p (y ∷ ys) (Memᴰ.head e) q = rw (rw e at q) (Memᴰ.head e)
  retain_of_mem p (y ∷ ys) {x} (Memᴰ.tail m) q = elim (Bool-cases (p y)) [
    | inl e ↦ rw e (Memᴰ.tail (retain_of_mem p ys m q))
    | inr e ↦ rw e (retain_of_mem p ys m q)
  ]

module _ {ℓ} {A : Type ℓ} (same : Discrete A) where
  unfoldable pub eq_test : A → A → Bool
  eq_test a b = elim (same a b) [ yes _ ↦ true | no _ ↦ false ]

  pub eq_test_iff : (a b : A) → (eq_test a b ≡ true) ↔ (a ≡ b)
  unfolding eq_test
  eq_test_iff a b =
      elim (same a b)
        as (λ d. (elim d as (λ _. Bool) [ yes _ ↦ true | no _ ↦ false ] ≡ true) ↔ (a ≡ b)) [
          | yes e ↦ (λ _. e, λ _. refl)
          | no ne ↦ (λ h. absurd (cc h), λ e. absurd (ne e))
        ]
