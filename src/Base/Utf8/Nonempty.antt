-- ===== src/Base/Utf8/Nonempty.antt =====
-- UTF-8 of the Rust standard library: only the empty sequence of bytes is the empty text.
use Prim.Native.Char.{Char}
use Prim.Native.String.{String}
use llvm_in_rust.Base.{
  ℕ, zero, suc, ◌-◌, ltb, ◌≡◌, ◌≢◌, refl, inl, inr, ◌⊎◌, Bool, true, false, List, [], ◌∷◌, Option,
  none, some, if◌then◌else◌, Option-cases,
}
use llvm_in_rust.Base.Maps.{some_injective}
use llvm_in_rust.Base.Utf8.{
  Pending, Step, bad, more, emit, ready, as_char, finish, lead, continue, step, push, decode_from,
  from_utf8,
}

-- Where more bytes are to come, at least one is.
data Pends : Step → Type 0 where
  failed : Pends bad
  pending : (n acc least : ℕ) → Pends (more (record { need = suc n; acc = acc; least = least }))
  emitted : (c : Char) → Pends (emit c)

Pends-if : (b : Bool) {s t : Step} → Pends s → Pends t → Pends (if b then s else t)
Pends-if true hs ht = hs
Pends-if false hs ht = ht

finish-Pends : (n : ℕ) → Pends (finish n)
unfolding finish
finish-Pends n = elim (Option-cases (as_char n)) [
  | inl e ↦ rw (finish, e) failed
  | inr (c, e) ↦ rw (finish, e) (emitted c)
]

lead-Pends : (b : ℕ) → Pends (lead b)
unfolding lead
lead-Pends b = Pends-if _ (finish-Pends b) (
    Pends-if (ltb b 192) failed (
      Pends-if (ltb b 224) (pending 0 (b - 192) 128) (
        Pends-if (ltb b 240) (pending 1 (b - 224) 2048)
          (Pends-if (ltb b 248) (pending 2 (b - 240) 65536) failed))))

continue-Pends : (k acc least b : ℕ) → Pends (continue k acc least b)
unfolding continue
continue-Pends zero acc least b = Pends-if _ (Pends-if _ (finish-Pends _) failed) failed
continue-Pends (suc j) acc least b = Pends-if _ (pending _ _ _) failed

step-Pends : (p : Pending) (b : ℕ) → Pends (step p b)
unfolding step
step-Pends p b = at p.need p.acc p.least
  where
    at : (n acc least : ℕ) → Pends (step (record { need = n; acc = acc; least = least }) b)
    at zero acc least = lead-Pends b
    at (suc k) acc least = continue-Pends k acc least b

Pends-cases :
    (s : Step)
    → Pends s
    → (s ≡ bad)
      ⊎ ((n : ℕ) × (acc : ℕ) × (least : ℕ) × (s
            ≡ more (record { need = suc n; acc = acc; least = least })))
      ⊎ ((c : Char) × (s ≡ emit c))
Pends-cases s failed = inl refl
Pends-cases s (pending n acc least) = inr (inl (n, acc, least, refl))
Pends-cases s (emitted c) = inr (inr (c, refl))

push-full : (c : Char) (o : Option String) → push c o ≢ some ""
unfolding push
push-full c none e = absurd (cc)
push-full c (some s) e = absurd (cc (some_injective e))

-- A character that is not complete.
abbrev partial : ℕ → ℕ → ℕ → Pending
partial n acc least = record { need = suc n; acc = acc; least = least }

-- One more byte gives no empty text, where those after it give none to a character that is not
-- complete.
decode_from-step :
    (p : Pending) (b : ℕ) (bs : List ℕ)
    → ((n acc least : ℕ) → decode_from (partial n acc least) bs ≢ some "")
    → decode_from p (b ∷ bs) ≢ some ""
unfolding decode_from
decode_from-step p b bs tail e = elim (Pends-cases (step p b) (step-Pends p b)) [
  | inl s ↦ absurd (cc (rw (decode_from, s) at e))
  | inr (inl (n, acc, least, s)) ↦ tail n acc least (rw (decode_from, s) at e)
  | inr (inr (c, s)) ↦ push-full c (decode_from ready bs) (rw (decode_from, s) at e)
]

decode_from-partial :
    (bs : List ℕ) (n acc least : ℕ) → decode_from (partial n acc least) bs ≢ some ""
unfolding decode_from
decode_from-partial [] n acc least e = absurd (cc)
decode_from-partial (b ∷ bs) n acc least e =
    decode_from-step (partial n acc least) b bs (decode_from-partial bs) e

-- A text that is read of bytes is not empty.
pub from_utf8-full : (b : ℕ) (bs : List ℕ) → from_utf8 (b ∷ bs) ≢ some ""
unfolding from_utf8
from_utf8-full b bs e = decode_from-step ready b bs (decode_from-partial bs) e
