-- ===== src/Prelude/Perms.antt =====
-- Rearranged lists of texts: the same elements, and no repetition where there was none.
use mathlib.Core.Path.{◌≡◌, refl, sym, ap, ◌∙◌}
use mathlib.Core.Logic.{∥∥₁_elim}
use mathlib.Core.Bool.{true}
use mathlib.Core.List.{List, [], ◌∷◌, Perm, Permᴰ}
use native.Mathlib.Omega.{arith}
use ai_usage_tracker.Prelude.Chars.{Text, text_eq_sym, contains}
use ai_usage_tracker.Prelude.Sets.{Distinct, includes}
use ai_usage_tracker.Prelude.Lists.{length}
use ai_usage_tracker.Prelude.Counting.{includes_of_contains}
use Prim.Native.Nat.{suc}
use native.Mathlib.Nat.{ℕ_set}

pub contains-permᴰ : {xs ys : List Text} → Permᴰ xs ys → (a : Text) → contains xs a ≡ contains ys a
unfolding contains
contains-permᴰ Permᴰ.nil a = refl
contains-permᴰ (Permᴰ.cons e p) a = ground (arith, e, contains-permᴰ p a)
contains-permᴰ (Permᴰ.swap e f) a = ground (arith, e, f)
contains-permᴰ (Permᴰ.trans p q) a = contains-permᴰ p a ∙ contains-permᴰ q a

pub contains-perm : {xs ys : List Text} → Perm xs ys → (a : Text) → contains xs a ≡ contains ys a
contains-perm p a = ∥∥₁_elim p (hlevel) (λ q. contains-permᴰ q a)

pub Permᴰ-Distinct : {xs ys : List Text} → Permᴰ xs ys → Distinct xs → Distinct ys
unfolding contains
Permᴰ-Distinct Permᴰ.nil d = d
Permᴰ-Distinct (Permᴰ.cons {a = x} {b = y} {l₁ = xs} {l₂ = ys} e p) d =
    ((rw (← e, ← contains-permᴰ p x) d.0), Permᴰ-Distinct p d.1)
Permᴰ-Distinct (Permᴰ.swap {a = x} {b = y} e f) d = ground (arith, e, f, text_eq_sym x y)
Permᴰ-Distinct (Permᴰ.trans p q) d = Permᴰ-Distinct q (Permᴰ-Distinct p d)

Distinct-prop : (xs : List Text) → IsProp (Distinct xs)
Distinct-prop [] = hlevel
Distinct-prop (x ∷ xs) = hlevel (Distinct-prop xs)

pub Perm-Distinct : {xs ys : List Text} → Perm xs ys → Distinct xs → Distinct ys
Perm-Distinct {ys = ys} p d = ∥∥₁_elim p (Distinct-prop ys) (λ q. Permᴰ-Distinct q d)

length-permᴰ {ℓ} : {A : Type ℓ} {xs ys : List A} → Permᴰ xs ys → length xs ≡ length ys
length-permᴰ Permᴰ.nil = refl
length-permᴰ (Permᴰ.cons e p) = ap suc (length-permᴰ p)
length-permᴰ (Permᴰ.swap e f) = refl
length-permᴰ (Permᴰ.trans p q) = length-permᴰ p ∙ length-permᴰ q

pub length-perm {ℓ} : {A : Type ℓ} {xs ys : List A} → Perm xs ys → length xs ≡ length ys
length-perm p = ∥∥₁_elim p (ℕ_set _ _) (λ q. length-permᴰ q)

pub Perm-includes : {xs ys : List Text} → Perm xs ys → includes ys xs ≡ true
Perm-includes {xs = xs} {ys = ys} p =
    includes_of_contains ys xs (λ a h. sym (contains-perm p a) ∙ h)
