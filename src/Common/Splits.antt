-- ===== src/Common/Splits.antt =====
-- Lists of bytes taken apart at a place and put together.
use Prim.Native.Nat.{ℕ, zero, suc, ◌+◌, ◌≤◌}
use mathlib.Core.Path.{◌≡◌, refl, sym, ap, ◌∙◌}
use mathlib.Core.List.{List, [], ◌∷◌, ◌++◌}
use native.Mathlib.Omega.{arith}
use oblogproxy.Common.Lists.{length, take, drop, take-append, drop-append}

pub zero_add : (n : ℕ) → 0 + n ≡ n
zero_add n = omega arith

pub suc_add : (a n : ℕ) → suc a + n ≡ suc (a + n)
suc_add a n = omega arith

pub drop_nil : (n : ℕ) → drop {A = ℕ} n [] ≡ []
drop_nil zero = refl
drop_nil (suc n) = refl

pub take_past : (xs ys : List ℕ) (n : ℕ) → take (length xs + n) (xs ++ ys) ≡ xs ++ take n ys
take_past [] ys n = ap (λ k. take k ys) (zero_add n)
take_past (x ∷ xs) ys n =
    ap (λ k. take k (x ∷ (xs ++ ys))) (suc_add (length xs) n) ∙ ap (◌∷◌ x) (take_past xs ys n)

pub drop_within : (n : ℕ) (xs ys : List ℕ) → n ≤ length xs → drop n (xs ++ ys) ≡ drop n xs ++ ys
drop_within zero xs ys h = refl
drop_within (suc n) [] ys h = elim h [ ]
drop_within (suc n) (x ∷ xs) ys h = drop_within n xs ys (omega arith)

pub drop-drop : (n m : ℕ) (xs : List ℕ) → drop m (drop n xs) ≡ drop (n + m) xs
drop-drop zero m xs = ap (λ k. drop k xs) (sym (zero_add m))
drop-drop (suc n) m [] = drop_nil m ∙ sym (drop_nil (suc n + m))
drop-drop (suc n) m (x ∷ xs) = drop-drop n m xs ∙ ap (λ k. drop k (x ∷ xs)) (sym (suc_add n m))

pub take-drop : (n : ℕ) (xs : List ℕ) → take n xs ++ drop n xs ≡ xs
take-drop zero xs = refl
take-drop (suc n) [] = refl
take-drop (suc n) (x ∷ xs) = ap (◌∷◌ x) (take-drop n xs)

pub take_two :
    (n : ℕ) (xs ys zs : List ℕ) → length xs ≡ n → take (n + length ys) (xs ++ (ys ++ zs)) ≡ xs ++ ys
take_two n xs ys zs h = rw (← h, take_past xs (ys ++ zs) (length ys), take-append ys zs) refl

pub take_exact : (n : ℕ) (xs ys : List ℕ) → length xs ≡ n → take n (xs ++ ys) ≡ xs
take_exact n xs ys h = rw (← h) (take-append xs ys)

pub drop_exact : (n : ℕ) (xs ys : List ℕ) → length xs ≡ n → drop n (xs ++ ys) ≡ ys
drop_exact n xs ys h = rw (← h) (drop-append xs ys)

pub drop_all : (n : ℕ) (xs : List ℕ) → length xs ≤ n → drop n xs ≡ []
drop_all zero [] h = refl
drop_all (suc n) [] h = refl
drop_all zero (x ∷ xs) h = elim h [ ]
drop_all (suc n) (x ∷ xs) h = drop_all n xs (omega arith)
