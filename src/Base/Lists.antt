-- ===== src/Base/Lists.antt =====
-- Lists measured by native numbers, Boolean searches, and predicates on every element.
use Prim.Native.Nat.{ℕ, zero, suc, ◌+◌, ◌-◌, ◌≤◌}
use mathlib.Core.Path.{◌≡◌, refl, ap}
use mathlib.Core.Logic.{◌⊎◌, inl, inr}
use mathlib.Core.Bool.{Bool, true, false, not, ◌&&◌, ◌||◌}
use mathlib.Core.List.{List, [], ◌∷◌, ◌++◌, map}
use native.Mathlib.Omega.{arith}
use rabbit_speed_test.Base.Tests.{Eq, ◌==◌, Bool-cases, if◌then◌else◌}

module _ {ℓ} {A : Type ℓ} where
  abbrev pub length : List A → ℕ
  length [] = 0
  length (x ∷ xs) = suc (length xs)

  abbrev pub take : ℕ → List A → List A
  take zero xs = []
  take (suc n) [] = []
  take (suc n) (x ∷ xs) = x ∷ take n xs

  abbrev pub drop : ℕ → List A → List A
  drop zero xs = xs
  drop (suc n) [] = []
  drop (suc n) (x ∷ xs) = drop n xs

  abbrev pub replicate : ℕ → A → List A
  replicate zero a = []
  replicate (suc n) a = a ∷ replicate n a

  -- [x for x in xs if p(x)]
  abbrev pub keep : (A → Bool) → List A → List A
  keep p [] = []
  keep p (x ∷ xs) = let rest = keep p xs in if p x then x ∷ rest else rest

  -- all(p(x) for x in xs)
  abbrev pub all_of : (A → Bool) → List A → Bool
  all_of p [] = true
  all_of p (x ∷ xs) = p x && all_of p xs

  -- any(p(x) for x in xs)
  abbrev pub any_of : (A → Bool) → List A → Bool
  any_of p [] = false
  any_of p (x ∷ xs) = p x || any_of p xs

  abbrev pub All {κ} : (A → Type κ) → List A → Type κ
  All P [] = Unit
  All P (x ∷ xs) = P x × All P xs

  pub length-append : (xs ys : List A) → length (xs ++ ys) ≡ length xs + length ys
  length-append [] ys = omega arith
  length-append (x ∷ xs) ys = omega (arith, length-append xs ys)

  pub length-replicate : (n : ℕ) (a : A) → length (replicate n a) ≡ n
  length-replicate zero a = refl
  length-replicate (suc n) a = ap suc (length-replicate n a)

  pub length-take : (n : ℕ) (xs : List A) → n ≤ length xs → length (take n xs) ≡ n
  length-take zero xs h = refl
  length-take (suc n) [] h = absurd (omega arith)
  length-take (suc n) (x ∷ xs) h = ap suc (length-take n xs (omega arith))

  pub length-drop : (n : ℕ) (xs : List A) → length (drop n xs) ≡ length xs - n
  length-drop zero xs = omega arith
  length-drop (suc n) [] = omega arith
  length-drop (suc n) (x ∷ xs) = omega (arith, length-drop n xs)

  pub take_twice : (n : ℕ) (xs : List A) → take n (take n xs) ≡ take n xs
  take_twice zero xs = refl
  take_twice (suc n) [] = refl
  take_twice (suc n) (x ∷ xs) = ap (λ l. x ∷ l) (take_twice n xs)

pub map-append :
    {A B : Type 0} (f : A → B) (xs ys : List A) → map f (xs ++ ys) ≡ map f xs ++ map f ys
map-append f [] ys = refl
map-append f (x ∷ xs) ys = ap (λ l. f x ∷ l) (map-append f xs ys)

module _ {A : Type 0} where
  -- a stands in the list.
  abbrev pub In : A → List A → Type 0
  In a [] = ⊥
  In a (x ∷ xs) = (x ≡ a) ⊎ In a xs

  abbrev pub Some : (A → Type 0) → List A → Type 0
  Some P [] = ⊥
  Some P (x ∷ xs) = P x ⊎ Some P xs

  pub append_nil : (xs : List A) → xs ++ [] ≡ xs
  append_nil [] = refl
  append_nil (x ∷ xs) = ap (λ l. x ∷ l) (append_nil xs)

  pub append_assoc : (xs ys zs : List A) → (xs ++ ys) ++ zs ≡ xs ++ (ys ++ zs)
  append_assoc [] ys zs = refl
  append_assoc (x ∷ xs) ys zs = ap (λ l. x ∷ l) (append_assoc xs ys zs)

  pub In-append_left : (a : A) (xs ys : List A) → In a xs → In a (xs ++ ys)
  In-append_left a [] ys h = absurd h
  In-append_left a (x ∷ xs) ys (inl e) = inl e
  In-append_left a (x ∷ xs) ys (inr h) = inr (In-append_left a xs ys h)

  pub In-append_right : (a : A) (xs ys : List A) → In a ys → In a (xs ++ ys)
  In-append_right a [] ys h = h
  In-append_right a (x ∷ xs) ys h = inr (In-append_right a xs ys h)

  pub Some-append_left : (P : A → Type 0) (xs ys : List A) → Some P xs → Some P (xs ++ ys)
  Some-append_left P [] ys h = absurd h
  Some-append_left P (x ∷ xs) ys (inl e) = inl e
  Some-append_left P (x ∷ xs) ys (inr h) = inr (Some-append_left P xs ys h)

  pub Some-append_right : (P : A → Type 0) (xs ys : List A) → Some P ys → Some P (xs ++ ys)
  Some-append_right P [] ys h = h
  Some-append_right P (x ∷ xs) ys h = inr (Some-append_right P xs ys h)

module _ {ℓ} {A : Type ℓ} ⦃e : Eq A⦄ where
  -- x in xs
  abbrev pub contains : A → List A → Bool
  contains a [] = false
  contains a (x ∷ xs) = (x == a) || contains a xs

  -- list(dict.fromkeys(xs)): the first occurrence of each element
  abbrev pub dedupe : List A → List A
  dedupe [] = []
  dedupe (x ∷ xs) = x ∷ keep (λ y. not (x == y)) (dedupe xs)

  pub contains-keep_ne :
      (a x : A) (xs : List A)
      → contains a (keep (λ y. not (x == y)) xs) ≡ (not (x == a) && contains a xs)
  contains-keep_ne a x [] = ground arith
  contains-keep_ne a x (y ∷ ys) =
      ground (arith, contains-keep_ne a x ys, e.beq_iff y a, e.beq_iff x a, e.beq_iff x y)

  pub contains-dedupe : (a : A) (xs : List A) → contains a (dedupe xs) ≡ contains a xs
  contains-dedupe a [] = refl
  contains-dedupe a (x ∷ xs) =
      ground (arith, contains-dedupe a xs, contains-keep_ne a x (dedupe xs))

  pub contains-append :
      (a : A) (xs ys : List A) → contains a (xs ++ ys) ≡ (contains a xs || contains a ys)
  contains-append a [] ys = refl
  contains-append a (x ∷ xs) ys = ground (arith, contains-append a xs ys)

  -- len(set(xs))
  abbrev pub card : List A → ℕ
  card [] = 0
  card (x ∷ xs) = if contains x xs then card xs else suc (card xs)

  pub all_of-contains :
      (p : A → Bool) (a : A) (xs : List A) → all_of p xs ≡ true → contains a xs ≡ true → p a ≡ true
  all_of-contains p a [] h c = absurd (ground arith)
  all_of-contains p a (x ∷ xs) h c = elim (Bool-cases (x == a)) [
    | inl same ↦ rw (← (e.beq_iff x a).0 same) (ground arith)
    | inr other ↦ all_of-contains p a xs (ground arith) (ground arith)
  ]

  pub contains-head : (a : A) (xs : List A) → contains a (a ∷ xs) ≡ true
  contains-head a xs = ground (arith, e.beq_iff a a)

  pub contains-tail : (a x : A) (xs : List A) → contains a xs ≡ true → contains a (x ∷ xs) ≡ true
  contains-tail a x xs h = ground arith

  pub all_of_intro :
      (p : A → Bool) (xs : List A)
      → ((a : A) → contains a xs ≡ true → p a ≡ true)
      → all_of p xs ≡ true
  all_of_intro p [] h = refl
  all_of_intro p (x ∷ xs) h =
      rw (h x (contains-head x xs)) (all_of_intro p xs (λ a c. h a (contains-tail a x xs c)))
