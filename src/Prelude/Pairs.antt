-- ===== src/Prelude/Pairs.antt =====
-- Relations between all pairs of a list, and properties of all its elements.
use mathlib.Core.List.{List, [], ◌∷◌, ◌++◌}
use gsym_rs.Prelude.Lists.{All}

module _ {ℓ κ} {A : Type ℓ} where
  -- Each element stands in the relation to all that come after it.
  abbrev pub Pairwise : (A → A → Type κ) → List A → Type κ
  Pairwise R [] = Unit
  Pairwise R (x ∷ xs) = All (R x) xs × Pairwise R xs

module _ {ℓ κ} {A : Type ℓ} (P : A → Type κ) where
  pub All-append : (xs ys : List A) → All P xs → All P ys → All P (xs ++ ys)
  All-append [] ys h k = k
  All-append (x ∷ xs) ys (p, h) k = (p, All-append xs ys h k)

  pub All-map {μ} : {Q : A → Type μ} → ((x : A) → Q x → P x) → (xs : List A) → All Q xs → All P xs
  All-map f [] h = tt
  All-map f (x ∷ xs) (q, h) = (f x q, All-map f xs h)

  pub All-from : ((x : A) → P x) → (xs : List A) → All P xs
  All-from f [] = tt
  All-from f (x ∷ xs) = (f x, All-from f xs)

module _ {ℓ κ} {A : Type ℓ} (R : A → A → Type κ) where
  pub Pairwise-snoc :
      (xs : List A) (x : A) → Pairwise R xs → All (λ a. R a x) xs → Pairwise R (xs ++ x ∷ [])
  Pairwise-snoc [] x h k = (tt, tt)
  Pairwise-snoc (y ∷ ys) x (h, hs) (k, ks) =
      (All-append (R y) ys (x ∷ []) h (k, tt), Pairwise-snoc ys x hs ks)
