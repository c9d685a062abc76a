-- ===== src/Reader/Lookup/Yields.antt =====
-- A reader that, wherever another one succeeds, stops at the same place with what a function makes of
-- the other's result, be it an error.
use gsym_rs.Prelude.{ℕ, ◌≡◌, refl, sym, ap, ◌∙◌, inl, inr, Bool, true, false, List}
use gsym_rs.Error.{Error, Result, ok, err, guard, Result-cases, ok_injective, and_then, and_then-ok}
use gsym_rs.Endian.Order.{Endian}
use gsym_rs.Endian.Cursor.{Cursor, Read, ◌>>=◌, ◌>>◌, pure, lift, gets, is_empty, new}
use gsym_rs.Format.Function.{to_end, whole}
use gsym_rs.Reader.Inline.Simulates.{Always, Always-pure, Always-bind}

pub record Yields {A B : Type 0} (m : Read A) (n : Read B) (f : A → Result B) : Type 0 where
  pub follow : (c c' : Cursor) (a : A) → m c ≡ ok (a, c') → n c ≡ and_then (f a) (λ b. ok (b, c'))

pub Yields-pure :
    {A B : Type 0} {f : A → Result B} (a : A) {b : B} → f a ≡ ok b → Yields (pure a) (pure b) f
Yields-pure {f = f} a same = record {
  follow = λ c c' x h.
      let pair : (a, c) ≡ (x, c') = ok_injective h in
      sym (ap (λ t. and_then t (λ b. ok (b, c))) same)
      ∙ ap (λ t. and_then (f (t.0)) (λ b. ok (b, t.1))) pair;
}

pub Yields-cast :
    {A B : Type 0} {m : Read A} {n : Read B} {f g : A → Result B}
    → ((a : A) → f a ≡ g a)
    → Yields m n f
    → Yields m n g
Yields-cast same s = record {
  follow = λ c c' a h. s.follow c c' a h ∙ ap (λ t. and_then t (λ b. ok (b, c'))) (same a);
}

-- The second one fails, as the function does on every result of the first.
pub Yields-err :
    {A B : Type 0} (m : Read A) {f : A → Result B} (e : Error)
    → ((a : A) → f a ≡ err e)
    → Yields m (lift (err e)) f
Yields-err m e fails = record {
  follow = λ c c' a h. sym (ap (λ t. and_then t (λ b. ok (b, c'))) (fails a));
}

-- Both read the same.
pub Yields-both :
    {A C D : Type 0} (m : Read A) {f : C → Result D} {k : A → Read C} {k' : A → Read D}
    → ((a : A) → Yields (k a) (k' a) f)
    → Yields (m >>= k) (m >>= k') f
Yields-both m t = record {
  follow = λ c c' x h. elim (Result-cases (m c)) [
    | inl ((a, d), p) ↦ rw p ((t a).follow d c' x (rw p at h))
    | inr (e, p) ↦ cc (rw p at h)
  ];
}

pub Yields-left :
    {A C D : Type 0} (r : Result A) {n : Read D} {f : C → Result D} {k : A → Read C}
    → ((a : A) → Yields (k a) n f)
    → Yields (lift r >>= k) n f
Yields-left (ok a) t = record { follow = λ c c' x h. (t a).follow c c' x h }
Yields-left (err e) t = record { follow = λ c c' x h. cc }

pub Yields-gets :
    {A C D : Type 0} (ask : Cursor → A) {k : A → Read C} {n : Read D} {f : C → Result D}
    → ((a : A) → Yields (k a) n f)
    → Yields (gets ask >>= k) n f
Yields-gets ask t = record { follow = λ c c' x h. (t (ask c)).follow c c' x h }

pub Yields-guard :
    {C D : Type 0} (test : Bool) (e e' : Error) {f : C → Result D} {m : Read C} {n : Read D}
    → Yields m n f
    → Yields (lift (guard test e) >> m) (lift (guard test e') >> n) f
Yields-guard false e e' t = record { follow = λ c c' x h. cc }
Yields-guard true e e' t = record { follow = λ c c' x h. t.follow c c' x h }

pub Yields-map :
    {A B C : Type 0} {m : Read A} {n : Read C} (h : A → B) {f : B → Result C}
    → Yields m n (λ a. f (h a))
    → Yields (m >>= λ a. pure (h a)) n f
Yields-map {m = m} h {f = f} s = record {
  follow = λ c c' x e. elim (Result-cases (m c)) [
    | inl ((a, d), p) ↦
        let pair : (h a, d) ≡ (x, c') = ok_injective (rw p at e) in
        s.follow c d a p ∙ ap (λ t. and_then (f (t.0)) (λ b. ok (b, t.1))) pair
    | inr (y, p) ↦ cc (rw p at e)
  ];
}

-- One after the other: what the first function makes of its result goes into the second.
pub Yields-bind :
    {A B C D : Type 0} {m : Read A} {n : Read B} {k : A → Read C} (k' : B → Read D)
    {f : A → Result B} {g : C → Result D} (h : A → B → C → Result D)
    → Yields m n f
    → ((a : A) (b : B) → Yields (k a) (k' b) (h a b))
    → ((a : A) → Always (k a) (λ x. g x ≡ and_then (f a) (λ b. h a b x)))
    → Yields (m >>= k) (n >>= k') g
Yields-bind {m = m} {n = n} {k = k} k' {f = f} {g = g} h s t u = record {
  follow = λ c c' x e. elim (Result-cases (m c)) [
    | inl ((a, d), p) ↦
        let after : k a d ≡ ok (x, c') = rw p at e in
        let joined = (u a).holds d c' x after in
        elim (Result-cases (f a)) [
          | inl (b, q) ↦
              let first : n c ≡ ok (b, d) =
                s.follow c d a p ∙ ap (λ t. and_then t (λ y. ok (y, d))) q in
              rw first ((t a b).follow d c' x after)
              ∙ sym (
                  ap (λ t. and_then t (λ y. ok (y, c')))
                    (joined ∙ ap (λ t. and_then t (λ y. h a y x)) q))
          | inr (y, q) ↦
              let first : n c ≡ err y =
                s.follow c d a p ∙ ap (λ t. and_then t (λ b. ok (b, d))) q in
              rw first refl
              ∙ sym (
                  ap (λ t. and_then t (λ b. ok (b, c')))
                    (joined ∙ ap (λ t. and_then t (λ b. h a b x)) q))
        ]
    | inr (y, p) ↦ cc (rw p at e)
  ];
}

and_then_self : {A : Type 0} (r : Result A) → r ≡ and_then r (λ a. ok a)
and_then_self (ok a) = refl
and_then_self (err e) = refl

pub Yields-to_end :
    {A B : Type 0} (e e' : Error) {m : Read A} {n : Read B} {f : A → Result B}
    → Yields m n f
    → Yields (to_end e m) (to_end e' n) f
Yields-to_end e e' {f = f} s =
    Yields-bind (λ b. gets is_empty >>= λ done. lift (guard done e') >> pure b) (λ _ b _. ok b) s
      (λ a b. Yields-both (gets is_empty) (λ done. Yields-guard done e e' (Yields-pure a refl)))
      (λ a.
        Always-bind (gets is_empty)
          (λ done. Always-bind (lift (guard done e)) (λ _. Always-pure a (and_then_self (f a)))))

pub Yields-whole :
    {A B : Type 0} {m : Read A} {n : Read B} {f : A → Result B} (bytes : List ℕ) (endian : Endian)
    {a : A}
    → Yields m n f
    → whole m bytes endian ≡ ok a
    → whole n bytes endian ≡ f a
Yields-whole {m = m} {f = f} bytes endian {a = a} s h =
    let ((x, d), p, q) = and_then-ok (m (new bytes endian)) _ h in
    rw (s.follow (new bytes endian) d x p) (forget (f x) d ∙ ap f (ok_injective q))
  where
    forget :
        {B : Type 0} (r : Result B) (d : Cursor)
        → and_then (and_then {B = B × Cursor} r (λ b. ok (b, d))) (λ t. ok (t.0)) ≡ r
    forget (ok b) d = refl
    forget (err e) d = refl
