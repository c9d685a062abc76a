-- ===== src/Reader/Inline/Simulates.antt =====
-- One reader that succeeds wherever another does, with a result computed from the other's.
use gsym_rs.Prelude.{◌≡◌, refl, ap, ◌∙◌, inl, inr, Bool, true, false, Option, none, some, List, ℕ}
use mathlib.Core.Path.{subst}
use gsym_rs.Error.{Error, Result, ok, err, ok_or, guard, Result-cases, ok_injective, and_then-ok}
use gsym_rs.Endian.Cursor.{Cursor, Read, ◌>>=◌, ◌>>◌, pure, lift, gets, is_empty, new}
use gsym_rs.Endian.Order.{Endian}
use gsym_rs.Format.Function.{to_end, whole}

pub record Simulates {A B : Type 0} (m : Read A) (n : Read B) (f : A → B) : Type 0 where
  pub follow : (c c' : Cursor) (a : A) → m c ≡ ok (a, c') → n c ≡ ok (f a, c')

pub Simulates-pure :
    {A B : Type 0} {f : A → B} (a : A) {b : B} → b ≡ f a → Simulates (pure a) (pure b) f
Simulates-pure {f = f} a {b = b} same = record {
  follow = λ c c' x h.
      let pair : (a, c) ≡ (x, c') = ok_injective h in
      ap (λ t. ok (t, c)) same ∙ ap (λ t. ok (f (t.0), t.1)) pair;
}

-- The two go on from results that correspond.
pub Simulates-bind :
    {A B C D : Type 0} {m : Read A} {n : Read B} {g : A → B} {f : C → D} {k : A → Read C}
    (k' : B → Read D)
    → Simulates m n g
    → ((a : A) → Simulates (k a) (k' (g a)) f)
    → Simulates (m >>= k) (n >>= k') f
Simulates-bind {m = m} k' s t = record {
  follow = λ c c' x h. elim (Result-cases (m c)) [
    | inl ((a, d), p) ↦ rw (s.follow c d a p) ((t a).follow d c' x (rw p at h))
    | inr (e, p) ↦ cc (rw p at h)
  ];
}

-- Both read the same.
pub Simulates-both :
    {A C D : Type 0} (m : Read A) {f : C → D} {k : A → Read C} {k' : A → Read D}
    → ((a : A) → Simulates (k a) (k' a) f)
    → Simulates (m >>= k) (m >>= k') f
Simulates-both m {k' = k'} t = Simulates-bind k' (record { follow = λ c c' a h. h }) t

-- The first one's check, whose result the second does not need.
pub Simulates-left :
    {A C D : Type 0} (r : Result A) {n : Read D} {f : C → D} {k : A → Read C}
    → ((a : A) → r ≡ ok a → Simulates (k a) n f)
    → Simulates (lift r >>= k) n f
Simulates-left (ok a) t = record { follow = λ c c' x h. (t a refl).follow c c' x h }
Simulates-left (err e) t = record { follow = λ c c' x h. cc }

-- The second one's check passes.
pub Simulates-right :
    {A C D : Type 0} (r : Result A) (a : A) {m : Read C} {f : C → D} (k : A → Read D)
    → r ≡ ok a
    → Simulates m (k a) f
    → Simulates m (lift r >>= k) f
Simulates-right r a k passes t = record { follow = λ c c' x h. rw passes (t.follow c c' x h) }

-- The first one changes its result at the end.
pub Simulates-map :
    {A B C : Type 0} {m : Read A} {n : Read C} (h : A → B) {f : B → C}
    → Simulates m n (λ a. f (h a))
    → Simulates (m >>= λ a. pure (h a)) n f
Simulates-map {m = m} h {f = f} s = record {
  follow = λ c c' x e. elim (Result-cases (m c)) [
    | inl ((a, d), p) ↦
        let pair : (h a, d) ≡ (x, c') = ok_injective (rw p at e) in
        s.follow c d a p ∙ ap (λ t. ok (f (t.0), t.1)) pair
    | inr (y, p) ↦ cc (rw p at e)
  ];
}

-- The first one fails.
pub Simulates-err :
    {A B : Type 0} {n : Read B} {f : A → B} (e : _) → Simulates {A = A} (lift (err e)) n f
Simulates-err e = record { follow = λ c c' x h. cc }

-- Both make the same check, each with an error of its own.
pub Simulates-ok_or :
    {A C D : Type 0} (o : Option A) (e e' : Error) {f : C → D} {k : A → Read C} {k' : A → Read D}
    → ((a : A) → o ≡ some a → Simulates (k a) (k' a) f)
    → Simulates (lift (ok_or o e) >>= k) (lift (ok_or o e') >>= k') f
Simulates-ok_or none e e' t = record { follow = λ c c' x h. cc }
Simulates-ok_or (some a) e e' t = record { follow = λ c c' x h. (t a refl).follow c c' x h }

pub Simulates-guard :
    {C D : Type 0} (test : Bool) (e e' : Error) {f : C → D} {m : Read C} {n : Read D}
    → Simulates m n f
    → Simulates (lift (guard test e) >> m) (lift (guard test e') >> n) f
Simulates-guard false e e' t = record { follow = λ c c' x h. cc }
Simulates-guard true e e' t = record { follow = λ c c' x h. t.follow c c' x h }

pub Simulates-cast :
    {A B : Type 0} {m : Read A} {n : Read B} {f g : A → B}
    → ((a : A) → f a ≡ g a)
    → Simulates m n f
    → Simulates m n g
Simulates-cast {f = f} {g = g} same s = record {
  follow = λ c c' a h. s.follow c c' a h ∙ ap (λ t. ok (t, c')) (same a);
}

-- A property of every result of a reader.
pub record Always {A : Type 0} (m : Read A) (P : A → Type 0) : Type 0 where
  pub holds : (c c' : Cursor) (a : A) → m c ≡ ok (a, c') → P a

pub Always-pure : {A : Type 0} {P : A → Type 0} (a : A) → P a → Always (pure a) P
Always-pure {P = P} a p = record {
  holds = λ c c' x h. let pair : (a, c) ≡ (x, c') = ok_injective h in subst (λ t. P (t.0)) pair p;
}

pub Always-bind :
    {A B : Type 0} {P : B → Type 0} (m : Read A) {k : A → Read B}
    → ((a : A) → Always (k a) P)
    → Always (m >>= k) P
Always-bind m t = record {
  holds = λ c c' x h. elim (Result-cases (m c)) [
    | inl ((a, d), p) ↦ (t a).holds d c' x (rw p at h)
    | inr (e, p) ↦ cc (rw p at h)
  ];
}

-- The same as `Simulates-bind`, where what follows needs a property of the first result.
pub Simulates-after :
    {A B C D : Type 0} {m : Read A} {n : Read B} {P : A → Type 0} {g : A → B} {f : C → D}
    {k : A → Read C} (k' : B → Read D)
    → Always m P
    → Simulates m n g
    → ((a : A) → P a → Simulates (k a) (k' (g a)) f)
    → Simulates (m >>= k) (n >>= k') f
Simulates-after {m = m} k' always s t = record {
  follow = λ c c' x h. elim (Result-cases (m c)) [
    | inl ((a, d), p) ↦
        rw (s.follow c d a p) ((t a (always.holds c d a p)).follow d c' x (rw p at h))
    | inr (e, p) ↦ cc (rw p at h)
  ];
}

pub Simulates-assoc :
    {A B C D : Type 0} (m : Read A) (k : A → Read B) (h : B → Read C) {n : Read D} {f : C → D}
    → Simulates (m >>= λ a. k a >>= h) n f
    → Simulates ((m >>= k) >>= h) n f
Simulates-assoc m k h s = record {
  follow = λ c c' x e. elim (Result-cases (m c)) [
    | inl ((a, d), p) ↦ s.follow c c' x (rw p (rw p at e))
    | inr (y, p) ↦ cc (rw p at e)
  ];
}

-- What the first one asks of the cursor.
pub Simulates-gets :
    {A C D : Type 0} (ask : Cursor → A) {k : A → Read C} {n : Read D} {f : C → D}
    → ((a : A) → Simulates (k a) n f)
    → Simulates (gets ask >>= k) n f
Simulates-gets ask t = record { follow = λ c c' x h. (t (ask c)).follow c c' x h }

pub Simulates-to_end :
    {A B : Type 0} (e e' : Error) {m : Read A} {n : Read B} {f : A → B}
    → Simulates m n f
    → Simulates (to_end e m) (to_end e' n) f
Simulates-to_end e e' {n = n} s =
    Simulates-bind (λ b. gets is_empty >>= λ done. lift (guard done e') >> pure b) s
      (λ a.
        Simulates-both (gets is_empty) (λ done. Simulates-guard done e e' (Simulates-pure a refl)))

pub Simulates-whole :
    {A B : Type 0} {m : Read A} {n : Read B} {f : A → B} (bytes : List ℕ) (endian : Endian) {a : A}
    → Simulates m n f
    → whole m bytes endian ≡ ok a
    → whole n bytes endian ≡ ok (f a)
Simulates-whole {m = m} {n = n} {f = f} bytes endian {a = a} s h =
    let ((b, d), p, q) = and_then-ok (m (new bytes endian)) _ h in
    rw (s.follow (new bytes endian) d b p) (ap (λ t. ok (f t)) (ok_injective q))
