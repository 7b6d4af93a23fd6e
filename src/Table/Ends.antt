-- ===== src/Table/Ends.antt =====
-- What holds of the files when a call ends: one thing if it ends with a value, another if it ends
-- by a report.
use mathlib.Core.Path.{subst}
use postgres_vectorization_t.Prelude.{
  Bool, false, if◌then◌else◌, inl, inr, refl, sym, true, ◌≡◌, ◌⊎◌,
}
use postgres_vectorization_t.Report.{Error, Result, err, ok}
use postgres_vectorization_t.Table.Io.{Io, World, lift, then_io, ◌>>=◌}
use postgres_vectorization_t.Table.Keeps.{Keeps}

module _ {A : Type 0} where
  abbrev pub After : (A → World → Type 0) → (World → Type 0) → Result A × World → Type 0
  After Q E (ok a, w) = Q a w
  After Q E (err e, w) = E w

  -- A call that starts where `P` holds.
  pub record Ends (P : World → Type 0) (Q : A → World → Type 0) (E : World → Type 0) (m : Io A)
      : Type 0 where
    pub after : (w : World) → P w → After Q E (m w)

  pub After-cases :
      (Q : A → World → Type 0) (E : World → Type 0) (r : Result A × World)
      → After Q E r
      → ((a : A) × (r.0 ≡ ok a) × Q a r.1) ⊎ ((e : Error) × (r.0 ≡ err e) × E r.1)
  After-cases Q E (ok a, w) h = inl (a, refl, h)
  After-cases Q E (err e, w) h = inr (e, refl, h)

weaken-After :
    {A : Type 0} (Q R : A → World → Type 0) (E : World → Type 0) (r : Result A × World)
    → ((a : A) (w : World) → Q a w → R a w)
    → After Q E r
    → After R E r
weaken-After Q R E (ok a, w) weaken h = weaken a w h
weaken-After Q R E (err e, w) weaken h = h

module _ {E : World → Type 0} where
  pub lift-Ends :
      {A : Type 0} {P : World → Type 0} (r : Result A)
      → ((w : World) → P w → E w)
      → Ends P (λ a w. P w × (r ≡ ok a)) E (lift r)
  lift-Ends (ok a) weaken = record { after = λ w h. (h, refl) }
  lift-Ends (err e) weaken = record { after = weaken }

  Keeps-After :
      {A : Type 0} {P : World → Type 0} (r : Result A × World)
      → ((w : World) → P w → E w)
      → P r.1
      → After (λ _ w. P w) E r
  Keeps-After (ok a, w) weaken h = h
  Keeps-After (err e, w) weaken h = weaken w h

  -- A call that keeps a predicate.
  pub Keeps-Ends :
      {A : Type 0} {P : World → Type 0} {m : Io A}
      → ((w : World) → P w → E w)
      → Keeps P m
      → Ends P (λ _ w. P w) E m
  Keeps-Ends {m = m} weaken keeps = record {
    after = λ w h. Keeps-After (m w) weaken (keeps.after w h);
  }

  then_io-After :
      {A B : Type 0} {Q : A → World → Type 0} {R : B → World → Type 0} (r : Result A × World)
      (next : A → Io B)
      → After Q E r
      → ((a : A) → Ends (Q a) R E (next a))
      → After R E (then_io r next)
  then_io-After (ok a, w) next h rest = (rest a).after w h
  then_io-After (err e, w) next h rest = h

  pub bind-Ends :
      {A B : Type 0} {P : World → Type 0} {Q : A → World → Type 0} {R : B → World → Type 0}
      (m : Io A) (next : A → Io B)
      → Ends P Q E m
      → ((a : A) → Ends (Q a) R E (next a))
      → Ends P R E (m >>= next)
  bind-Ends m next ends rest = record {
    after = λ w h. then_io-After (m w) next (ends.after w h) rest;
  }

  pub if-Ends :
      {A : Type 0} {P : World → Type 0} {Q : A → World → Type 0} (b : Bool) (m n : Io A)
      → Ends P Q E m
      → Ends P Q E n
      → Ends P Q E (if b then m else n)
  if-Ends true m n ends others = ends
  if-Ends false m n ends others = others

  pub weaken-Ends :
      {A : Type 0} {P : World → Type 0} {Q R : A → World → Type 0} (m : Io A)
      → Ends P Q E m
      → ((a : A) (w : World) → Q a w → R a w)
      → Ends P R E m
  weaken-Ends {Q = Q} {R = R} m ends weaken = record {
    after = λ w h. weaken-After Q R E (m w) weaken (ends.after w h);
  }

  -- A step whose value is known.
  pub known-Ends :
      {A B : Type 0} {P : World → Type 0} {Q : B → World → Type 0} (r : Result A) (next : A → Io B)
      {a : A}
      → r ≡ ok a
      → Ends P Q E (next a)
      → Ends P Q E (lift r >>= next)
  known-Ends {P = P} {Q = Q} r next e ends = subst (λ r. Ends P Q E (lift r >>= next)) (sym e) ends

  -- A step, and what follows for each value that it can have.
  pub each-Ends :
      {A B : Type 0} {P : World → Type 0} {Q : B → World → Type 0} (r : Result A) (next : A → Io B)
      → ((w : World) → P w → E w)
      → ((a : A) → r ≡ ok a → Ends P Q E (next a))
      → Ends P Q E (lift r >>= next)
  each-Ends (ok a) next weaken rest = record { after = λ w h. (rest a refl).after w h }
  each-Ends (err e) next weaken rest = record { after = weaken }

weaken_error :
    {A : Type 0} (Q : A → World → Type 0) (E F : World → Type 0) (r : Result A × World)
    → ((w : World) → E w → F w)
    → After Q E r
    → After Q F r
weaken_error Q E F (ok a, w) weaken h = h
weaken_error Q E F (err e, w) weaken h = weaken w h

pub error-Ends :
    {A : Type 0} {P : World → Type 0} {Q : A → World → Type 0} {E F : World → Type 0} (m : Io A)
    → Ends P Q E m
    → ((w : World) → E w → F w)
    → Ends P Q F m
error-Ends {Q = Q} {E = E} {F = F} m ends weaken = record {
  after = λ w h. weaken_error Q E F (m w) weaken (ends.after w h);
}
