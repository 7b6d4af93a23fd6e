-- ===== src/Table/Guarded.antt =====
-- A load that fails leaves the table as it was: the footer file, and in the table file the bytes of
-- the stripes that the footer lists.
use postgres_vectorization_t.Prelude.{
  Bytes, Option, [], ap, arith, drop, length, length-append, refl, replicate, suc, take, zero, ℕ,
  ◌++◌, ◌+◌, ◌-◌, ◌∙◌, ◌∷◌, ◌≡◌, ◌≤◌,
}
use postgres_vectorization_t.Table.Io.{File, World, put, table_handle, temp_footer_handle}
use postgres_vectorization_t.Table.Keeps.{IsStable}

-- The first `n` bytes of the table file and the footer file are these.
pub record IsUntouched (n : ℕ) (old : Bytes) (footer : Option Bytes) (w : World) : Type 0 where
  pub enough : n ≤ length w.table_file
  pub same_bytes : take n w.table_file ≡ old
  pub same_footer : w.footer_file ≡ footer

-- Also the position is behind them.
pub record IsGuarded (n : ℕ) (old : Bytes) (footer : Option Bytes) (w : World) : Type 0 where
  pub behind : n ≤ w.position
  pub untouched : IsUntouched n old footer w

pub take-append : (n : ℕ) (xs ys : Bytes) → n ≤ length xs → take n (xs ++ ys) ≡ take n xs
take-append zero xs ys h = refl
take-append (suc n) [] ys h = absurd (omega (arith, h))
take-append (suc n) (x ∷ xs) ys h = ap (λ t. x ∷ t) (take-append n xs ys (omega (arith, h)))

pub take-take : (n p : ℕ) (xs : Bytes) → n ≤ p → take n (take p xs) ≡ take n xs
take-take zero p xs h = refl
take-take (suc n) zero xs h = absurd (omega (arith, h))
take-take (suc n) (suc p) [] h = refl
take-take (suc n) (suc p) (x ∷ xs) h = ap (λ t. x ∷ t) (take-take n p xs (omega (arith, h)))

length-take_le : (n p : ℕ) (xs : Bytes) → n ≤ p → n ≤ length xs → n ≤ length (take p xs)
length-take_le zero p xs h k = omega arith
length-take_le (suc n) zero xs h k = absurd (omega (arith, h))
length-take_le (suc n) (suc p) [] h k = absurd (omega (arith, k))
length-take_le (suc n) (suc p) (x ∷ xs) h k =
    omega (arith, length-take_le n p xs (omega (arith, h)) (omega (arith, k)))

module _ (n : ℕ) (old : Bytes) (footer : Option Bytes) where
  pub IsGuarded-stable : IsStable (IsGuarded n old footer)
  IsGuarded-stable = record {
    stable = λ w outcomes h. record {
      behind = h.behind;
      untouched = record {
        enough = h.untouched.enough;
        same_bytes = h.untouched.same_bytes;
        same_footer = h.untouched.same_footer;
      };
    };
  }

  pub put_keeps :
      (file : File) (w : World) (b : Bytes)
      → IsGuarded n old footer w
      → IsGuarded n old footer (put file b w)
  put_keeps table_handle w b h =
      let here = take w.position w.table_file in
      let inside = length-take_le n w.position w.table_file h.behind h.untouched.enough in
      record {
        behind = omega (arith, h.behind);
        untouched = record {
          enough = omega (
            arith,
            inside,
            length-append here (
                replicate (w.position - length w.table_file) 0
                ++ (b ++ drop (w.position + length b) w.table_file)),
          );
          same_bytes =
              take-append n here _ inside
              ∙ take-take n w.position w.table_file h.behind
              ∙ h.untouched.same_bytes;
          same_footer = h.untouched.same_footer;
        };
      }
  put_keeps temp_footer_handle w b h = record {
    behind = h.behind;
    untouched = record {
      enough = h.untouched.enough;
      same_bytes = h.untouched.same_bytes;
      same_footer = h.untouched.same_footer;
    };
  }
