-- ===== src/Planning/Needed.antt =====
-- The column list has exactly the needed columns, in their order.
use mathlib.Core.Bool.{false≢true}
use mathlib.Core.Path.{ap₂, subst}
use postgres_vectorization_t.Planning.{
  column_list, column_loop, find_column, is_column, needed_columns,
}
use postgres_vectorization_t.Prelude.{
  ==_iff, Bool, Bool-cases, List, [], ap, arith, false, inl, inr, leb, ltb, map, none, refl, some,
  suc, sym, true, uint32, zero, ℕ, ◌&&◌, ◌+◌, ◌-◌, ◌<◌, ◌==◌, ◌^◌, ◌||◌, ◌∙◌, ◌∷◌, ◌≡◌, ◌≢◌, ◌⊎◌,
}
use postgres_vectorization_t.Prelude.Int.{negsuc, pos, ℤ}
use postgres_vectorization_t.Rows.Read.{projects}

-- The number of a column.
abbrev pub column_number : ℤ → ℕ
column_number (pos n) = n
column_number (negsuc n) = 0

shift_absent :
    (c n j : ℕ) (x : Bool)
    → (c ≡ j → x ≡ false)
    → (leb (suc c) j && (ltb j (suc c + n) && x)) ≡ (leb c j && (ltb j (c + suc n) && x))
shift_absent c n j false h = ground arith
shift_absent c n j true h = let apart : c ≢ j = λ e. false≢true (sym (h e)) in ground (arith, apart)

shift_present :
    (c n j : ℕ) (x : Bool)
    → (c ≡ j → x ≡ true)
    → (c == j || (leb (suc c) j && (ltb j (suc c + n) && x)))
      ≡ (leb c j && (ltb j (c + suc n) && x))
shift_present c n j true h = ground arith
shift_present c n j false h = let apart : c ≢ j = λ e. false≢true (h e) in ground (arith, apart)

neither : (x y : Bool) → (x || y) ≡ false → (x ≡ false) × (y ≡ false)
neither true y h = absurd (false≢true (sym h))
neither false y h = (refl, h)

module _ {Var : Type 0} (varattno : Var → ℤ) (list_union : List Var → List Var → List Var) where
  -- Whether one of the columns has that number.
  abbrev pub needs : List Var → ℕ → Bool
  needs [] k = false
  needs (v ∷ vs) k = is_column k (varattno v) || needs vs k

  abbrev pub clause_needs : List (List Var) → ℕ → Bool
  clause_needs [] k = false
  clause_needs (clause ∷ clauses) k = needs clause k || clause_needs clauses k

  -- Whether a column list uses the column of that number: by name, or as part of a whole row.
  abbrev pub uses : List Var → ℕ → Bool
  uses [] k = false
  uses (v ∷ vs) k = is_column k (varattno v) || (is_column 0 (varattno v) || uses vs k)

  abbrev pub clause_uses : List (List Var) → ℕ → Bool
  clause_uses [] k = false
  clause_uses (clause ∷ clauses) k = uses clause k || clause_uses clauses k

  uses_named : (vs : List Var) (k : ℕ) → needs vs 0 ≡ false → uses vs k ≡ needs vs k
  uses_named [] k h = refl
  uses_named (v ∷ vs) k h =
      let (named, others) = neither (is_column 0 (varattno v)) (needs vs 0) h in
      rw named (ap (λ x. is_column k (varattno v) || x) (uses_named vs k others))

  clause_uses_named :
      (clauses : List (List Var)) (k : ℕ)
      → clause_needs clauses 0 ≡ false
      → clause_uses clauses k ≡ clause_needs clauses k
  clause_uses_named [] k h = refl
  clause_uses_named (clause ∷ clauses) k h =
      let (named, others) = neither (needs clause 0) (clause_needs clauses 0) h in
      ap₂ ◌||◌ (uses_named clause k named) (clause_uses_named clauses k others)

  -- The columns' numbers.
  abbrev pub numbers_of : List Var → List ℕ
  numbers_of vs = map (λ v. column_number (varattno v)) vs

  is_column-number : (k : ℕ) (z : ℤ) → is_column k z ≡ true → column_number z ≡ k
  is_column-number k (pos n) e = (==_iff n k).0 e
  is_column-number k (negsuc n) e = absurd (false≢true e)

  find_column_lem :
      (k : ℕ) (vs : List Var)
      → ((needs vs k ≡ false) × (find_column varattno list_union k vs ≡ none))
        ⊎ ((v : Var) × (needs vs k ≡ true)
            × (find_column varattno list_union k vs ≡ some v)
            × (column_number (varattno v) ≡ k))
  unfolding find_column
  find_column_lem k [] = inl (refl, refl)
  find_column_lem k (v ∷ vs) = elim (Bool-cases (is_column k (varattno v))) [
    | inl e ↦ inr (v, rw e refl, rw e refl, is_column-number k (varattno v) e)
    | inr e ↦ elim (find_column_lem k vs) [
      | inl (p, q) ↦ inl (rw e p, rw e q)
      | inr (u, p, q, r) ↦ inr (u, rw e p, rw e q, r)
    ]
  ]

  column_loop_lem :
      (n c j : ℕ) (vs : List Var)
      → c + n < 2 ^ 31
      → projects (numbers_of (column_loop varattno list_union n (suc c) vs)) j
        ≡ (leb c j && (ltb j (c + n) && needs vs (suc j)))
  unfolding column_loop
  column_loop_lem zero c j vs small = ground arith
  column_loop_lem (suc n) c j vs small =
      let after : suc c + 1 ≡ suc (suc c) = omega arith in
      let rest : projects (numbers_of (column_loop varattno list_union n (suc c + 1) vs)) j
          ≡ (leb (suc c) j && (ltb j (suc c + n) && needs vs (suc j))) =
        ap (λ k. projects (numbers_of (column_loop varattno list_union n k vs)) j) after
        ∙ column_loop_lem n (suc c) j vs (omega (arith, small)) in
      elim (find_column_lem (suc c) vs) [
        | inl (absent, found) ↦ rw found (
            rest
            ∙ shift_absent c n j (needs vs (suc j))
                (λ e. subst (λ k. needs vs (suc k) ≡ false) e absent))
        | inr (v, present, found, number) ↦
            let index : uint32 (column_number (varattno v) + 2 ^ 32 - 1) ≡ c =
              omega (arith, number, small) in
            rw (found, index)
              (ap (λ r. c == j || r) rest
                ∙ shift_present c n j (needs vs (suc j))
                    (λ e. subst (λ k. needs vs (suc k) ≡ true) e present))
      ]

  needed_columns_lem :
      ((a b : List Var) (k : ℕ) → needs (list_union a b) k ≡ (needs a k || needs b k))
      → (needed : List Var) (clauses : List (List Var)) (k : ℕ)
      → needs (needed_columns varattno list_union needed clauses) k
        ≡ (needs needed k || clause_needs clauses k)
  unfolding needed_columns
  needed_columns_lem union needed [] k = ground arith
  needed_columns_lem union needed (clause ∷ clauses) k =
      needed_columns_lem union (list_union needed clause) clauses k
      ∙ ap (λ x. x || clause_needs clauses k) (union needed clause k)
      ∙ or_assoc (needs needed k) (needs clause k) (clause_needs clauses k)
    where
      or_assoc : (x y z : Bool) → ((x || y) || z) ≡ (x || (y || z))
      or_assoc true y z = refl
      or_assoc false y z = refl

  -- For a `list_union` whose columns are those of either list, a column count below 2 ^ 31, and a
  -- query without whole-row references: the scan projects the column of index `j` exactly if `j` is
  -- below the column count, and column `j + 1` is a target of the query or is used by one of its
  -- restriction clauses.
  pub column_list-projects :
      ((a b : List Var) (k : ℕ) → needs (list_union a b) k ≡ (needs a k || needs b k))
      → (column_count : ℕ) (targets : List Var) (clauses : List (List Var)) (j : ℕ)
      → column_count < 2 ^ 31
      → needs targets 0 ≡ false
      → clause_needs clauses 0 ≡ false
      → projects (numbers_of (column_list varattno list_union column_count targets clauses)) j
        ≡ (ltb j column_count && (uses targets (suc j) || clause_uses clauses (suc j)))
  unfolding column_list
  column_list-projects union column_count targets clauses j small named clause_named =
      column_loop_lem column_count 0 j (needed_columns varattno list_union targets clauses)
        (omega (arith, small))
      ∙ from_start column_count j _
      ∙ ap (λ x. ltb j column_count && x)
          (needed_columns_lem union targets clauses (suc j)
            ∙ sym (
                ap₂ ◌||◌ (uses_named targets (suc j) named)
                  (clause_uses_named clauses (suc j) clause_named)))
    where
      from_start : (n j : ℕ) (x : Bool) → (leb 0 j && (ltb j (0 + n) && x)) ≡ (ltb j n && x)
      from_start n j true = ground arith
      from_start n j false = ground arith
