-- ===== src/Report.antt =====
-- How a call of the extension ends: with a value, or with one of the reports that the files
-- cstore_fdw.c, cstore_reader.c, cstore_writer.c and cstore_metadata_serialization.c raise by
-- `ereport(ERROR, …)`. `out_of_bounds` stands for undefined behaviour: a read or a write of a C
-- array past its end.
use postgres_vectorization_t.Prelude.{
  Bool, List, Option, [], ap, arith, false, get_elem?, inl, inr, leb, length, le→leb, none, refl,
  some, suc, take, take-all, true, zero, ℕ, ◌∷◌, ◌≡◌, ◌⊎◌,
}

pub data Error : Type 0 where
  out_of_bounds : Error
  insufficient_bool_data insufficient_datum_data : Error
  could_not_read could_not_write could_not_seek file_error : Error
  could_not_open could_not_close could_not_flush could_not_sync could_not_rename : Error
  invalid_cstore_file invalid_postscript_size invalid_footer_size : Error
  invalid_postscript_buffer invalid_version invalid_magic : Error
  invalid_table_footer_buffer missing_footer_fields invalid_block_row_count : Error
  missing_stripe_fields : Error
  invalid_stripe_footer_buffer size_array_mismatch column_count_mismatch : Error
  invalid_skip_list_buffer block_count_mismatch : Error
  missing_node_fields min_max_mismatch : Error
  cannot_decompress malformed_lz4 null_buffer : Error
  invalid_alloc : Error
  enclave_error : ℕ → Error
  bigint_out_of_range expected_int8_array expected_numeric_array expected_float8_array : Error
  invalid_option invalid_compression invalid_stripe_row_count filename_required : Error

-- A value, or the report that ended the call.
pub data Result {ℓ} (Value : Type ℓ) : Type ℓ where
  ok : Value → Result Value
  err : Error → Result Value

-- `if (!condition) ereport(ERROR, report);`
abbrev pub guard : Bool → Error → Result (Unit {0})
guard true report = ok tt
guard false report = err report

-- One step after another; a report ends both.
infixl 5 ◌>>=◌ ◌>>◌
abbrev pub ◌>>=◌ {ℓ κ} :
    {Value : Type ℓ} {Next : Type κ} → Result Value → (Value → Result Next) → Result Next
ok value >>= next = next value
err report >>= next = err report

abbrev pub ◌>>◌ {ℓ} : {Next : Type ℓ} → Result (Unit {0}) → Result Next → Result Next
check >> next = check >>= λ _. next

abbrev pub of_option {ℓ} : {A : Type ℓ} → Option A → Error → Result A
of_option none e = err e
of_option (some a) e = ok a

-- `xs[i]`
abbrev pub nth {ℓ} : {A : Type ℓ} → List A → ℕ → Result A
nth xs i = of_option (get_elem? xs i) out_of_bounds

-- The first `n` elements of an array, all of which are read.
abbrev pub first {ℓ} : {A : Type ℓ} → ℕ → List A → Result (List A)
first n xs = guard (leb n (length xs)) out_of_bounds >> ok (take n xs)

pub >>=-eq-ok {ℓ κ} :
    {Value : Type ℓ} {Next : Type κ} (first_step : Result Value) (next : Value → Result Next)
    {outcome : Next}
    → (first_step >>= next) ≡ ok outcome
    → (value : Value) × (first_step ≡ ok value) × (next value ≡ ok outcome)
>>=-eq-ok (ok value) next ended = (value, refl, ended)
>>=-eq-ok (err report) next ended = cc

pub Result-cases {ℓ} :
    {A : Type ℓ} (r : Result A) → ((a : A) × (r ≡ ok a)) ⊎ ((e : Error) × (r ≡ err e))
Result-cases (ok a) = inl (a, refl)
Result-cases (err e) = inr (e, refl)

pub ok_injective {ℓ} : {A : Type ℓ} {a b : A} → ok a ≡ ok b → a ≡ b
ok_injective {A} {a} {b} e = cc

pub of_option-eq-ok {ℓ} :
    {A : Type ℓ} (found : Option A) (e : Error) {a : A} → of_option found e ≡ ok a → found ≡ some a
of_option-eq-ok none e h = cc
of_option-eq-ok (some a) e h = ap some (ok_injective h)

pub nth-eq-ok {ℓ} :
    {A : Type ℓ} (xs : List A) (i : ℕ) {x : A} → nth xs i ≡ ok x → get_elem? xs i ≡ some x
nth-eq-ok [] i e = cc
nth-eq-ok (x ∷ xs) zero e = ap some (ok_injective e)
nth-eq-ok (x ∷ xs) (suc i) e = nth-eq-ok xs i e

pub first_lem {ℓ} : {A : Type ℓ} (n : ℕ) (xs : List A) → length xs ≡ n → first n xs ≡ ok xs
first_lem n xs h =
    let inside : leb n (length xs) ≡ true = le→leb n (length xs) (omega (arith, h)) in
    rw inside (ap ok (take-all n xs h))

-- A statement about the result, if there is one.
abbrev pub WhenOk {ℓ} : {A : Type ℓ} → (A → Type 0) → Result A → Type 0
WhenOk P (ok a) = P a
WhenOk P (err e) = Unit

pub guard-eq-ok : (b : Bool) (e : Error) {u : Unit {0}} → guard b e ≡ ok u → b ≡ true
guard-eq-ok true e h = refl
guard-eq-ok false e h = cc
