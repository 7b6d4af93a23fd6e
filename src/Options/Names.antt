-- ===== src/Options/Names.antt =====
-- Which option names are accepted.
use mathlib.Core.Bool.{false≢true}
use mathlib.Core.Path.{subst}
use postgres_vectorization_t.Metadata.Footers.{namedatalen, strncmp_equal}
use postgres_vectorization_t.Metadata.Footers.RoundTrip.{strncmp_sound}
use postgres_vectorization_t.Options.Get.{
  Collected, DefElem, collect, collect_options, cstore_fdw_validator, option_name_block_row_count,
  option_name_compression_type, option_name_filename, option_name_stripe_row_count, option_valid,
  valid_option_array,
}
use postgres_vectorization_t.Prelude.{
  ==_iff, All, Bool, Bool-cases, Bytes, List, [], arith, false, inl, inr, length, none, refl, sym,
  true, ℕ, ◌&&◌, ◌<◌, ◌==◌, ◌||◌, ◌∙◌, ◌∷◌, ◌≡◌,
}
use postgres_vectorization_t.Prelude.Int.{ℤ}
use postgres_vectorization_t.Report.{>>=-eq-ok, Result, guard, guard-eq-ok, invalid_option, ok}

-- One of the names of the options of a foreign table.
pub data IsOptionName : Bytes → Type 0 where
  names_filename : IsOptionName option_name_filename
  names_compression_type : IsOptionName option_name_compression_type
  names_stripe_row_count : IsOptionName option_name_stripe_row_count
  names_block_row_count : IsOptionName option_name_block_row_count

module _ (foreign_table_relation_id context : ℕ) where
  -- A valid option in a context.
  abbrev pub IsValidOption : DefElem → Type 0
  IsValidOption option = (context ≡ foreign_table_relation_id) × IsOptionName option.defname

  valid_head :
      (name valid : Bytes) (rest : Bool)
      → IsOptionName valid
      → length valid < 64
      → (rest ≡ true → (context ≡ foreign_table_relation_id) × IsOptionName name)
      → ((context == foreign_table_relation_id && strncmp_equal name valid namedatalen) || rest)
        ≡ true
      → (context ≡ foreign_table_relation_id) × IsOptionName name
  valid_head name valid rest named short others e =
      elim (Bool-cases (context == foreign_table_relation_id)) [
        | inr other ↦ others (sym (rw other refl) ∙ e)
        | inl same ↦ elim (Bool-cases (strncmp_equal name valid namedatalen)) [
          | inr differs ↦ others (sym (rw (same, differs) refl) ∙ e)
          | inl equal ↦ (
            (==_iff _ _).0 same,
            subst IsOptionName (sym (strncmp_sound name valid namedatalen short equal)) named,
          )
        ]
      ]

  option_valid_sound :
      (name : Bytes)
      → option_valid context name (valid_option_array foreign_table_relation_id) ≡ true
      → (context ≡ foreign_table_relation_id) × IsOptionName name
  unfolding option_valid
  option_valid_sound name e =
      valid_head name option_name_filename _ names_filename (omega arith)
        (valid_head name option_name_compression_type _ names_compression_type (omega arith) (
          valid_head name option_name_stripe_row_count _ names_stripe_row_count (omega arith) (
            valid_head name option_name_block_row_count false names_block_row_count (omega arith)
              (λ f. absurd (false≢true f)))))
        e

  collect_options_sound :
      (options : List DefElem) (found : Collected) {final : Collected}
      → collect_options foreign_table_relation_id context options found ≡ ok final
      → All IsValidOption options
  unfolding collect_options
  collect_options_sound [] found e = tt
  collect_options_sound (option ∷ options) found e =
      let valid =
        option_valid context option.defname (valid_option_array foreign_table_relation_id) in
      let (u, passed, rest) = >>=-eq-ok (guard valid invalid_option) _ e in
      (
        option_valid_sound option.defname (guard-eq-ok valid invalid_option passed),
        collect_options_sound options (collect option found) rest,
      )

  module _ (pg_atoi : Bytes → Result ℤ) where
    -- Whenever the validator accepts the options of an object: every one of them has exactly the
    -- name of one of the four options, and the object is a foreign table, so that it accepts no
    -- option of a wrapper, a server or a user mapping.
    pub cstore_fdw_validator_names :
        (options : List DefElem)
        → cstore_fdw_validator pg_atoi foreign_table_relation_id options context ≡ ok tt
        → All IsValidOption options
    unfolding cstore_fdw_validator
    cstore_fdw_validator_names options e =
        let start : Collected = record {
          filename = none;
          compression_type_string = none;
          stripe_row_count_string = none;
          block_row_count_string = none;
        } in
        let (final, runs, rest) =
          >>=-eq-ok (collect_options foreign_table_relation_id context options start) _ e in
        collect_options_sound options start runs
