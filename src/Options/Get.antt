-- ===== src/Options/Get.antt =====
-- The options of a table as they are looked up and used (cstore_fdw.c: `CStoreGetOptionValue`,
-- `CStoreGetOptions`) and as they are checked when they are set (`cstore_fdw_validator`).
use postgres_vectorization_t.Metadata.Footers.{namedatalen, strncmp_equal}
use postgres_vectorization_t.Options.{parse_compression_type, validate_foreign_table_options}
use postgres_vectorization_t.Prelude.{
  Bool, Bytes, List, Option, [], false, if◌then◌else◌, none, some, ℕ, ◌&&◌, ◌++◌, ◌==◌, ◌||◌, ◌∷◌,
}
use postgres_vectorization_t.Prelude.Int.{pos, ℤ}
use postgres_vectorization_t.Report.{Result, guard, invalid_option, ok, ◌>>=◌, ◌>>◌}
use postgres_vectorization_t.Types.{CompressionType, compression_none}

-- "filename", "compression", "stripe_row_count" and "block_row_count"
abbrev pub option_name_filename : Bytes
option_name_filename = b'f' ∷ b'i' ∷ b'l' ∷ b'e' ∷ b'n' ∷ b'a' ∷ b'm' ∷ b'e' ∷ []

abbrev pub option_name_compression_type : Bytes
option_name_compression_type =
    b'c' ∷ b'o' ∷ b'm' ∷ b'p' ∷ b'r' ∷ b'e' ∷ b's' ∷ b's' ∷ b'i' ∷ b'o' ∷ b'n' ∷ []

abbrev pub option_name_stripe_row_count : Bytes
option_name_stripe_row_count =
    b's' ∷ b't' ∷ b'r' ∷ b'i' ∷ b'p' ∷ b'e' ∷ b'_' ∷ b'r' ∷ b'o' ∷ b'w' ∷ b'_' ∷ b'c' ∷ b'o' ∷ b'u'
    ∷ b'n' ∷ b't' ∷ []

abbrev pub option_name_block_row_count : Bytes
option_name_block_row_count =
    b'b' ∷ b'l' ∷ b'o' ∷ b'c' ∷ b'k' ∷ b'_' ∷ b'r' ∷ b'o' ∷ b'w' ∷ b'_' ∷ b'c' ∷ b'o' ∷ b'u' ∷ b'n'
    ∷ b't' ∷ []

-- An option, with the string that PostgreSQL's `defGetString` returns for it.
pub record DefElem : Type 0 where
  pub defname : Bytes
  pub string : Bytes

-- The first option of that name.
unfoldable pub find_option : Bytes → List DefElem → Option Bytes
find_option name [] = none
find_option name (option ∷ options) =
    let rest = find_option name options in
    if strncmp_equal option.defname name namedatalen then some option.string else rest

-- `CStoreGetOptionValue`, of the table's options and its server's.
unfoldable pub cstore_get_option_value : List DefElem → List DefElem → Bytes → Option Bytes
cstore_get_option_value table_options server_options name =
    find_option name (table_options ++ server_options)

pub record CstoreFdwOptions : Type 0 where
  pub filename : Bytes
  pub compression_type : CompressionType
  pub stripe_row_count : ℤ
  pub block_row_count : ℤ

abbrev pub default_stripe_row_count : ℕ
default_stripe_row_count = 150000

abbrev pub default_block_row_count : ℕ
default_block_row_count = 10000

abbrev pub option_or : Option Bytes → Bytes → Bytes
option_or none b = b
option_or (some s) b = s

abbrev pub compression_or_default : Option Bytes → CompressionType
compression_or_default none = compression_none
compression_or_default (some s) = parse_compression_type s

-- What `cstore_fdw_validator` collects.
pub record Collected : Type 0 where
  pub filename : Option Bytes
  pub compression_type_string : Option Bytes
  pub stripe_row_count_string : Option Bytes
  pub block_row_count_string : Option Bytes

-- An entry of `ValidOptionArray`.
pub record CstoreValidOption : Type 0 where
  pub option_name : Bytes
  pub option_context_id : ℕ

-- `ValidOptionArray`, with PostgreSQL's `ForeignTableRelationId`.
abbrev pub valid_option_array : ℕ → List CstoreValidOption
valid_option_array foreign_table_relation_id =
    record { option_name = option_name_filename; option_context_id = foreign_table_relation_id }
    ∷ record {
      option_name = option_name_compression_type;
      option_context_id = foreign_table_relation_id;
    }
    ∷ record {
      option_name = option_name_stripe_row_count;
      option_context_id = foreign_table_relation_id;
    }
    ∷ record {
      option_name = option_name_block_row_count;
      option_context_id = foreign_table_relation_id;
    }
    ∷ []

-- The loop over the valid options.
unfoldable pub option_valid : ℕ → Bytes → List CstoreValidOption → Bool
option_valid context name [] = false
option_valid context name (valid ∷ options) =
    (context == valid.option_context_id && strncmp_equal name valid.option_name namedatalen)
    || option_valid context name options

-- The assignment for one option.
unfoldable pub collect : DefElem → Collected → Collected
collect option found =
    if strncmp_equal option.defname option_name_filename namedatalen
    then record found { filename = some option.string }
    else if strncmp_equal option.defname option_name_compression_type namedatalen
    then record found { compression_type_string = some option.string }
    else if strncmp_equal option.defname option_name_stripe_row_count namedatalen
    then record found { stripe_row_count_string = some option.string }
    else if strncmp_equal option.defname option_name_block_row_count namedatalen
    then record found { block_row_count_string = some option.string }
    else found

-- The loop over the options.
unfoldable pub collect_options : ℕ → ℕ → List DefElem → Collected → Result Collected
unfolding option_valid collect
collect_options foreign_table_relation_id context [] found = ok found
collect_options foreign_table_relation_id context (option ∷ options) found = do
  guard (option_valid context option.defname (valid_option_array foreign_table_relation_id))
      invalid_option
  collect_options foreign_table_relation_id context options (collect option found)

module _ (pg_atoi : Bytes → Result ℤ) where
  abbrev pub count_or_default : Option Bytes → ℕ → Result ℤ
  count_or_default none n = ok (pos n)
  count_or_default (some s) n = pg_atoi s

  -- `CStoreGetOptions`, with the path that `CStoreDefaultFilePath` gives.
  unfoldable pub cstore_get_options : Bytes → List DefElem → List DefElem → Result CstoreFdwOptions
  cstore_get_options default_file_path table_options server_options = do
    let filename = cstore_get_option_value table_options server_options option_name_filename
    let compression_type_string =
        cstore_get_option_value table_options server_options option_name_compression_type
    let stripe_row_count_string =
        cstore_get_option_value table_options server_options option_name_stripe_row_count
    let block_row_count_string =
        cstore_get_option_value table_options server_options option_name_block_row_count
    validate_foreign_table_options pg_atoi filename compression_type_string stripe_row_count_string
        block_row_count_string
    stripe_row_count ← count_or_default stripe_row_count_string default_stripe_row_count
    block_row_count ← count_or_default block_row_count_string default_block_row_count
    ok (record {
      filename = option_or filename default_file_path;
      compression_type = compression_or_default compression_type_string;
      stripe_row_count = stripe_row_count;
      block_row_count = block_row_count;
    })

  -- `cstore_fdw_validator`
  unfoldable pub cstore_fdw_validator : ℕ → List DefElem → ℕ → Result (Unit {0})
  cstore_fdw_validator foreign_table_relation_id options context = do
    found ← collect_options foreign_table_relation_id context options (record {
      filename = none;
      compression_type_string = none;
      stripe_row_count_string = none;
      block_row_count_string = none;
    })
    if context == foreign_table_relation_id
        then validate_foreign_table_options pg_atoi found.filename found.compression_type_string
            found.stripe_row_count_string found.block_row_count_string
        else ok tt
