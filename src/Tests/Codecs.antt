-- ===== src/Tests/Codecs.antt =====
-- A packing of each message as a list of numbers, from which it is unpacked.
use postgres_vectorization_t.Metadata.Messages.{
  PostScriptMessage, Protobuf, SkipNodeMessage, StripeFooterMessage, StripeMetadataMessage,
  TableFooterMessage,
}
use postgres_vectorization_t.Prelude.{
  Bytes, List, Option, [], ap, length, none, refl, some, suc, zero, ℕ, ◌∷◌, ◌≡◌,
}

abbrev option_code : Option ℕ → ℕ
option_code none = 0
option_code (some n) = suc n

abbrev option_of : ℕ → Option ℕ
option_of zero = none
option_of (suc n) = some n

pub option_of-code : (o : Option ℕ) → option_of (option_code o) ≡ o
option_of-code none = refl
option_of-code (some n) = refl

-- A list, each number one up, with a zero behind it.
abbrev list_code : List ℕ → Bytes → Bytes
list_code [] rest = 0 ∷ rest
list_code (x ∷ xs) rest = suc x ∷ list_code xs rest

unfoldable pub list_of : Bytes → List ℕ × Bytes
list_of [] = ([], [])
list_of (zero ∷ rest) = ([], rest)
list_of (suc x ∷ rest) = (x ∷ (list_of rest).0, (list_of rest).1)

pub list_of-code : (xs : List ℕ) (rest : Bytes) → list_of (list_code xs rest) ≡ (xs, rest)
unfolding list_of
list_of-code [] rest = refl
list_of-code (x ∷ xs) rest = rw (list_of-code xs rest)

abbrev bytes_code : Option Bytes → Bytes → Bytes
bytes_code none rest = 0 ∷ rest
bytes_code (some b) rest = 1 ∷ list_code b rest

unfoldable pub bytes_of : Bytes → Option Bytes × Bytes
unfolding list_of
bytes_of [] = (none, [])
bytes_of (zero ∷ rest) = (none, rest)
bytes_of (suc x ∷ rest) = (some (list_of rest).0, (list_of rest).1)

bytes_of-code : (o : Option Bytes) (rest : Bytes) → bytes_of (bytes_code o rest) ≡ (o, rest)
unfolding bytes_of
bytes_of-code none rest = refl
bytes_of-code (some b) rest = rw (list_of-code b rest)

abbrev pack_post_script : PostScriptMessage → Bytes
pack_post_script m =
    option_code m.table_footer_length
    ∷ option_code m.version_major
    ∷ option_code m.version_minor
    ∷ bytes_code m.magic_number []

abbrev unpack_post_script : Bytes → Option PostScriptMessage
unpack_post_script (x ∷ y ∷ z ∷ rest) = some (record {
  table_footer_length = option_of x;
  version_major = option_of y;
  version_minor = option_of z;
  magic_number = (bytes_of rest).0;
})
unpack_post_script _ = none

pub unpack-pack_post_script :
    (m : PostScriptMessage) → unpack_post_script (pack_post_script m) ≡ some m
unpack-pack_post_script m = simp (option_of-code, bytes_of-code)

-- Four numbers for each stripe.
abbrev pack_stripes : List StripeMetadataMessage → Bytes
pack_stripes [] = []
pack_stripes (s ∷ ss) =
    option_code s.file_offset
    ∷ option_code s.skip_list_length
    ∷ option_code s.data_length
    ∷ option_code s.footer_length
    ∷ pack_stripes ss

abbrev unpack_stripes : Bytes → List StripeMetadataMessage
unpack_stripes (x ∷ y ∷ z ∷ w ∷ rest) =
    record {
      file_offset = option_of x;
      skip_list_length = option_of y;
      data_length = option_of z;
      footer_length = option_of w;
    }
    ∷ unpack_stripes rest
unpack_stripes _ = []

pub unpack-pack_stripes : (ss : List StripeMetadataMessage) → unpack_stripes (pack_stripes ss) ≡ ss
unpack-pack_stripes [] = refl
unpack-pack_stripes (s ∷ ss) = simp (option_of-code, unpack-pack_stripes ss)

abbrev unpack_table_footer : Bytes → Option TableFooterMessage
unpack_table_footer [] = none
unpack_table_footer (x ∷ rest) =
    some (record { stripe_metadata_array = unpack_stripes rest; block_row_count = option_of x })

abbrev unpack_stripe_footer : Bytes → Option StripeFooterMessage
unpack_stripe_footer b =
    let (skips, more) = list_of b in
    let (exists, rest) = list_of more in
    some (record {
      skip_list_size_array = skips;
      exists_size_array = exists;
      value_size_array = (list_of rest).0;
    })

abbrev pack_nodes : List SkipNodeMessage → Bytes
pack_nodes [] = []
pack_nodes (m ∷ ms) =
    option_code m.row_count
    ∷ option_code m.value_block_offset
    ∷ option_code m.value_length
    ∷ option_code m.value_compression_type
    ∷ option_code m.exists_block_offset
    ∷ option_code m.exists_length
    ∷ bytes_code m.minimum_value (bytes_code m.maximum_value (pack_nodes ms))

-- With so many nodes to unpack.
unfoldable pub unpack_nodes : ℕ → Bytes → List SkipNodeMessage
unfolding bytes_of
unpack_nodes (suc n) (a ∷ b ∷ c ∷ d ∷ e ∷ f ∷ rest) =
    let low = bytes_of rest in
    let high = bytes_of low.1 in
    record {
      row_count = option_of a;
      minimum_value = low.0;
      maximum_value = high.0;
      value_block_offset = option_of b;
      value_length = option_of c;
      value_compression_type = option_of d;
      exists_block_offset = option_of e;
      exists_length = option_of f;
    }
    ∷ unpack_nodes n high.1
unpack_nodes _ _ = []

pub unpack-pack_nodes : (ms : List SkipNodeMessage) → unpack_nodes (length ms) (pack_nodes ms) ≡ ms
unfolding unpack_nodes
unpack-pack_nodes [] = refl
unpack-pack_nodes (m ∷ ms) =
    simp (option_of-code, bytes_of-code) (ap (λ t. m ∷ t) (unpack-pack_nodes ms))

abbrev unpack_skip_list : Bytes → Option (List SkipNodeMessage)
unpack_skip_list [] = none
unpack_skip_list (n ∷ rest) = some (unpack_nodes n rest)

abbrev pub codecs : Protobuf
codecs = record {
  post_script = record {
    pack = pack_post_script;
    unpack = unpack_post_script;
    unpack-pack = λ m fits. unpack-pack_post_script m;
  };
  table_footer = record {
    pack = λ m. option_code m.block_row_count ∷ pack_stripes m.stripe_metadata_array;
    unpack = unpack_table_footer;
    unpack-pack = λ m fits. simp (option_of-code, unpack-pack_stripes);
  };
  stripe_footer = record {
    pack = λ m.
        list_code m.skip_list_size_array
          (list_code m.exists_size_array (list_code m.value_size_array []));
    unpack = unpack_stripe_footer;
    unpack-pack = λ m fits. simp list_of-code;
  };
  skip_list = record {
    pack = λ ms. length ms ∷ pack_nodes ms;
    unpack = unpack_skip_list;
    unpack-pack = λ ms fits. ap some (unpack-pack_nodes ms);
  };
}
