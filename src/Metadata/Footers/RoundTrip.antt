-- ===== src/Metadata/Footers/RoundTrip.antt =====
-- Footers read back as they were written, and what every accepted footer satisfies.
use postgres_vectorization_t.Metadata.Footers.{
  block_row_count_maximum, block_row_count_minimum, cstore_magic_number, cstore_version_major,
  cstore_version_minor, deserialize_post_script, deserialize_stripe_footer,
  deserialize_table_footer, namedatalen, post_script_message, serialize_post_script,
  serialize_stripe_footer, serialize_table_footer, stripe_footer_message, stripe_metadata_loop,
  stripe_metadata_message, strncmp_equal, table_footer_message, value_or_zero,
}
use postgres_vectorization_t.Metadata.Messages.{
  PostScriptMessage, Protobuf, SizesFit, StripeFooterMessage, StripeMetadataFits,
}
use postgres_vectorization_t.Prelude.{
  ==_iff, All, Bytes, List, Option-cases, [], ap, arith, inl, inr, length, le→leb, map, refl, some,
  suc, true, uint32, zero, ℕ, ◌<◌, ◌==◌, ◌^◌, ◌∙◌, ◌∷◌, ◌≡◌, ◌≤◌,
}
use postgres_vectorization_t.Report.{first, first_lem, ok}
use postgres_vectorization_t.Types.{StripeFooter, StripeMetadata, TableFooter}

strncmp_refl : (s : Bytes) (n : ℕ) → strncmp_equal s s n ≡ true
unfolding strncmp_equal
strncmp_refl s zero = refl
strncmp_refl [] (suc n) = refl
strncmp_refl (x ∷ s) (suc n) = ground (arith, strncmp_refl s n)

-- Two strings that agree for longer than the second is are equal.
pub strncmp_sound : (s t : Bytes) (n : ℕ) → length t < n → strncmp_equal s t n ≡ true → s ≡ t
unfolding strncmp_equal
strncmp_sound s t zero h e = elim h [ ]
strncmp_sound [] [] (suc n) h e = refl
strncmp_sound [] (y ∷ t) (suc n) h e = cc
strncmp_sound (x ∷ s) [] (suc n) h e = cc
strncmp_sound (x ∷ s) (y ∷ t) (suc n) h e = ground (arith, strncmp_sound s t n)

-- Every field of a stripe's metadata is a `uint64`.
pub record IsMetadata (s : StripeMetadata) : Type 0 where
  pub file_offset_small : s.file_offset < 2 ^ 64
  pub skip_list_length_small : s.skip_list_length < 2 ^ 64
  pub data_length_small : s.data_length < 2 ^ 64
  pub footer_length_small : s.footer_length < 2 ^ 64

-- A table footer that the code writes: its stripes in range, its block row count within the
-- limits of the option.
pub record IsTableFooter (f : TableFooter) : Type 0 where
  pub stripes : All IsMetadata f.stripe_metadata_list
  pub at_least : block_row_count_minimum ≤ f.block_row_count
  pub at_most : f.block_row_count ≤ block_row_count_maximum

-- Three arrays of the column count's length, of `uint64` sizes.
pub record IsStripeFooter (f : StripeFooter) : Type 0 where
  pub column_count_small : f.column_count < 2 ^ 32
  pub skip_list_length : length f.skip_list_size_array ≡ f.column_count
  pub exists_length : length f.exists_size_array ≡ f.column_count
  pub value_length : length f.value_size_array ≡ f.column_count
  pub skip_list_fit : SizesFit f.skip_list_size_array
  pub exists_fit : SizesFit f.exists_size_array
  pub value_fit : SizesFit f.value_size_array

metadata_fits :
    (ss : List StripeMetadata)
    → All IsMetadata ss
    → All StripeMetadataFits (map stripe_metadata_message ss)
metadata_fits [] h = tt
metadata_fits (s ∷ ss) h = (
  record {
    file_offset_fits = h.0.file_offset_small;
    skip_list_length_fits = h.0.skip_list_length_small;
    data_length_fits = h.0.data_length_small;
    footer_length_fits = h.0.footer_length_small;
  },
  metadata_fits ss h.1,
)

module _ (protobuf : Protobuf) where
  -- A table footer length that is a `uint64` is read from the postscript as it was written.
  pub deserialize-serialize_post_script :
      (n : ℕ)
      → n < 2 ^ 64
      → deserialize_post_script protobuf (serialize_post_script protobuf n) ≡ ok n
  unfolding deserialize_post_script serialize_post_script
  deserialize-serialize_post_script n h =
      rw
        (protobuf.post_script.unpack-pack (post_script_message n) (record {
          table_footer_length_fits = h;
          version_major_fits = omega arith;
          version_minor_fits = omega arith;
        }))
        (simp (strncmp_refl))

  -- For every buffer: a postscript is accepted only if its message unpacks with major version 1,
  -- a minor version of at most 1 (absent counts as 0), and exactly the magic number
  -- "citus_cstore"; the length returned is then the message's.
  pub deserialize_post_script_sound :
      (buffer : Bytes) {n : ℕ}
      → deserialize_post_script protobuf buffer ≡ ok n
      → (m : PostScriptMessage) × (protobuf.post_script.unpack buffer ≡ some m)
        × (m.version_major ≡ some cstore_version_major)
        × (value_or_zero m.version_minor ≤ cstore_version_minor)
        × (m.magic_number ≡ some cstore_magic_number)
        × (value_or_zero m.table_footer_length ≡ n)
  unfolding deserialize_post_script
  deserialize_post_script_sound buffer h =
      elim (Option-cases (protobuf.post_script.unpack buffer)) [
        | inl e ↦ absurd (ground arith)
        | inr (m, e) ↦ (
          m,
          e,
          ground arith,
          ground arith,
          elim (Option-cases m.magic_number) [
            | inl none_there ↦ absurd (ground arith)
            | inr (magic, f) ↦
                f
                ∙ ap some (
                    strncmp_sound magic cstore_magic_number namedatalen (omega arith)
                      (ground arith))
          ],
          ground arith,
        )
      ]

  stripe_metadata_loop_lem :
      (ss : List StripeMetadata)
      → stripe_metadata_loop protobuf (map stripe_metadata_message ss) ≡ ok ss
  unfolding stripe_metadata_loop
  stripe_metadata_loop_lem [] = refl
  stripe_metadata_loop_lem (s ∷ ss) = rw (stripe_metadata_loop_lem ss)

  -- A table footer whose block row count lies within the limits, and whose stripe metadata are
  -- `uint64`s, is read back as it was written: the same stripes in the same order, and the same
  -- block row count.
  pub deserialize-serialize_table_footer :
      (f : TableFooter)
      → IsTableFooter f
      → deserialize_table_footer protobuf (serialize_table_footer protobuf f) ≡ ok f
  unfolding deserialize_table_footer serialize_table_footer
  deserialize-serialize_table_footer f h =
      let small : uint32 f.block_row_count ≡ f.block_row_count =
        omega (arith, h.at_least, h.at_most) in
      let low = le→leb _ _ h.at_least in
      let high = le→leb _ _ h.at_most in
      rw
        (protobuf.table_footer.unpack-pack (table_footer_message f) (record {
          stripe_metadata_fits = metadata_fits f.stripe_metadata_list h.stripes;
          block_row_count_fits = omega arith;
        }))
        (simp (small, low, high, stripe_metadata_loop_lem))

  -- With arrays of as many sizes as there are columns, the footer can be packed.
  pub serialize_stripe_footer_lem :
      (f : StripeFooter)
      → length f.skip_list_size_array ≡ f.column_count
      → length f.exists_size_array ≡ f.column_count
      → length f.value_size_array ≡ f.column_count
      → serialize_stripe_footer protobuf f
        ≡ ok (
            protobuf.stripe_footer.pack
              (stripe_footer_message f.skip_list_size_array f.exists_size_array f.value_size_array))
  unfolding serialize_stripe_footer
  serialize_stripe_footer_lem f skip_lists exists values = simp (
    first_lem f.column_count f.skip_list_size_array skip_lists,
    first_lem f.column_count f.exists_size_array exists,
    first_lem f.column_count f.value_size_array values,
  )

  -- A stripe footer with one `uint64` size for each column in each of its three arrays is read
  -- back as it was written.
  pub deserialize-serialize_stripe_footer :
      (f : StripeFooter)
      → IsStripeFooter f
      → (out : Bytes) × (serialize_stripe_footer protobuf f ≡ ok out)
        × (deserialize_stripe_footer protobuf out ≡ ok f)
  unfolding deserialize_stripe_footer serialize_stripe_footer
  deserialize-serialize_stripe_footer f h = (
    protobuf.stripe_footer.pack message,
    simp (skip_lists, exists, values),
    rw
        (protobuf.stripe_footer.unpack-pack message (record {
          skip_list_sizes_fit = h.skip_list_fit;
          exists_sizes_fit = h.exists_fit;
          value_sizes_fit = h.value_fit;
        }))
        (simp (same, tests.0, tests.1, skip_lists, exists, values)),
  )
    where
      message : StripeFooterMessage
      message = stripe_footer_message f.skip_list_size_array f.exists_size_array f.value_size_array

      skip_lists : first f.column_count f.skip_list_size_array ≡ ok f.skip_list_size_array
      skip_lists = first_lem _ _ h.skip_list_length

      exists : first f.column_count f.exists_size_array ≡ ok f.exists_size_array
      exists = first_lem _ _ h.exists_length

      values : first f.column_count f.value_size_array ≡ ok f.value_size_array
      values = first_lem _ _ h.value_length

      same : uint32 (length f.skip_list_size_array) ≡ f.column_count
      same = omega (arith, h.skip_list_length, h.column_count_small)

      tests :
          ((length f.exists_size_array == f.column_count) ≡ true)
          × ((length f.value_size_array == f.column_count) ≡ true)
      tests = ((==_iff _ _).1 h.exists_length, (==_iff _ _).1 h.value_length)
