-- ===== src/Table/FooterFile.antt =====
-- The footer file is read as it was written.
use postgres_vectorization_t.Metadata.Footers.{serialize_post_script, serialize_table_footer}
use postgres_vectorization_t.Metadata.Footers.RoundTrip.{
  IsTableFooter, deserialize-serialize_post_script, deserialize-serialize_table_footer,
}
use postgres_vectorization_t.Metadata.Messages.{Protobuf}
use postgres_vectorization_t.Prelude.{
  List, [], ap, append_assoc, arith, leb, length, length-append, le→leb, refl, sym, true, uint64, ℕ,
  ◌%◌, ◌++◌, ◌+◌, ◌-◌, ◌<◌, ◌^◌, ◌∙◌, ◌∷◌, ◌≡◌,
}
use postgres_vectorization_t.Report.{ok}
use postgres_vectorization_t.Stripe.Blocks.{read_from_file_lem}
use postgres_vectorization_t.Stripe.Load.{read_from_file}
use postgres_vectorization_t.Table.Finish.{footer_bytes}
use postgres_vectorization_t.Table.ReadFooter.{cstore_read_footer}
use postgres_vectorization_t.Types.{TableFooter}

module _ (protobuf : Protobuf) (f : TableFooter) where
  -- For a table footer that the reader accepts, with a postscript of less than 256 bytes and a
  -- footer of less than 2 ^ 32: what `CStoreReadFooter` makes of the footer file's content is the
  -- footer.
  pub cstore_read_footer-footer_bytes :
      IsTableFooter f
      → length (serialize_table_footer protobuf f) < 2 ^ 32
      → length (serialize_post_script protobuf (length (serialize_table_footer protobuf f))) < 256
      → cstore_read_footer protobuf (footer_bytes protobuf f) ≡ ok f
  unfolding cstore_read_footer
  cstore_read_footer-footer_bytes good short few =
      let packed = serialize_table_footer protobuf f in
      let script = serialize_post_script protobuf (length packed) in
      let size = length script % 256 in
      let file = footer_bytes protobuf f in
      let last : List ℕ = size ∷ [] in
      let exact : size ≡ length script = omega (arith, few) in
      let total : length file ≡ length packed + length script + 1 =
        omega (arith, length-append packed (script ++ last), length-append script last) in
      let nonempty : leb 1 (length file) ≡ true = le→leb _ _ (omega (arith, total)) in
      let at_size : read_from_file file (length file - 1) 1 ≡ ok last =
        ap (λ x. read_from_file x (length file - 1) 1) (sym (append_assoc packed script last))
        ∙ read_from_file_lem (packed ++ script) last [] (length file - 1) 1
            (omega (arith, total, length-append packed script)) refl (omega arith) in
      let enough : leb (size + 1) (length file) ≡ true = le→leb _ _ (omega (arith, total, exact)) in
      let place : length file - (1 + size) ≡ length packed = omega (arith, total, exact) in
      let at_script : read_from_file file (length file - (1 + size)) size ≡ ok script =
        read_from_file_lem packed script last (length file - (1 + size)) size place exact
          (omega (arith, few)) in
      let read_script =
        deserialize-serialize_post_script protobuf (length packed) (omega (arith, short)) in
      let inside : leb (uint64 (length packed + size + 1)) (length file) ≡ true =
        le→leb _ _ (omega (arith, total, exact, short, few)) in
      let start : uint64 (length file - (1 + size) + 2 ^ 64 - length packed) ≡ 0 =
        omega (arith, place) in
      let at_footer : read_from_file file
            (uint64 (length file - (1 + size) + 2 ^ 64 - length packed)) (length packed)
          ≡ ok packed =
        read_from_file_lem [] packed (script ++ last) _ (length packed) start refl short in
      simp nonempty (
        simp at_size (
          simp enough (
            simp at_script (
              simp read_script (
                simp inside
                  (simp at_footer (deserialize-serialize_table_footer protobuf f good)))))))
