-- ===== src/Datums/RoundTrip.antt =====
-- The reader's datums are the writer's, where a value is present.
use postgres_vectorization_t.Datums.{
  datum_copy, deserialize_datum_array, deserialize_loop, serialize_datum_array, serialize_loop,
  stored_bytes, stored_datum,
}
use postgres_vectorization_t.Prelude.{
  Bool, Bool-cases, Bytes, List, [], ap, append-nil, append_assoc, arith, drop, drop-length-append,
  false, inl, inr, leb, length, length-append, length-replicate, le→leb, refl, replicate, suc, sym,
  true, uint32, zero, ℕ, ◌++◌, ◌+◌, ◌-◌, ◌<◌, ◌^◌, ◌∙◌, ◌∷◌, ◌≡◌, ◌≤◌,
}
use postgres_vectorization_t.Prelude.Int.{ltb_ℤ, negsuc, pos, pos_part, ℤ}
use postgres_vectorization_t.Report.{ok}
use postgres_vectorization_t.Tupmacs.{Tupmacs}
use postgres_vectorization_t.Types.{Attribute}

module _ (T : Tupmacs) where
  open T use {
    Datum, zero_datum, att_addlength_datum, att_addlength_pointer, att_align_nominal,
    store_att_byval, fetch_att, bytes_at, pointer_to, IsValueOf,
  }

  -- The lengths of a value are `uint32`s.
  length_lem :
      (a : Attribute) (d : Datum)
      → IsValueOf a d
      → uint32 (att_addlength_datum 0 a.attlen d) ≡ att_addlength_datum 0 a.attlen d
  length_lem a d v =
      omega (arith, T.value_short a d v, T.align_le (att_addlength_datum 0 a.attlen d) a.attalign)

  -- A copy of a value is the value.
  pub datum_copy_lem : (a : Attribute) (d : Datum) → IsValueOf a d → datum_copy T a d ≡ d
  unfolding datum_copy
  datum_copy_lem a d v = elim (Bool-cases a.attbyval) [
    | inl e ↦ rw e
    | inr e ↦ rw (e, length_lem a d v) (T.pointer_to-bytes_at a d v e)
  ]

  -- What is stored of a value: measured, fetched and skipped as the reader does it.
  pub record IsStored (a : Attribute) (d : Datum) (b : Bytes) : Type 0 where
    pub measured : length b ≡ att_addlength_datum 0 a.attlen d
    pub fetched : (rest : Bytes) → fetch_att (b ++ rest) a.attbyval a.attlen ≡ d
    pub skipped :
        (rest : Bytes)
        → att_addlength_pointer 0 a.attlen (b ++ rest) ≡ att_addlength_datum 0 a.attlen d

  by_value :
      (a : Attribute) (d : Datum)
      → IsValueOf a d
      → a.attbyval ≡ true
      → IsStored a d (store_att_byval d a.attlen)
  by_value a d v e = record {
    measured = T.length-store_att_byval a d v e;
    fetched = λ rest. rw e (T.fetch-store_att_byval a d rest v e);
    skipped = λ rest. T.addlength-store_att_byval a d rest v e;
  }

  by_reference :
      (a : Attribute) (d : Datum)
      → IsValueOf a d
      → a.attbyval ≡ false
      → IsStored a d (bytes_at d (att_addlength_datum 0 a.attlen d))
  by_reference a d v e = record {
    measured = T.length-bytes_at d _;
    fetched = λ rest. rw e (T.fetch-bytes_at a d rest v e);
    skipped = λ rest. T.addlength-bytes_at a d rest v e;
  }

  -- A positive length is the length of the datum.
  positive_length :
      (l : ℤ) (d : Datum) → ltb_ℤ (pos 0) l ≡ true → pos_part l ≡ att_addlength_datum 0 l d
  positive_length (pos zero) d h = cc
  positive_length (pos (suc k)) d h = sym (T.addlength_fixed k d)
  positive_length (negsuc k) d h = absurd (ground arith)

  pub stored_bytes-IsStored :
      (a : Attribute) (d : Datum)
      → IsValueOf a d
      → IsStored a d (stored_bytes T a d (att_addlength_datum 0 a.attlen d))
  unfolding stored_bytes
  stored_bytes-IsStored a d v = elim (Bool-cases a.attbyval) [
    | inl e ↦ simp (T.byval_fixed a d v e, e) (by_value a d v e)
    | inr e ↦ elim (Bool-cases (ltb_ℤ (pos 0) a.attlen)) [
      | inl p ↦ simp (p, e) (simp (positive_length a.attlen d p) (by_reference a d v e))
      | inr p ↦ simp (p, e) (by_reference a d v e)
    ]
  ]

  -- What is stored of a value, and its padding, without the reductions.
  stored_datum_lem :
      (a : Attribute) (d : Datum)
      → IsValueOf a d
      → stored_datum T a d
        ≡ stored_bytes T a d (att_addlength_datum 0 a.attlen d)
          ++ replicate
              (att_align_nominal (att_addlength_datum 0 a.attlen d) a.attalign
                - att_addlength_datum 0 a.attlen d)
              0
  unfolding stored_datum
  stored_datum_lem a d v =
      let size = att_addlength_datum 0 a.attlen d in
      let aligned : uint32 (att_align_nominal size a.attalign) ≡ att_align_nominal size a.attalign =
        omega (arith, T.value_short a d v) in
      rw (length_lem a d v, aligned)

  length-stored_datum :
      (a : Attribute) (d : Datum)
      → IsValueOf a d
      → length (stored_datum T a d)
        ≡ att_align_nominal (att_addlength_datum 0 a.attlen d) a.attalign
  length-stored_datum a d v =
      let size = att_addlength_datum 0 a.attlen d in
      omega (
        arith,
        ap (λ b. length b) (stored_datum_lem a d v),
        length-append (stored_bytes T a d size)
            (replicate (att_align_nominal size a.attalign - size) 0),
        length-replicate {A = ℕ} (att_align_nominal size a.attalign - size) 0,
        (stored_bytes-IsStored a d v).measured,
        T.align_le size a.attalign,
      )

  -- The whole buffer: the present datums of the first `n` entries, each padded.
  abbrev pub datum_bytes : Attribute → ℕ → List Datum → List Bool → Bytes
  datum_bytes a zero ds es = []
  datum_bytes a (suc n) (d ∷ ds) (true ∷ es) = stored_datum T a d ++ datum_bytes a n ds es
  datum_bytes a (suc n) (d ∷ ds) (false ∷ es) = datum_bytes a n ds es
  datum_bytes a (suc n) _ _ = []

  -- The first `n` entries, with the zero datum where no value is present.
  abbrev pub present_values : ℕ → List Datum → List Bool → List Datum
  present_values zero ds es = []
  present_values (suc n) (d ∷ ds) (true ∷ es) = d ∷ present_values n ds es
  present_values (suc n) (d ∷ ds) (false ∷ es) = zero_datum ∷ present_values n ds es
  present_values (suc n) _ _ = []

  -- Every value present is a value of the attribute's type.
  abbrev pub ArePresent : Attribute → List Datum → List Bool → Type 0
  ArePresent a (d ∷ ds) (true ∷ es) = IsValueOf a d × ArePresent a ds es
  ArePresent a (d ∷ ds) (false ∷ es) = ArePresent a ds es
  ArePresent a _ _ = Unit

  pub serialize_loop_lem :
      (a : Attribute) (n : ℕ) (ds : List Datum) (es : List Bool) (buf : Bytes)
      → n ≤ length ds
      → n ≤ length es
      → serialize_loop T a n ds es buf ≡ ok (buf ++ datum_bytes a n ds es)
  unfolding serialize_loop
  serialize_loop_lem a zero ds es buf hd he = ap ok (sym (append-nil buf))
  serialize_loop_lem a (suc n) [] es buf hd he = absurd (omega arith)
  serialize_loop_lem a (suc n) (d ∷ ds) [] buf hd he = absurd (omega arith)
  serialize_loop_lem a (suc n) (d ∷ ds) (true ∷ es) buf hd he =
      serialize_loop_lem a n ds es (buf ++ stored_datum T a d) (omega arith) (omega arith)
      ∙ ap ok (append_assoc buf (stored_datum T a d) (datum_bytes a n ds es))
  serialize_loop_lem a (suc n) (d ∷ ds) (false ∷ es) buf hd he =
      serialize_loop_lem a n ds es buf (omega arith) (omega arith)

  -- The facts about one datum that stands behind `pre` in the buffer.
  record IsRead (a : Attribute) (d : Datum) (pre rest : Bytes) : Type 0 where
    found :
        fetch_att (drop (length pre) (pre ++ (stored_datum T a d ++ rest))) a.attbyval a.attlen ≡ d
    ends :
        att_align_nominal
          (att_addlength_pointer
            (length pre)
            a.attlen
            (drop (length pre) (pre ++ (stored_datum T a d ++ rest))))
          a.attalign
        ≡ length (pre ++ stored_datum T a d)

  stored_datum-IsRead :
      (a : Attribute) (d : Datum) (pre rest : Bytes)
      → IsValueOf a d
      → att_align_nominal (length pre) a.attalign ≡ length pre
      → IsRead a d pre rest
  stored_datum-IsRead a d pre rest v aligned =
      let size = att_addlength_datum 0 a.attlen d in
      let pad = replicate (att_align_nominal size a.attalign - size) 0 in
      let s = stored_bytes-IsStored a d v in
      let at : drop (length pre) (pre ++ (stored_datum T a d ++ rest))
          ≡ stored_bytes T a d size ++ (pad ++ rest) =
        drop-length-append pre _
        ∙ ap (λ b. b ++ rest) (stored_datum_lem a d v)
        ∙ append_assoc (stored_bytes T a d size) pad rest in
      record {
        found = ap (λ b. fetch_att b a.attbyval a.attlen) at ∙ s.fetched (pad ++ rest);
        ends =
            ap (λ b. att_align_nominal (att_addlength_pointer (length pre) a.attlen b) a.attalign)
              at
            ∙ ap (λ n. att_align_nominal n a.attalign)
                (T.addlength_pointer_add (length pre) a.attlen _
                  ∙ ap (λ n. length pre + n) (s.skipped (pad ++ rest)))
            ∙ T.align_add (length pre) size a.attalign aligned
            ∙ ap (λ n. length pre + n) (sym (length-stored_datum a d v))
            ∙ sym (length-append pre (stored_datum T a d));
      }

  deserialize_loop_lem :
      (a : Attribute) (n : ℕ) (ds : List Datum) (es : List Bool) (pre : Bytes)
      → n ≤ length ds
      → n ≤ length es
      → ArePresent a ds es
      → att_align_nominal (length pre) a.attalign ≡ length pre
      → length (pre ++ datum_bytes a n ds es) < 2 ^ 32
      → deserialize_loop T a (pre ++ datum_bytes a n ds es) n es (length pre)
        ≡ ok (present_values n ds es)
  unfolding deserialize_loop
  deserialize_loop_lem a zero ds es pre hd he v aligned small = refl
  deserialize_loop_lem a (suc n) [] es pre hd he v aligned small = absurd (omega arith)
  deserialize_loop_lem a (suc n) (d ∷ ds) [] pre hd he v aligned small = absurd (omega arith)
  deserialize_loop_lem a (suc n) (d ∷ ds) (false ∷ es) pre hd he v aligned small =
      rw (deserialize_loop_lem a n ds es pre (omega arith) (omega arith) v aligned small)
  deserialize_loop_lem a (suc n) (d ∷ ds) (true ∷ es) pre hd he v aligned small =
      let r = stored_datum-IsRead a d pre (datum_bytes a n ds es) v.0 aligned in
      let same = append_assoc pre (stored_datum T a d) (datum_bytes a n ds es) in
      let next =
        deserialize_loop_lem a n ds es (pre ++ stored_datum T a d) (omega arith) (omega arith) v.1
          (aligned_past a d pre v.0 aligned) (rw same small) in
      let inside : leb (length (pre ++ stored_datum T a d))
            (length (pre ++ (stored_datum T a d ++ datum_bytes a n ds es)))
          ≡ true =
        rw (← same) (
          le→leb _ _
            (omega (arith, length-append (pre ++ stored_datum T a d) (datum_bytes a n ds es)))) in
      let past = length (pre ++ stored_datum T a d) in
      let behind =
        att_addlength_pointer (length pre) a.attlen
          (drop (length pre) (pre ++ (stored_datum T a d ++ datum_bytes a n ds es))) in
      let below : past < 2 ^ 32 = omega (
        arith,
        small,
        ap (λ b. length b) same,
        length-append (pre ++ stored_datum T a d) (datum_bytes a n ds es),
      ) in
      let whole : uint32 behind ≡ behind = omega (arith, r.ends, T.align_le behind a.attalign) in
      let at_past : uint32 (att_align_nominal behind a.attalign) ≡ past = omega (arith, r.ends) in
      let rest : deserialize_loop T a (pre ++ datum_bytes a (suc n) (d ∷ ds) (true ∷ es)) n es past
          ≡ ok (present_values n ds es) =
        ap (λ b. deserialize_loop T a b n es past) (sym same) ∙ next in
      rw (whole, at_past, r.found, inside, rest)
    where
      aligned_past :
          (a : Attribute) (d : Datum) (pre : Bytes)
          → IsValueOf a d
          → att_align_nominal (length pre) a.attalign ≡ length pre
          → att_align_nominal (length (pre ++ stored_datum T a d)) a.attalign
            ≡ length (pre ++ stored_datum T a d)
      aligned_past a d pre v aligned =
          rw (length-append pre (stored_datum T a d), length-stored_datum a d v)
            (T.align_add _ _ a.attalign aligned ∙ ap (λ n. length pre + n) (T.align_again _ _))

  -- For a block of at least `n` datums and exists flags, where every datum that is flagged present
  -- is a value of the attribute's type, and a buffer whose length is a `uint32`: writing the first `n` entries succeeds, and reading `n`
  -- entries from what was written, with the same flags, gives back every present datum, in its
  -- place, and the zero datum where none is present.
  pub deserialize-serialize_datum_array :
      (a : Attribute) (ds : List Datum) (es : List Bool) (n : ℕ)
      → n ≤ length ds
      → n ≤ length es
      → ArePresent a ds es
      → ((out : Bytes) → serialize_datum_array T ds es n a ≡ ok out → length out < 2 ^ 32)
      → (out : Bytes) × (serialize_datum_array T ds es n a ≡ ok out)
        × (deserialize_datum_array T out es n a ≡ ok (present_values n ds es))
  unfolding serialize_datum_array deserialize_datum_array
  deserialize-serialize_datum_array a ds es n hd he v small = (
    datum_bytes a n ds es,
    serialize_loop_lem a n ds es [] hd he,
    deserialize_loop_lem a n ds es [] hd he v (T.align_zero a.attalign)
        (small (datum_bytes a n ds es) (serialize_loop_lem a n ds es [] hd he)),
  )
