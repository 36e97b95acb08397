-- ===== src/Metadata/Counting.antt =====
-- What the count of a read of metadata says.
use mathlib.Core.List.{append_assoc}
use indexing_service.Prelude.{
  ℕ, ◌==◌, ◌≡◌, ◌∙◌, refl, sym, ap, arith, Bool-cases, inl, inr, Option, none, some, [], ◌++◌,
  Bytes, length, length-append,
}
use indexing_service.Result.{Result, ok, err, Io, after}
use indexing_service.Metadata.{Protocol}
use indexing_service.Metadata.Codec.{
  id, prototype_at, Package, Library, Reader, ByteReader, counting_read, read_byte, decode_as,
  check_id, read_from,
}

-- The libraries change the state of a reader by reads only, so that what each read keeps, they keep.
pub record OnlyReads {P : Type 0} (lib : Library P) : Type 1 where
  pub uvarint_lem :
      {S : Type 0} (byte : ByteReader S) (I : S → Type 0)
      → ((s : S) → I s → I (byte s).1)
      → (s : S) → I s
      → I (lib.read_uvarint byte s).1
  pub decode_lem :
      {S : Type 0} (read : Reader S) (t : P) (I : S → Type 0)
      → ((n : ℕ) (s : S) → I s → I (read n s).1)
      → (s : S) → I s
      → I (lib.decode read t s).1

after-keeps :
    {W A B : Type 0} (I : W → Type 0) (x : Result A × W) (f : A → Io W B)
    → I (x.1)
    → ((a : A) (w : W) → I w → I (f a w).1)
    → I (after x f).1
after-keeps I (ok a, w) f h k = k a w h
after-keeps I (err e, w) f h k = h

module _ {P S : Type 0} (lib : Library P) (only : OnlyReads lib) (p : Package P) (read : Reader S)
    (rest : S → Bytes) (next : (n : ℕ) (s : S) → rest s ≡ (read n s).0.0 ++ rest (read n s).1) where
  -- What the reader gave since the state `s`, with the count that it has.
  abbrev pub Consumed : S → S × ℕ → Type 0
  Consumed s w = (bs : Bytes) × (rest s ≡ bs ++ rest (w.0)) × (length bs ≡ w.1)

  counting_read-Consumed :
      (s : S) (n : ℕ) (w : S × ℕ) → Consumed s w → Consumed s (counting_read read n w).1
  unfolding counting_read
  counting_read-Consumed s n (s', count) (bs, e, l) = (
    bs ++ (read n s').0.0,
    e
        ∙ ap (λ xs. bs ++ xs) (next n s')
        ∙ sym (append_assoc bs (read n s').0.0 (rest (read n s').1)),
    omega (arith, l, length-append bs (read n s').0.0),
  )

  read_byte-Consumed : (s : S) (w : S × ℕ) → Consumed s w → Consumed s (read_byte read w).1
  unfolding read_byte
  read_byte-Consumed s w c = counting_read-Consumed s 1 w c

  decode_as-Consumed :
      (s : S) (val : Protocol) (t : Option P) (w : S × ℕ)
      → Consumed s w
      → Consumed s (decode_as lib p read val t w).1
  unfolding decode_as
  decode_as-Consumed s val none w c = c
  decode_as-Consumed s val (some t) w c =
      after-keeps (Consumed s) (lib.decode (counting_read read) t w) _
        (only.decode_lem (counting_read read) t (Consumed s) (counting_read-Consumed s) w c)
        (λ nd w' c'. c')

  check_id-Consumed :
      (s : S) (val : Protocol) (v : ℕ) (w : S × ℕ)
      → Consumed s w
      → Consumed s (check_id lib p read val v w).1
  unfolding check_id
  check_id-Consumed s val v w c = elim (Bool-cases (v == id val)) [
    | inl e ↦ rw e (decode_as-Consumed s val (prototype_at p.node_prototypes (id val)) w c)
    | inr e ↦ rw e c
  ]

  -- Over libraries that change a reader by reads only, and over a reader whose reads give its next
  -- bytes, the count that ReadFrom returns, whether with metadata or with an error, is the number
  -- of bytes that it took from the reader.
  pub read_from-Consumed :
      (val : Protocol) (s : S)
      → let ((result, count), s') = read_from lib p read val s in
        (bs : Bytes) × (rest s ≡ bs ++ rest s') × (length bs ≡ count)
  unfolding read_from
  read_from-Consumed val s =
      after-keeps (Consumed s) (lib.read_uvarint (read_byte read) (s, 0)) (check_id lib p read val)
        (only.uvarint_lem (read_byte read) (Consumed s) (read_byte-Consumed s) (s, 0)
          ([], refl, refl))
        (check_id-Consumed s val)
