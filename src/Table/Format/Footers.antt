-- ===== src/Table/Format/Footers.antt =====
-- Block handles and footers of table/format.cc: what is decoded is what was encoded.
use rally_db.Prelude.{
  ℕ, zero, suc, bit_or, ◌-◌, ◌*◌, ◌/◌, ◌%◌, ◌^◌, ◌≤◌, ◌≡◌, ◌∙◌, refl, sym, ap, [], ◌∷◌, ◌++◌, true,
  false, ltb, ◌==◌, inl, inr, arith, length, length-append, take, drop, replicate, length-replicate,
  drop_behind, append_assoc, Bool-cases, Sum-cases, All, All-drop, length-drop, ==_iff,
}
use rally_db.Prelude.Bits.{shifted-bit_or}
use rally_db.Util.Coding.{
  Bytes, IsByte, IsU64, encode_fixed32, decode_fixed32, put_fixed32, put_varint64,
}
use rally_db.Util.Coding.Fixed.{
  decode_fixed32_sum, decode_fixed32-encode_fixed32, length-encode_fixed32,
}
use rally_db.Util.Coding.RoundTrip.{get_varint64-put_varint64, varint_length-encode_varint64}
use rally_db.Table.Format.{
  BlockHandle, Footer, max_encoded_length, encoded_length, table_magic_number, resize,
  encode_handle, decode_handle, encode_footer, magic_of, decode_footer,
}

abbrev pub IsHandle : BlockHandle → Type 0
IsHandle h = IsU64 h.offset × IsU64 h.size

encode_handle_parts :
    (dst : Bytes) (h : BlockHandle)
    → encode_handle dst h ≡ dst ++ (put_varint64 [] h.offset ++ put_varint64 [] h.size)
unfolding encode_handle put_varint64
encode_handle_parts dst h = simp append_assoc

encode_handle_pair :
    (h : BlockHandle) → encode_handle [] h ≡ put_varint64 [] h.offset ++ put_varint64 [] h.size
encode_handle_pair h = encode_handle_parts [] h

pub decode_handle-encode_handle :
    (h : BlockHandle) (rest : Bytes)
    → IsHandle h
    → decode_handle (encode_handle [] h ++ rest) ≡ inr (h, rest)
unfolding decode_handle
decode_handle-encode_handle h rest (o, s) =
    rw
      (
        encode_handle_pair h,
        append_assoc,
        decode_handle,
        get_varint64-put_varint64 h.offset (put_varint64 [] h.size ++ rest) o,
        get_varint64-put_varint64 h.size rest s,
      )
      refl

length-put_varint64 : (v : ℕ) → IsU64 v → length (put_varint64 [] v) ≤ 10
unfolding put_varint64
length-put_varint64 v h = omega (arith, varint_length-encode_varint64 v h)

-- A handle takes at most the bytes that the footer reserves for it.
pub length-encode_handle :
    (h : BlockHandle) → IsHandle h → length (encode_handle [] h) ≤ max_encoded_length
length-encode_handle h (o, s) = rw (encode_handle_pair h) (
    omega (
      arith,
      length-append (put_varint64 [] h.offset) (put_varint64 [] h.size),
      length-put_varint64 h.offset o,
      length-put_varint64 h.size s,
    ))

resize_longer :
    (dst : Bytes) (n : ℕ) → length dst ≤ n → resize dst n ≡ dst ++ replicate (n - length dst) 0
unfolding resize
resize_longer dst n h = ap (λ x. x ++ replicate (n - length dst) 0) (take_all dst n h)
  where
    take_all : (xs : Bytes) (m : ℕ) → length xs ≤ m → take m xs ≡ xs
    take_all [] zero h = refl
    take_all [] (suc m) h = refl
    take_all (x ∷ xs) zero h = absurd (omega arith)
    take_all (x ∷ xs) (suc m) h = ap (◌∷◌ x) (take_all xs m (omega arith))

abbrev IsFooter : Footer → Type 0
IsFooter f = IsHandle f.metaindex_handle × IsHandle f.index_handle

-- The parts of a footer.
abbrev padding : Footer → Bytes
padding f =
    replicate (40 - length (encode_handle [] f.metaindex_handle ++ encode_handle [] f.index_handle))
      0

abbrev magic : Bytes
magic = encode_fixed32 (table_magic_number % 2 ^ 32) ++ encode_fixed32 (table_magic_number / 2 ^ 32)

footer_parts :
    (f : Footer)
    → IsFooter f
    → encode_footer [] f
      ≡ encode_handle [] f.metaindex_handle
        ++ (encode_handle [] f.index_handle ++ (padding f ++ magic))
unfolding encode_footer put_fixed32
footer_parts f (m, i) =
    let a = encode_handle [] f.metaindex_handle in
    let b = encode_handle [] f.index_handle in
    let both : encode_handle a f.index_handle ≡ a ++ b =
      encode_handle_parts a f.index_handle
      ∙ ap (λ x. a ++ x) (sym (encode_handle_parts [] f.index_handle)) in
    let fits : length (a ++ b) ≤ 40 = omega (
      arith,
      length-append a b,
      length-encode_handle f.metaindex_handle m,
      length-encode_handle f.index_handle i,
    ) in
    rw (both, resize_longer (a ++ b) 40 fits) (simp append_assoc)

-- The bytes in front of the magic number.
front_length :
    (f : Footer)
    → IsFooter f
    → length (encode_handle [] f.metaindex_handle ++ (encode_handle [] f.index_handle ++ padding f))
      ≡ 40
front_length f (m, i) =
    let a = encode_handle [] f.metaindex_handle in
    let b = encode_handle [] f.index_handle in
    omega (
      arith,
      length-append a (b ++ padding f),
      length-append b (padding f),
      length-append a b,
      length-replicate {0} {A = ℕ} (40 - length (a ++ b)) 0,
      length-encode_handle f.metaindex_handle m,
      length-encode_handle f.index_handle i,
    )

pub length-encode_footer : (f : Footer) → IsFooter f → length (encode_footer [] f) ≡ encoded_length
length-encode_footer f h =
    let a = encode_handle [] f.metaindex_handle in
    let b = encode_handle [] f.index_handle in
    rw (footer_parts f h) (
      omega (
        arith,
        front_length f h,
        length-append a (b ++ (padding f ++ magic)),
        length-append b (padding f ++ magic),
        length-append (padding f) magic,
        length-append a (b ++ padding f),
        length-append b (padding f),
        length-append (encode_fixed32 (table_magic_number % 2 ^ 32))
            (encode_fixed32 (table_magic_number / 2 ^ 32)),
        length-encode_fixed32 (table_magic_number % 2 ^ 32),
        length-encode_fixed32 (table_magic_number / 2 ^ 32),
      ))

-- A footer is read back, in front of any bytes, which are left.
pub decode_footer-encode_footer :
    (f : Footer) (rest : Bytes)
    → IsFooter f
    → decode_footer (encode_footer [] f ++ rest) ≡ inr (f, rest)
unfolding decode_footer magic_of
decode_footer-encode_footer f rest h =
    let a = encode_handle [] f.metaindex_handle in
    let b = encode_handle [] f.index_handle in
    let lo = encode_fixed32 (table_magic_number % 2 ^ 32) in
    let hi = encode_fixed32 (table_magic_number / 2 ^ 32) in
    let all : Bytes = encode_footer [] f ++ rest in
    let parts : all ≡ a ++ (b ++ (padding f ++ (magic ++ rest))) =
      rw (footer_parts f h) (simp append_assoc) in
    let long : ltb (length all) 48 ≡ false =
      ground (arith, length-append (encode_footer [] f) rest, length-encode_footer f h) in
    let front = a ++ (b ++ padding f) in
    let at_magic : drop 40 all ≡ magic ++ rest =
      drop_behind front (magic ++ rest) all (parts ∙ simp append_assoc) (sym (front_length f h)) in
    let right : (magic_of all == table_magic_number) ≡ true =
      let read_lo : decode_fixed32 (magic ++ rest) ≡ table_magic_number % 2 ^ 32 =
        rw append_assoc (
          decode_fixed32-encode_fixed32 (table_magic_number % 2 ^ 32) (hi ++ rest) (omega arith)) in
      let behind : drop 4 (magic ++ rest) ≡ hi ++ rest =
        drop_behind lo (hi ++ rest) (magic ++ rest) (simp append_assoc)
          (sym (length-encode_fixed32 (table_magic_number % 2 ^ 32))) in
      let read_hi =
        decode_fixed32-encode_fixed32 (table_magic_number / 2 ^ 32) rest (omega arith) in
      rw (at_magic, read_lo, behind, read_hi) refl in
    let left : drop 48 all ≡ rest =
      drop_behind (encode_footer [] f) rest all refl (sym (length-encode_footer f h)) in
    let meta : decode_handle all ≡ inr (f.metaindex_handle, b ++ (padding f ++ (magic ++ rest))) =
      rw parts (
        decode_handle-encode_handle f.metaindex_handle (b ++ (padding f ++ (magic ++ rest))) h.0) in
    let index = decode_handle-encode_handle f.index_handle (padding f ++ (magic ++ rest)) h.1 in
    rw (decode_footer, long, right, meta, index, left) refl

-- The eight bytes of the magic number.
eight_bytes :
    (p : Bytes)
    → 8 ≤ length p
    → All IsByte p
    → bit_or (decode_fixed32 (drop 4 p) * 2 ^ 32) (decode_fixed32 p) ≡ table_magic_number
    → take 8 p ≡ 0x57 ∷ 0xfb ∷ 0x80 ∷ 0x8b ∷ 0x24 ∷ 0x75 ∷ 0x47 ∷ 0xdb ∷ []
eight_bytes (a ∷ b ∷ c ∷ d ∷ e ∷ f ∷ g ∷ h ∷ p) long
      (ba, (bb, (bc, (bd, (be, (bf, (bg, (bh, bp)))))))) is =
    let lo = decode_fixed32_sum a b c d (e ∷ f ∷ g ∷ h ∷ p) ba bb bc bd in
    let hi = decode_fixed32_sum e f g h p be bf bg bh in
    let whole =
      shifted-bit_or 32 (decode_fixed32 (e ∷ f ∷ g ∷ h ∷ p))
        (decode_fixed32 (a ∷ b ∷ c ∷ d ∷ e ∷ f ∷ g ∷ h ∷ p)) (omega arith) in
    ground (arith, lo, hi, whole, is)
eight_bytes p long bytes is = absurd (omega arith)

-- `Footer::DecodeFrom` accepts, of byte strings, only those that have the length of a footer and behind 40 bytes the magic
-- number 0xdb4775248b80fb57 with its lowest byte first; what it gives are the two handles that stand at the front, and a
-- footer's length is taken off the input. Everything else is refused.
pub decode_footer_accepts :
    (input : Bytes) (f : Footer) (rest : Bytes)
    → All IsByte input
    → decode_footer input ≡ inr (f, rest)
    → (48 ≤ length input)
      × (take 8 (drop 40 input) ≡ 0x57 ∷ 0xfb ∷ 0x80 ∷ 0x8b ∷ 0x24 ∷ 0x75 ∷ 0x47 ∷ 0xdb ∷ [])
      × (rest ≡ drop 48 input)
      × (r : Bytes) × (r' : Bytes) × (decode_handle input ≡ inr (f.metaindex_handle, r))
      × (decode_handle r ≡ inr (f.index_handle, r'))
unfolding decode_footer magic_of
decode_footer_accepts input f rest bytes e = elim (Bool-cases (ltb (length input) encoded_length)) [
  | inl short ↦ absurd (ground arith)
  | inr long ↦ elim (Bool-cases (magic_of input == table_magic_number)) [
    | inr wrong ↦ absurd (ground arith)
    | inl right ↦ elim (Sum-cases (decode_handle input)) [
      | inl (s, bad) ↦ absurd (ground arith)
      | inr ((m, r), good) ↦ elim (Sum-cases (decode_handle r)) [
        | inl (s, bad) ↦ absurd (ground arith)
        | inr ((i, r'), fine) ↦
            let long' : 48 ≤ length input = ground arith in
            let magic_is =
              eight_bytes (drop 40 input) (omega (arith, length-drop 40 input))
                (All-drop IsByte 40 input bytes)
                ((==_iff (magic_of input) table_magic_number).0 right) in
            (long', magic_is, ground arith, r, r', ground arith, ground arith)
      ]
    ]
  ]
]
