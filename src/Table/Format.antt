-- ===== src/Table/Format.antt =====
-- table/format.h and table/format.cc: block handles, the footer of a table file, and reading a block.
pub mod Footers
use rally_db.Prelude.{
  ℕ, zero, suc, ◌+◌, ◌-◌, ◌*◌, ◌/◌, ◌%◌, ◌^◌, ◌≡◌, ◌≢◌, bit_or, List, [], ◌∷◌, ◌++◌, Bool, true,
  false, ◌&&◌, not, Option, none, some, ltb, ◌==◌, if◌then◌else◌, length, get_or, take, drop,
  replicate, ◌⊎◌, inl, inr,
}
use rally_db.Util.Status.{Status, ok, corruption, is_ok}
use rally_db.Util.Coding.{
  Bytes, encode_fixed32, decode_fixed32, put_fixed32, put_varint64, get_varint64,
}
use rally_db.Util.Crc.{Crc, checksum, mask, unmask}

pub record BlockHandle : Type 0 where
  pub offset : ℕ
  pub size : ℕ

abbrev pub max_encoded_length : ℕ
max_encoded_length = 10 + 10

unfoldable pub encode_handle : Bytes → BlockHandle → Bytes
encode_handle dst h = put_varint64 (put_varint64 dst h.offset) h.size

-- A result of `DecodeFrom`: an error, or what was read and the input that is left. No caller uses the
-- input, or what it decoded into, after an error.
abbrev pub Decoded : Type 0 → Type 0
Decoded A = Status ⊎ (A × Bytes)

unfoldable pub decode_handle : Bytes → Decoded BlockHandle
decode_handle input = elim (get_varint64 input) [
  | none ↦ inl (corruption "bad block handle")
  | some (offset, rest) ↦ elim (get_varint64 rest) [
    | none ↦ inl (corruption "bad block handle")
    | some (size, rest') ↦ inr (record { offset = offset; size = size }, rest')
  ]
]

pub record Footer : Type 0 where
  pub metaindex_handle : BlockHandle
  pub index_handle : BlockHandle

abbrev pub encoded_length : ℕ
encoded_length = 2 * max_encoded_length + 8

abbrev pub table_magic_number : ℕ
table_magic_number = 0xdb4775248b80fb57

-- `resize` of `std::string`
unfoldable pub resize : Bytes → ℕ → Bytes
resize dst n = take n dst ++ replicate (n - length dst) 0

unfoldable pub encode_footer : Bytes → Footer → Bytes
encode_footer dst f =
    let handles = encode_handle (encode_handle dst f.metaindex_handle) f.index_handle in
    put_fixed32
      (put_fixed32 (resize handles (2 * max_encoded_length)) (table_magic_number % 2 ^ 32))
      (table_magic_number / 2 ^ 32)

-- The magic number of an input: `magic_lo` and `magic_hi`.
unfoldable pub magic_of : Bytes → ℕ
magic_of input =
    let magic_ptr = drop (encoded_length - 8) input in
    bit_or (decode_fixed32 (drop 4 magic_ptr) * 2 ^ 32) (decode_fixed32 magic_ptr)

unfoldable pub decode_footer : Bytes → Decoded Footer
decode_footer input =
    if ltb (length input) encoded_length
    then inl (corruption "not an sstable (footer too short)")
    else if not (magic_of input == table_magic_number)
    then inl (corruption "not an sstable (bad magic number)")
    else elim (decode_handle input) [
      | inl s ↦ inl s
      | inr (metaindex, rest) ↦ elim (decode_handle rest) [
        | inl s ↦ inl s
        | inr (index, rest') ↦ inr (
          record { metaindex_handle = metaindex; index_handle = index },
          drop encoded_length input,
        )
      ]
    ]

abbrev pub block_trailer_size : ℕ
block_trailer_size = 5

-- `enum CompressionType`
pub data CompressionType : Type 0 where
  no_compression snappy zstd : CompressionType

abbrev pub type_code : CompressionType → ℕ
type_code no_compression = 0
type_code snappy = 1
type_code zstd = 2

-- The compressors of port/port.h, which stand on libraries: `none` is `false`. What was compressed is
-- uncompressed to the same bytes; an empty block may have no length.
pub record Compressors : Type 0 where
  pub compress : CompressionType → Bytes → Option Bytes
  pub uncompressed_length : CompressionType → Bytes → Option ℕ
  pub uncompress : CompressionType → Bytes → Option Bytes
  pub length-compress :
      (t : CompressionType) (raw c : Bytes)
      → raw ≢ []
      → compress t raw ≡ some c
      → uncompressed_length t c ≡ some (length raw)
  pub uncompress-compress :
      (t : CompressionType) (raw c : Bytes) → compress t raw ≡ some c → uncompress t c ≡ some raw

-- The cases `kSnappyCompression` and `kZstdCompression` of `ReadBlock`.
unfoldable pub uncompressed :
    Compressors → CompressionType → (lengths contents : Status) → Bytes → Status × Bytes
uncompressed lib t lengths contents stored = elim (lib.uncompressed_length t stored) [
  | none ↦ (lengths, [])
  | some n ↦ elim (lib.uncompress t stored) [ none ↦ (contents, []) | some u ↦ (ok, u) ]
]

-- `ReadBlock`: the status and `result->data`. `read` is the file's `Read`, `verify` the option
-- `verify_checksums`. Who owns the buffer of the data is left out.
unfoldable pub read_block :
    Crc
    → Compressors
    → (read : ℕ → ℕ → Status × Bytes) → (verify : Bool) → BlockHandle
    → Status × Bytes
read_block crc lib read verify handle =
    let n = handle.size in
    let (s, contents) = read handle.offset (n + block_trailer_size) in
    let matches =
      checksum crc (take (n + 1) contents) == unmask (decode_fixed32 (drop (n + 1) contents)) in
    let t = get_or contents n 0 in
    let stored = take n contents in
    if not (is_ok s)
    then (s, [])
    else if not (length contents == n + block_trailer_size)
    then (corruption "truncated block read", [])
    else if verify && not matches
    then (corruption "block checksum mismatch", [])
    else if t == 0
    then (ok, stored)
    else if t == 1
    then uncompressed lib snappy (corruption "corrupted snappy compressed block length")
        (corruption "corrupted snappy compressed block contents") stored
    else if t == 2
    then uncompressed lib zstd (corruption "corrupted zstd compressed block length")
        (corruption "corrupted zstd compressed block contents") stored
    else (corruption "bad block type", [])
