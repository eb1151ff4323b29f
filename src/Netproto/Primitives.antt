-- ===== src/Netproto/Primitives.antt =====
-- internal/netproto/codec.go: the primitive encoders and decoders, big-endian.
pub mod RoundTrip
use wave_mq.Prelude.{
  ℕ, zero, suc, Bool, true, false, Option, none, some, List, [], ◌∷◌, length, ltb, leb, ok, err,
}
use wave_mq.Wire.{
  Bytes, Error, out_of_range, invalid_string_length, negative_count, count_exceeds_max, Reader,
  Writer, pure, raise, ◌>>=◌, ◌>>◌, reject_if, read_full, check, ◌▹◌, ℤ, pos, negsuc, i16_half,
  i32_half, put_be_int, read_be_int,
}

abbrev pub max_item_count : ℕ
max_item_count = 100000

-- The test of toInt16Checked and of toInt32Checked: negative, or not below `half`.
unfoldable pub unchecked : ℕ → ℤ → Bool
unchecked half (pos n) = leb half n
unchecked half (negsuc n) = true

-- An int through toInt32Checked, then binary.Write.
unfoldable pub put_checked_int32 : ℤ → Writer
unfolding unchecked
put_checked_int32 z = check (unchecked i32_half z) out_of_range ▹ put_be_int 4 i32_half z

unfoldable pub put_string : Bytes → Writer
unfolding unchecked
put_string s =
    check (unchecked i16_half (pos (length s))) out_of_range
    ▹ (put_be_int 2 i16_half (pos (length s)) ▹ ok s)

unfoldable pub string_of_length : ℤ → Reader Bytes
string_of_length (negsuc n) = raise invalid_string_length
string_of_length (pos n) = read_full n

unfoldable pub read_string : Reader Bytes
unfolding string_of_length
read_string = do l ← read_be_int 2 i16_half; string_of_length l

unfoldable pub put_bytes : Option Bytes → Writer
unfolding put_checked_int32
put_bytes none = put_be_int 4 i32_half (negsuc 0)
put_bytes (some b) = put_checked_int32 (pos (length b)) ▹ ok b

unfoldable pub bytes_of_length : ℤ → Reader (Option Bytes)
bytes_of_length (negsuc n) = pure none
bytes_of_length (pos n) = do b ← read_full n; pure (some b)

unfoldable pub read_bytes : Reader (Option Bytes)
unfolding bytes_of_length
read_bytes = do l ← read_be_int 4 i32_half; bytes_of_length l

-- The loops over counted items, which the messages have in common.
module _ {ℓ} {A : Type ℓ} where
  unfoldable pub put_items : (A → Writer) → List A → Writer
  put_items w [] = ok []
  put_items w (x ∷ xs) = w x ▹ put_items w xs

  unfoldable pub put_counted : (A → Writer) → List A → Writer
  unfolding put_items put_checked_int32
  put_counted w xs = put_checked_int32 (pos (length xs)) ▹ put_items w xs

  unfoldable pub read_items : Reader A → ℕ → Reader (List A)
  read_items m zero = pure []
  read_items m (suc n) = do x ← m; xs ← read_items m n; pure (x ∷ xs)

  unfoldable pub items_of_count : Reader A → ℤ → Reader (List A)
  unfolding read_items
  items_of_count m (negsuc n) = raise negative_count
  items_of_count m (pos n) = do reject_if (ltb max_item_count n) count_exceeds_max; read_items m n

  unfoldable pub read_counted : Reader A → Reader (List A)
  unfolding items_of_count
  read_counted m = do n ← read_be_int 4 i32_half; items_of_count m n
