-- ===== src/Netproto/Primitives/RoundTrip.antt =====
-- Reading back what the primitive encoders wrote.
use wave_mq.Prelude.{
  ℕ, ◌≤◌, ◌≡◌, refl, false, Option, none, some, List, [], ◌∷◌, All, length, map, arith,
}
use wave_mq.Wire.{
  Bytes, Reader, Writer, RoundTrips, RoundTrips-bind, RoundTrips-last, RoundTrips-pure,
  RoundTrips-check, RoundTrips-reject_if, RoundTrips-raw, RoundTrips-be_int, ℤ, pos, negsuc,
  FitsSigned, i16_half, i32_half, i64_half, put_be_int, read_be_int,
}
use wave_mq.Netproto.Primitives

pub checked_fits : (half : ℕ) (z : ℤ) → Primitives.unchecked half z ≡ false → FitsSigned half z
unfolding Primitives.unchecked
checked_fits half (pos n) h = ground arith
checked_fits half (negsuc n) h = cc

pub checked_int32 : (z : ℤ) → RoundTrips (read_be_int 4 i32_half) (Primitives.put_checked_int32 z) z
unfolding Primitives.put_checked_int32
checked_int32 z =
    RoundTrips-check _ _ λ h. RoundTrips-be_int 4 i32_half refl z (checked_fits i32_half z h)

pub string_field : (s : Bytes) → RoundTrips Primitives.read_string (Primitives.put_string s) s
unfolding Primitives.read_string Primitives.put_string Primitives.string_of_length
string_field s = RoundTrips-check _ _ λ h.
    RoundTrips-bind _
      (RoundTrips-be_int 2 i16_half refl (pos (length s))
        (checked_fits i16_half (pos (length s)) h))
      (RoundTrips-raw s)

pub bytes_field : (b : Option Bytes) → RoundTrips Primitives.read_bytes (Primitives.put_bytes b) b
unfolding Primitives.read_bytes Primitives.put_bytes Primitives.bytes_of_length
bytes_field none =
    RoundTrips-last _ (RoundTrips-be_int 4 i32_half refl (negsuc 0) (omega arith)) refl
bytes_field (some b) =
    RoundTrips-bind _ (checked_int32 (pos (length b))) (RoundTrips-last _ (RoundTrips-raw b) refl)

pub int16_field :
    (z : ℤ)
    → FitsSigned i16_half z
    → RoundTrips (read_be_int 2 i16_half) (put_be_int 2 i16_half z) z
int16_field z h = RoundTrips-be_int 2 i16_half refl z h

pub int32_field :
    (z : ℤ)
    → FitsSigned i32_half z
    → RoundTrips (read_be_int 4 i32_half) (put_be_int 4 i32_half z) z
int32_field z h = RoundTrips-be_int 4 i32_half refl z h

pub int64_field :
    (z : ℤ)
    → FitsSigned i64_half z
    → RoundTrips (read_be_int 8 i64_half) (put_be_int 8 i64_half z) z
int64_field z h = RoundTrips-be_int 8 i64_half refl z h

-- The items are read as what `g` makes of them.
module _ {ℓ} {A : Type ℓ} (m : Reader A) (w : A → Writer) (g : A → A) where
  items_field :
      (xs : List A)
      → All (λ x. RoundTrips m (w x) (g x)) xs
      → RoundTrips (Primitives.read_items m (length xs)) (Primitives.put_items w xs) (map g xs)
  unfolding Primitives.read_items Primitives.put_items
  items_field [] h = RoundTrips-pure []
  items_field (x ∷ xs) (hx, h) = RoundTrips-bind _ hx (RoundTrips-last _ (items_field xs h) refl)

  pub counted_field :
      (xs : List A)
      → length xs ≤ Primitives.max_item_count
      → All (λ x. RoundTrips m (w x) (g x)) xs
      → RoundTrips (Primitives.read_counted m) (Primitives.put_counted w xs) (map g xs)
  unfolding Primitives.read_counted Primitives.put_counted Primitives.items_of_count
  counted_field xs few h =
      RoundTrips-bind _ (checked_int32 (pos (length xs)))
        (RoundTrips-reject_if _ _ (ground arith) (items_field xs h))
