-- ===== src/Netproto/Record/RoundTrip.antt =====
-- Reading back what `encodeRecord` and the loops over records wrote.
use wave_mq.Prelude.{
  ◌≤◌, ◌≡◌, refl, ap, false, List, [], ◌∷◌, ◌++◌, append-nil, All, length, ltb, map, ok, err, arith,
  length-append, take-append_length, drop-append_length,
}
use wave_mq.Wire.{
  Bytes, Reader, Writer, RoundTrips, RoundTrips-bind, RoundTrips-last, RoundTrips-bytes, FitsSigned,
  pos, i64_half,
}
use wave_mq.Api.{Header, Record}
use wave_mq.Netproto.Primitives.{max_item_count}
use wave_mq.Netproto.Primitives.RoundTrip.{
  string_field, bytes_field, int64_field, checked_int32, counted_field,
}
use wave_mq.Netproto.Record

-- A record whose fields have the widths of Go's, with as many headers as the reader takes.
pub record Sendable (r : Record) : Type 0 where
  pub offset_fits : FitsSigned i64_half r.offset
  pub time_fits : FitsSigned i64_half r.timestamp
  pub few_headers : length r.headers ≤ max_item_count

abbrev pub received : Record → Record
received r = record r { crc32c = 0 }

header_field : (h : Header) → RoundTrips Record.read_header (Record.put_header h) h
unfolding Record.read_header Record.put_header
header_field h =
    RoundTrips-bind _ (string_field h.key) (RoundTrips-last _ (bytes_field h.value) refl)

each_header_field :
    (hs : List Header) → All (λ h. RoundTrips Record.read_header (Record.put_header h) h) hs
each_header_field [] = tt
each_header_field (h ∷ hs) = (header_field h, each_header_field hs)

same_items {ℓ} : {A : Type ℓ} → (xs : List A) → map (λ x. x) xs ≡ xs
same_items [] = refl
same_items (x ∷ xs) = ap (λ t. x ∷ t) (same_items xs)

headers_field :
    (hs : List Header)
    → length hs ≤ max_item_count
    → RoundTrips Record.read_headers (Record.put_headers hs) hs
unfolding Record.read_headers Record.put_headers
headers_field hs few =
    rw same_items at
      (counted_field Record.read_header Record.put_header (λ x. x) hs few (each_header_field hs))

pub record_field :
    (r : Record)
    → Sendable r
    → RoundTrips Record.decode_record (Record.encode_record r) (received r)
unfolding Record.decode_record Record.encode_record
record_field r h = RoundTrips-bind _ (int64_field r.offset h.offset_fits) (
    RoundTrips-bind _ (int64_field r.timestamp h.time_fits) (
      RoundTrips-bind _ (bytes_field r.key) (
        RoundTrips-bind _ (bytes_field r.value)
          (RoundTrips-last _ (headers_field r.headers h.few_headers) refl))))

sized_bytes : (w : Writer) {bs : Bytes} → Record.sized w ≡ ok bs → (b : Bytes) × (w ≡ ok b)
unfolding Record.sized
sized_bytes (ok b) e = (b, refl)
sized_bytes (err x) e = cc

within-ok {ℓ} :
    {A : Type ℓ} (m : Reader A) (bs r : Bytes) {a : A} {left : Bytes}
    → m bs ≡ ok (a, left)
    → Record.within m bs r ≡ ok (a, r)
unfolding Record.within
within-ok m bs r e = rw (e, Record.within) refl

module _ (r : Record) (h : Sendable r) where
  body_of_length :
      (b rest : Bytes)
      → Record.encode_record r ≡ ok b
      → Record.record_of_length (pos (length b)) (b ++ rest) ≡ ok (received r, rest)
  unfolding Record.record_of_length
  body_of_length b rest e =
      let fits : ltb (length (b ++ rest)) (length b) ≡ false =
        ground (arith, length-append b rest) in
      let read : Record.decode_record b ≡ ok (received r, []) =
        rw append-nil at ((record_field r h).at b [] e) in
      rw (fits, take-append_length, drop-append_length) (within-ok Record.decode_record b rest read)

  sized_record_field : RoundTrips Record.read_sized_record (Record.put_sized_record r) (received r)
  unfolding Record.read_sized_record Record.put_sized_record Record.sized
  sized_record_field = record {
    at = λ bs rest e.
        let (b, written) = sized_bytes (Record.encode_record r) e in
        (RoundTrips-bind Record.record_of_length (checked_int32 (pos (length b)))
            (RoundTrips-bytes b (λ rest'. body_of_length b rest' written))).at
          bs rest (rw written at e);
  }

each_record_field :
    (rs : List Record)
    → All Sendable rs
    → All (λ r. RoundTrips Record.read_sized_record (Record.put_sized_record r) (received r)) rs
each_record_field [] h = tt
each_record_field (r ∷ rs) (hr, h) = (sized_record_field r hr, each_record_field rs h)

pub records_field :
    (rs : List Record)
    → length rs ≤ max_item_count
    → All Sendable rs
    → RoundTrips Record.read_records (Record.put_records rs) (map received rs)
unfolding Record.read_records Record.put_records
records_field rs few h =
    counted_field Record.read_sized_record Record.put_sized_record received rs few
      (each_record_field rs h)
