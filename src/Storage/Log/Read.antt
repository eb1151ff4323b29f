-- ===== src/Storage/Log/Read.antt =====
-- internal/storage/log.go: Read, readFromSegment. The context is not cancelled. An offset is an
-- integer, as a client may ask for a negative one.
pub mod Records
pub mod Steps
pub mod Run
use wave_mq.Prelude.{
  ℕ, zero, suc, ◌+◌, ◌-◌, ◌%◌, ◌^◌, Bool, true, false, ◌&&◌, not, Option, none, some, List, [], ◌∷◌,
  ◌++◌, length, take, drop, ltb, leb, if◌then◌else◌, Result, ok, err,
}
use wave_mq.Wire.{
  Bytes, Error, out_of_range, ℤ, pos, negsuc, pos_part, int_ltb, to_pattern, of_pattern, i32_half,
}
use wave_mq.Api.{Record}
use wave_mq.Frames.{next_frame}
use wave_mq.Storage.Record.{decode_record, string_of}
use wave_mq.Storage.Index.{lookup_index}
use wave_mq.Storage.Segment.{validate_record}
use wave_mq.Storage.Log.{Segment, SegmentedLog, LogError}
use wave_mq.Storage.Log

-- The budget behind a value of this length, or `none` where it is used up. A budget that is not
-- positive is no limit.
unfoldable pub remaining : ℤ → ℕ → Option ℤ
remaining (pos zero) len = some (pos zero)
remaining (pos (suc m)) len = if leb (suc m) len then none else some (pos (suc m - len))
remaining (negsuc n) len = some (negsuc n)

abbrev pub value_length : Record → ℕ
value_length r = length (string_of r.value)

-- toInt32Length(len(rec.Value)), where the budget is a limit.
unfoldable pub refuses_length : ℤ → ℕ → Bool
refuses_length (pos zero) len = false
refuses_length (pos (suc m)) len = leb i32_half len
refuses_length (negsuc n) len = false

unfoldable pub with_first :
    Record → Option (Result Error (List Record)) → Option (Result Error (List Record))
with_first r none = none
with_first r (some (err e)) = some (err e)
with_first r (some (ok rs)) = some (ok (r ∷ rs))

-- The loop of `readFromSegment` on fuel, over the unread part of the section: `at` is
-- `consumed + startPos`. `none` means that the fuel ran out. A read that fails, also one that yields
-- less than a length, and a length of 0 end the loop without an error.
unfoldable pub read_section : ℕ → ℕ → ℕ → ℤ → ℤ → Bytes → Option (Result Error (List Record))
unfolding remaining refuses_length with_first
read_section zero at size' offset' max' r = none
read_section (suc fuel) at size' offset' max' r = elim (next_frame r) [
  | none ↦ some (ok [])
  | some (data', rest) ↦ elim (decode_record data') [
    | err e ↦ some (err e)
    | ok rec ↦ elim (validate_record data' (pos_part rec.offset)) [
      | err e ↦ some (err e)
      | ok _ ↦ elim (int_ltb rec.offset offset') [
        | true ↦ read_section fuel (at + (4 + length data') % 2 ^ 32) size' offset' max' rest
        | false ↦ elim (refuses_length max' (value_length rec)) [
          | true ↦ some (err out_of_range)
          | false ↦ elim (remaining max' (value_length rec)) [
            | none ↦ some (ok (rec ∷ []))
            | some max'' ↦ elim (leb size' (at + (4 + length data') % 2 ^ 32)) [
              | true ↦ some (ok (rec ∷ []))
              | false ↦
                  with_first rec
                    (read_section fuel (at + (4 + length data') % 2 ^ 32) size' offset' max'' rest)
            ]
          ]
        ]
      ]
    ]
  ]
]

-- io.NewSectionReader(seg.file, startPos, seg.size-startPos), before anything was read.
abbrev pub section : Segment → ℕ → Bytes
section s start' = take (s.size - start') (drop start' s.file)

-- What `lookupIndex` found: 0 where it found nothing.
abbrev pub start_or_zero : Option ℕ → ℕ
start_or_zero none = 0
start_or_zero (some at) = at

-- `readFromSegment`, for an offset that is not below the base of the segment.
unfoldable pub read_from_segment : Segment → ℕ → ℤ → Option (Result Error (List Record))
unfolding read_section
read_from_segment s offset' max' = elim (lookup_index s.idx (offset' - s.base_offset)) [
  | none ↦ none
  | some found ↦
      let start' = start_or_zero found in
      read_section (suc (length (section s start'))) start' s.size (pos offset') max'
        (section s start')
]

-- The loop of `Read` over the records of a segment: those it takes, and the bytes read, an int32;
-- `true` where the budget is reached.
unfoldable pub take_records : ℤ → ℤ → List Record → Result Error (List Record × (ℤ × Bool))
take_records max' got [] = ok ([], (got, false))
take_records max' got (r ∷ rs) =
    let rest =
      take_records max'
        (if int_ltb (pos 0) max'
          then of_pattern i32_half ((to_pattern i32_half got + value_length r) % 2 ^ 32)
          else got)
        rs in
    if not (int_ltb (pos 0) max')
    then elim rest [ err e ↦ err e | ok (rs', t) ↦ ok (r ∷ rs', t) ]
    else if leb i32_half (value_length r)
    then err out_of_range
    else (let got' = of_pattern i32_half ((to_pattern i32_half got + value_length r) % 2 ^ 32) in
        if int_ltb got' max'
        then elim rest [ err e ↦ err e | ok (rs', t) ↦ ok (r ∷ rs', t) ]
        else ok (r ∷ [], (got', true)))

-- maxBytes-bytesRead
abbrev pub left_over : ℤ → ℤ → ℤ
left_over max' got =
    of_pattern i32_half ((to_pattern i32_half max' + (2 ^ 32 - to_pattern i32_half got)) % 2 ^ 32)

-- The loop of `Read` over the segments.
unfoldable pub read_segments : ℤ → ℤ → ℤ → List Segment → Option (Result Error (List Record))
unfolding read_from_segment take_records
read_segments offset' max' got [] = some (ok [])
read_segments offset' max' got (s ∷ ss) = elim (int_ltb offset' (pos s.next_offset)) [
  | false ↦ read_segments offset' max' got ss
  | true ↦
      let from = if int_ltb offset' (pos s.base_offset) then s.base_offset else pos_part offset' in
      elim (read_from_segment s from (left_over max' got)) [
        | none ↦ none
        | some (err e) ↦ some (err e)
        | some (ok records) ↦ elim (take_records max' got records) [
          | err e ↦ some (err e)
          | ok (rs, (got', true)) ↦ some (ok rs)
          | ok (rs, (got', false)) ↦ elim (read_segments (pos s.next_offset) max' got' ss) [
            | none ↦ none
            | some (err e) ↦ some (err e)
            | some (ok more) ↦ some (ok (rs ++ more))
          ]
        ]
      ]
]

abbrev as_log_error : Result Error (List Record) → Result LogError (List Record)
as_log_error (err e) = err (Log.codec_error e)
as_log_error (ok rs) = ok rs

-- `Read`
unfoldable pub read : SegmentedLog → ℤ → ℤ → Option (Result LogError (List Record))
unfolding read_segments
read l offset' max' =
    if l.closed
    then some (err Log.log_closed)
    else if int_ltb offset' (pos l.next_offset)
    then elim (read_segments offset' max' (pos 0) l.segments) [
      | none ↦ none
      | some res ↦ some (as_log_error res)
    ]
    else some (ok [])
