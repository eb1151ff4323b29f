-- ===== src/OffsetStore/Repair.antt =====
-- `Recover` on a file of which nothing is known.
use wave_mq.Prelude.{
  ℕ, ◌^◌, ◌≤◌, ◌<◌, ◌≡◌, some, All, length, take, take-length, length-take, arith,
}
use wave_mq.Wire.{IsByte}
use wave_mq.Frames.{scan}
use wave_mq.Frames.Scan.{scan-Found, scan-take}
use wave_mq.OffsetStore.{Offsets, no_offsets, recover_record, OffsetStore, recover}

recovered_of :
    (s : OffsetStore) (m : Offsets) (n : ℕ)
    → scan recover_record no_offsets s.file ≡ some (m, n)
    → recover s ≡ some (m, record { file = take n s.file })
unfolding recover
recovered_of s m n e = rw (e, recover)

-- Recovery of the offset log ends on whatever it finds, and need not be run twice. On any file of
-- bytes below 4 GiB `Recover` succeeds, keeps at most the file that it found, and on the file that it
-- leaves returns the same offsets and changes nothing.
pub recover_repair :
    (s : OffsetStore)
    → length s.file < 2 ^ 32
    → All IsByte s.file
    → (m : Offsets) × (s' : OffsetStore) × (recover s ≡ some (m, s'))
      × (length s'.file ≤ length s.file)
      × (recover s' ≡ some (m, s'))
recover_repair s small bytes =
    let (m, n, e, found) = scan-Found recover_record no_offsets s.file small bytes in
    let (within, again) = scan-take recover_record no_offsets s.file m n small bytes e in
    let size : length (take n s.file) ≡ n = omega (arith, length-take n s.file) in
    (
      m,
      record { file = take n s.file },
      recovered_of s m n e,
      omega (arith, size),
      rw (rw size at (take-length (take n s.file))) at
          (recovered_of (record { file = take n s.file }) m n again),
    )
