-- ===== src/Wire/Monad.antt =====
-- Readers that consume a byte slice from the front, writers that append to a buffer, and the
-- relation between a writer and the reader that takes back what it wrote.
use wave_mq.Prelude.{
  ℕ, ◌+◌, ◌≤◌, arith, length-append, ◌≡◌, refl, ap, ◌∙◌, Bool, true, false, List, [], ◌++◌,
  append_assoc, length, take, drop, leb, if◌then◌else◌, Result, ok, err,
}

abbrev pub Bytes : Type 0
Bytes = List ℕ

-- The errors of the codecs, one for each message (the field names inside a message are left out).
pub data Error : Type 0 where
  eof : Error
  -- no error of the program: the fuel of the model ran out
  no_fuel : Error
  -- toUint16Length, toInt32Length, toUint32Length, toInt32 and their like
  out_of_range string_too_long negative_offset : Error
  -- storage, offset store, metadata store
  record_too_small crc_mismatch offset_mismatch trailing_bytes : Error
  invalid_length invalid_header_count : Error
  invalid_event unsupported_version invalid_role : Error
  -- mqtt
  malformed_remaining_length unsupported_protocol unsupported_packet_type : Error
  -- netproto
  invalid_frame_length frame_too_long invalid_string_length negative_count count_exceeds_max : Error

-- A reader takes the unread bytes and returns a value with the bytes that it left.
abbrev pub Reader {ℓ} : Type ℓ → Type ℓ
Reader A = Bytes → Result Error (A × Bytes)

-- A writer is the bytes that it appends to the buffer, or an error.
abbrev pub Writer : Type 0
Writer = Result Error Bytes

module _ {ℓ} {A : Type ℓ} where
  unfoldable pub pure : A → Reader A
  pure a r = ok (a, r)

  unfoldable pub raise : Error → Reader A
  raise e r = err e

module _ {ℓ κ} {A : Type ℓ} {B : Type κ} where
  infixl 5 ◌>>=◌
  unfoldable pub ◌>>=◌ : Reader A → (A → Reader B) → Reader B
  ◌>>=◌ m f r = elim (m r) [ ok (a, r') ↦ f a r' | err e ↦ err e ]

  pub bind-ok :
      (m : Reader A) (f : A → Reader B) (r : Bytes) {a : A} {r' : Bytes}
      → m r ≡ ok (a, r')
      → (m >>= f) r ≡ f a r'
  unfolding ◌>>=◌
  bind-ok m f r e = rw (e, ◌>>=◌)

infixl 5 ◌>>◌
abbrev pub ◌>>◌ {ℓ} : {B : Type ℓ} → Reader (Unit {0}) → Reader B → Reader B
m >> k = m >>= λ _. k

-- `if bad { return err }`
unfoldable pub reject_if : Bool → Error → Reader (Unit {0})
unfolding pure raise
reject_if b e = if b then raise e else pure tt

-- Whatever goes wrong in `m`, the code reports its own error.
unfoldable pub on_error {ℓ} : {A : Type ℓ} → Error → Reader A → Reader A
on_error e m r = elim (m r) [ ok x ↦ ok x | err _ ↦ err e ]

-- io.ReadFull and binary.Read: exactly `n` bytes, or an error at the end of the input.
unfoldable pub read_full : ℕ → Reader Bytes
read_full n r = if leb n (length r) then ok (take n r, drop n r) else err eof

-- One write after the other; the first error ends the chain.
infixr 6 ◌▹◌
unfoldable pub ◌▹◌ : Writer → Writer → Writer
ok xs ▹ ok ys = ok (xs ++ ys)
ok xs ▹ err e = err e
err e ▹ w = err e

-- A check made before something is written.
abbrev pub check : Bool → Error → Writer
check true e = err e
check false e = ok []

pub ▹-eq-ok :
    (v w : Writer) {bs : Bytes}
    → v ▹ w ≡ ok bs
    → (xs : Bytes) × (ys : Bytes) × (v ≡ ok xs) × (w ≡ ok ys) × (bs ≡ xs ++ ys)
unfolding ◌▹◌
▹-eq-ok (ok xs) (ok ys) h = (xs, ys, refl, refl, cc)
▹-eq-ok (ok xs) (err e) h = cc
▹-eq-ok (err e) w h = cc

pub ▹_assoc : (u v w : Writer) → (u ▹ v) ▹ w ≡ u ▹ (v ▹ w)
unfolding ◌▹◌
▹_assoc (ok xs) (ok ys) (ok zs) = ap ok (append_assoc xs ys zs)
▹_assoc (ok xs) (ok ys) (err e) = refl
▹_assoc (ok xs) (err e) w = refl
▹_assoc (err e) v w = refl

-- Whatever `w` writes, `m` reads back as `a`, and leaves what follows it.
pub record RoundTrips {ℓ} {A : Type ℓ} (m : Reader A) (w : Writer) (a : A) : Type ℓ where
  pub at : (bs rest : Bytes) → w ≡ ok bs → m (bs ++ rest) ≡ ok (a, rest)

-- The length of what a writer writes, where it writes anything.
pub record WritesAtLeast (n : ℕ) (w : Writer) : Type 0 where
  pub at : (bs : Bytes) → w ≡ ok bs → n ≤ length bs

pub WritesAtLeast-bytes : (n : ℕ) (xs : Bytes) → length xs ≡ n → WritesAtLeast n (ok xs)
WritesAtLeast-bytes n xs h = record {
  at = λ bs e. let same : bs ≡ xs = cc in rw same (omega arith);
}

pub WritesAtLeast-▹ :
    (m n : ℕ) (v w : Writer) → WritesAtLeast m v → WritesAtLeast n w → WritesAtLeast (m + n) (v ▹ w)
WritesAtLeast-▹ m n v w h k = record {
  at = λ bs e.
      let (xs, ys, ex, ey, split) = ▹-eq-ok v w e in
      rw split (omega (arith, h.at xs ex, k.at ys ey, length-append xs ys));
}

pub WritesAtLeast-zero : (w : Writer) → WritesAtLeast 0 w
WritesAtLeast-zero w = record { at = λ bs e. omega arith }

pub WritesAtLeast-first : (n : ℕ) (v w : Writer) → WritesAtLeast n v → WritesAtLeast n (v ▹ w)
WritesAtLeast-first n v w h = record {
  at = λ bs e.
      let (xs, ys, ex, ey, split) = ▹-eq-ok v w e in
      rw split (omega (arith, h.at xs ex, length-append xs ys));
}

pub WritesAtLeast-check :
    (n : ℕ) (b : Bool) (e : Error) (w : Writer)
    → WritesAtLeast n w
    → WritesAtLeast n (check b e ▹ w)
unfolding ◌▹◌
WritesAtLeast-check n true e (ok xs) h = record { at = λ bs p. cc }
WritesAtLeast-check n true e (err x) h = record { at = λ bs p. cc }
WritesAtLeast-check n false e (ok xs) h = h
WritesAtLeast-check n false e (err x) h = h

pub ok-injective : {xs ys : Bytes} → ◌≡◌ {A = Writer} (ok xs) (ok ys) → xs ≡ ys
ok-injective e = cc

module _ {ℓ} {A : Type ℓ} where
  pub RoundTrips-bytes :
      {m : Reader A} (xs : Bytes) {a : A}
      → ((rest : Bytes) → m (xs ++ rest) ≡ ok (a, rest))
      → RoundTrips m (ok xs) a
  RoundTrips-bytes xs h = record { at = λ bs rest e. rw (← ok-injective e) (h rest) }

  pub RoundTrips-pure : (a : A) → RoundTrips (pure a) (ok []) a
  unfolding pure
  RoundTrips-pure a = RoundTrips-bytes [] (λ rest. refl)

  pub RoundTrips-on_error :
      {m : Reader A} {w : Writer} {a : A} (e : Error)
      → RoundTrips m w a
      → RoundTrips (on_error e m) w a
  unfolding on_error
  RoundTrips-on_error {m} e h = record { at = λ bs rest p. rw (h.at bs rest p, on_error) }

  -- A check before the rest is written, and one after it is read, that do not fail.
  pub RoundTrips-check :
      {m : Reader A} {w : Writer} {a : A} (b : Bool) (e : Error)
      → (b ≡ false → RoundTrips m w a)
      → RoundTrips m (check b e ▹ w) a
  unfolding ◌▹◌
  RoundTrips-check {w = ok xs} true e h = record { at = λ bs rest p. cc }
  RoundTrips-check {w = err x} true e h = record { at = λ bs rest p. cc }
  RoundTrips-check {w = ok xs} false e h = h refl
  RoundTrips-check {w = err x} false e h = h refl

  pub RoundTrips-reject_if :
      {m : Reader A} {w : Writer} {a : A} (b : Bool) (e : Error)
      → b ≡ false
      → RoundTrips m w a
      → RoundTrips (reject_if b e >> m) w a
  unfolding reject_if pure ◌>>=◌
  RoundTrips-reject_if b e p h = record { at = λ bs rest q. rw p (h.at bs rest q) }

module _ {ℓ κ} {A : Type ℓ} {B : Type κ} where
  pub RoundTrips-bind :
      {m : Reader A} {w : Writer} {a : A} (f : A → Reader B) {v : Writer} {b : B}
      → RoundTrips m w a
      → RoundTrips (f a) v b
      → RoundTrips (m >>= f) (w ▹ v) b
  RoundTrips-bind {m} {w} {a} f {v} {b} h k = record {
    at = λ bs rest e.
        let (xs, ys, ex, ey, split) = ▹-eq-ok w v e in
        rw (split, append_assoc)
          (bind-ok m f (xs ++ (ys ++ rest)) (h.at xs (ys ++ rest) ex) ∙ k.at ys rest ey);
  }

  -- The last step of a reader, which reads nothing more.
  pub RoundTrips-last :
      {m : Reader A} {w : Writer} {a : A} (f : A → Reader B) {b : B}
      → RoundTrips m w a
      → f a ≡ pure b
      → RoundTrips (m >>= f) w b
  unfolding pure
  RoundTrips-last {m} {w} {a} f {b} h e = record {
    at = λ bs rest p. bind-ok m f (bs ++ rest) (h.at bs rest p) ∙ ap (λ g. g rest) e;
  }

  -- A step of a reader that reads nothing.
  pub RoundTrips-skip :
      {m : Reader A} {a : A} (f : A → Reader B) {w : Writer} {b : B}
      → m ≡ pure a
      → RoundTrips (f a) w b
      → RoundTrips (m >>= f) w b
  unfolding pure
  RoundTrips-skip {m} {a} f {w} {b} e h = record {
    at = λ bs rest p. bind-ok m f (bs ++ rest) (ap (λ g. g (bs ++ rest)) e) ∙ h.at bs rest p;
  }
