-- ===== src/Metadata/Validity.antt =====
-- What `RecoverTopics` accepts, whatever stands in the file.
use wave_mq.Prelude.{
  ℕ, ◌^◌, ◌≤◌, ◌<◌, ◌≡◌, refl, sym, ap, ◌∙◌, Bool, true, false, ◌&&◌, not, ◌==◌, Option, none, some,
  List, [], ◌∷◌, All, length, take, take-length, length-take, drop, ltb, if◌then◌else◌, Result, ok,
  err, arith,
}
use wave_mq.Wire.{
  Bytes, IsByte, Error, invalid_event, unsupported_version, Reader, pure, raise, reject_if, ◌>>=◌,
  ◌>>◌, le_value, crc32c, string_eq,
}
use wave_mq.Frames.{scan}
use wave_mq.Frames.Scan.{fold_steps, fold_steps-cons, scan-Found, scan-take}
use wave_mq.Metadata.Event
use wave_mq.Metadata.Event.{CreateTopicEvent, event_is_valid}
use wave_mq.Metadata.Creation.{known_or, add_topic-eq}
use wave_mq.Metadata

module _ {ℓ} {A : Type ℓ} (p : A → Bool) where
  -- All that a reader returns passes the test.
  record Ensures (m : Reader A) : Type ℓ where
    at : (r : Bytes) (a : A) (r' : Bytes) → m r ≡ ok (a, r') → p a ≡ true

  Ensures-raise : (e : Error) → Ensures (raise e)
  unfolding raise
  Ensures-raise e = record { at = λ r a r' h. cc }

  Ensures-if : (b : Bool) {m n : Reader A} → Ensures m → Ensures n → Ensures (if b then m else n)
  Ensures-if true h k = h
  Ensures-if false h k = k

  module _ {κ} {B : Type κ} (m : Reader B) (f : B → Reader A) (h : (b : B) → Ensures (f b)) where
    after_read :
        (x : Result Error (B × Bytes)) (r : Bytes) (a : A) (r' : Bytes)
        → m r ≡ x
        → (m >>= f) r ≡ ok (a, r')
        → p a ≡ true
    unfolding ◌>>=◌
    after_read (ok (b, s)) r a r' e q = (h b).at s a r' (rw (e, ◌>>=◌) at q)
    after_read (err x) r a r' e q = absurd (failed (rw (e, ◌>>=◌) at q))
      where
        failed : ◌≡◌ {A = Result Error (A × Bytes)} (err x) (ok (a, r')) → ⊥
        failed t = cc

    Ensures-bind : Ensures (m >>= f)
    Ensures-bind = record { at = λ r a r' q. after_read (m r) r a r' refl q }

accepted_only :
    (b : Bool) (ev ev' : CreateTopicEvent) (r r' : Bytes)
    → event_is_valid ev ≡ b
    → (reject_if (not b) invalid_event >> pure ev) r ≡ ok (ev', r')
    → event_is_valid ev' ≡ true
unfolding reject_if raise pure ◌>>=◌
accepted_only true ev ev' r r' v e = let same : ev ≡ ev' = cc in ap event_is_valid (sym same) ∙ v
accepted_only false ev ev' r r' v e = cc

accept_event-Ensures : (ev : CreateTopicEvent) → Ensures event_is_valid (Event.accept_event ev)
accept_event-Ensures ev = record {
  at =
      λ r a r' e. accepted_only (event_is_valid ev) ev a r r' refl (unfold Event.accept_event in e);
}

read_event-Ensures : (version : ℕ) → Ensures event_is_valid (Event.read_event version)
unfolding Event.read_event
read_event-Ensures version =
    Ensures-if _ (version == 1) first
      (Ensures-if _ (version == 2) second (Ensures-raise _ unsupported_version))
  where
    first : Ensures event_is_valid Event.read_event_v1
    first =
        unfold Event.read_event_v1 in
        Ensures-bind _ _ _ λ n. Ensures-bind _ _ _ λ name. Ensures-bind _ _ _ λ parts.
          Ensures-bind _ _ _
            λ rf. Ensures-bind _ _ _ λ count. Ensures-bind _ _ _ λ ps. accept_event-Ensures _

    second : Ensures event_is_valid Event.read_event_v2
    second =
        unfold Event.read_event_v2 in
        Ensures-bind _ _ _ λ n. Ensures-bind _ _ _ λ name. Ensures-bind _ _ _ λ parts.
          Ensures-bind _ _ _ λ rf. Ensures-bind _ _ _ λ bytes. Ensures-bind _ _ _ λ nanos.
            Ensures-bind _ _ _ λ u.
              Ensures-bind _ _ _
                λ u'. Ensures-bind _ _ _ λ count. Ensures-bind _ _ _ λ ps. accept_event-Ensures _

-- What a log entry may be turned into.
valid_entry : Option Metadata.Decoded → Bool
valid_entry none = true
valid_entry (some (Metadata.create_topic ev)) = event_is_valid ev
valid_entry (some (Metadata.unknown_event t)) = true

valid_event :
    (x : Result Error (CreateTopicEvent × Bytes)) (version : ℕ) (body : Bytes)
    → Event.read_event version body ≡ x
    → valid_entry (Metadata.decoded_event x) ≡ true
unfolding valid_entry Metadata.decoded_event
valid_event (ok (ev, rest)) version body e = (read_event-Ensures version).at body ev rest e
valid_event (err x) version body e = refl

either_valid :
    (b : Bool) (x y : Option Metadata.Decoded)
    → valid_entry x ≡ true
    → valid_entry y ≡ true
    → valid_entry (if b then x else y) ≡ true
either_valid true x y h k = h
either_valid false x y h k = k

decode_payload-valid : (bs : Bytes) → valid_entry (Metadata.decode_payload bs) ≡ true
unfolding Metadata.decode_payload
decode_payload-valid [] = unfold valid_entry in refl
decode_payload-valid (v ∷ []) = unfold valid_entry in refl
decode_payload-valid (v ∷ (t ∷ body)) =
    either_valid (t == 1) _ _ (valid_event (Event.read_event v body) v body refl)
      (unfold valid_entry in refl)

decode_record-valid : (rec : Bytes) → valid_entry (Metadata.decode_record rec) ≡ true
unfolding Metadata.decode_record
decode_record-valid rec = either_valid (ltb (length rec) 6) none _ (unfold valid_entry in refl) (
    either_valid (not (le_value (take 4 rec) == crc32c (drop 4 rec))) none _
      (unfold valid_entry in refl) (decode_payload-valid (drop 4 rec)))

-- A topic that was found is valid, and stands under its own name.
unfoldable pub is_sound : Bytes → Option CreateTopicEvent → Bool
is_sound name none = true
is_sound name (some ev) = event_is_valid ev && string_eq ev.name name

module _ (name : Bytes) where
  add_sound :
      (o : Option CreateTopicEvent) (ev : CreateTopicEvent) (b : Bool)
      → string_eq ev.name name ≡ b
      → is_sound name o ≡ true
      → event_is_valid ev ≡ true
      → is_sound name (known_or o (if b then some ev else none)) ≡ true
  unfolding is_sound known_or
  add_sound (some e) ev b s h v = h
  add_sound none ev true s h v = ground (arith, s, v)
  add_sound none ev false s h v = refl

  apply_decoded_sound :
      (topics topics' : Metadata.Topics) (d : Option Metadata.Decoded)
      → valid_entry d ≡ true
      → Metadata.apply_decoded topics d ≡ some topics'
      → is_sound name (topics name) ≡ true
      → is_sound name (topics' name) ≡ true
  unfolding Metadata.apply_decoded valid_entry
  apply_decoded_sound topics topics' none v e h = cc
  apply_decoded_sound topics topics' (some (Metadata.create_topic ev)) v e h =
      let same : Metadata.add_topic topics ev ≡ topics' = cc in
      rw (← same, add_topic-eq) (add_sound (topics name) ev (string_eq ev.name name) refl h v)
  apply_decoded_sound topics topics' (some (Metadata.unknown_event t)) v e h =
      let same : topics ≡ topics' = cc in rw (← same) h

  recover_record_sound :
      (topics topics' : Metadata.Topics) (rec : Bytes)
      → Metadata.recover_record topics rec ≡ some topics'
      → is_sound name (topics name) ≡ true
      → is_sound name (topics' name) ≡ true
  unfolding Metadata.recover_record
  recover_record_sound topics topics' rec e h =
      apply_decoded_sound topics topics' (Metadata.decode_record rec) (decode_record-valid rec) e h

  fold_sound :
      (recs : List Bytes) (topics topics' : Metadata.Topics)
      → fold_steps Metadata.recover_record topics recs ≡ some topics'
      → is_sound name (topics name) ≡ true
      → is_sound name (topics' name) ≡ true
  fold_sound [] topics topics' e h = same (unfold fold_steps in e)
    where
      same : some topics ≡ some topics' → is_sound name (topics' name) ≡ true
      same q = let eq : topics ≡ topics' = cc in rw (← eq) h
  fold_sound (rec ∷ recs) topics topics' e h =
      let (next, one, more) = fold_steps-cons Metadata.recover_record topics rec recs e in
      fold_sound recs next topics' more (recover_record_sound topics next rec one h)

recovered_of :
    (s : Metadata.Store) (topics : Metadata.Topics) (n : ℕ)
    → scan Metadata.recover_record Metadata.no_topics s.file ≡ some (topics, n)
    → Metadata.recover_topics s ≡ some (topics, record { file = take n s.file; end = n })
unfolding Metadata.recover_topics
recovered_of s topics n e = rw (e, Metadata.recover_topics) refl

take_twice : (n : ℕ) (xs : Bytes) → n ≤ length xs → take n (take n xs) ≡ take n xs
take_twice n xs h =
    let size : length (take n xs) ≡ n = omega (arith, length-take n xs) in
    rw size at (take-length (take n xs))

-- A damaged metadata log never yields a topic that could not have been created. On any file of bytes
-- below 4 GiB `RecoverTopics` ends and succeeds; each topic that it returns has passed the validation
-- of an event and stands under its own name; and once it has repaired the file, it returns the same
-- topics again and leaves file and position as they are.
pub recover_topics_sound :
    (s : Metadata.Store) (name : Bytes)
    → length s.file < 2 ^ 32
    → All IsByte s.file
    → (topics : Metadata.Topics) × (s' : Metadata.Store) × (Metadata.recover_topics s
        ≡ some (topics, s'))
      × (is_sound name (topics name) ≡ true)
      × (Metadata.recover_topics s' ≡ some (topics, s'))
recover_topics_sound s name small bytes =
    let (topics, n, e, found) =
      scan-Found Metadata.recover_record Metadata.no_topics s.file small bytes in
    let (within, again) =
      scan-take Metadata.recover_record Metadata.no_topics s.file topics n small bytes e in
    (
      topics,
      record { file = take n s.file; end = n },
      recovered_of s topics n e,
      fold_sound name found.records Metadata.no_topics topics found.state (unfold is_sound in refl),
      rw (take_twice n s.file within) at
          (recovered_of (record { file = take n s.file; end = n }) topics n again),
    )
