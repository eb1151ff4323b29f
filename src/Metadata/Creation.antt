-- ===== src/Metadata/Creation.antt =====
-- `RecoverTopics` after topics were created through `AppendCreateTopic`.
use wave_mq.Prelude.{
  ℕ, zero, suc, ◌+◌, ◌^◌, ◌≤◌, ◌<◌, ◌≡◌, refl, sym, ap, ◌∙◌, true, false, Bool, Bool-cases, ◌⊎◌,
  inl, inr, Option, none, some, List, [], ◌∷◌, ◌++◌, append_assoc, append-nil, All, length,
  take-length, drop, length-append, if◌then◌else◌, Result, ok, err, arith,
}
use wave_mq.Wire.{Bytes, Error, Writer, ◌▹◌, string_eq, string_eq→eq}
use wave_mq.Frames.{next_frame}
use wave_mq.Frames.Scan.{no_frame}
use wave_mq.Metadata.Event.{CreateTopicEvent, write_event}
use wave_mq.Metadata.Event.RoundTrip.{EventFits}
use wave_mq.Metadata.Recovery.{write_events, replay_from, recover-Stops}
use wave_mq.Metadata

-- Events in turn through `AppendCreateTopic`; the first error ends them.
unfoldable pub create_all : Metadata.Store → List CreateTopicEvent → Result Error Metadata.Store
create_all s [] = ok s
create_all s (ev ∷ evs) = elim (Metadata.append_create_topic s ev) [
  | ok s' ↦ create_all s' evs
  | err e ↦ err e
]

-- The first event with a name.
unfoldable pub first_event : List CreateTopicEvent → Bytes → Option CreateTopicEvent
first_event [] name = none
first_event (ev ∷ evs) name = if string_eq ev.name name then some ev else first_event evs name

unfoldable pub known_or :
    Option CreateTopicEvent → Option CreateTopicEvent → Option CreateTopicEvent
known_or (some ev) o = some ev
known_or none o = o

known_or-none : (o : Option CreateTopicEvent) → known_or o none ≡ o
unfolding known_or
known_or-none (some ev) = refl
known_or-none none = refl

known_or_assoc :
    (o : Option CreateTopicEvent) (b : Bool) (ev : CreateTopicEvent) (p : Option CreateTopicEvent)
    → known_or (known_or o (if b then some ev else none)) p ≡ known_or o (if b then some ev else p)
unfolding known_or
known_or_assoc (some e) b ev p = refl
known_or_assoc none true ev p = refl
known_or_assoc none false ev p = refl

module _ (topics : Metadata.Topics) (ev : CreateTopicEvent) (name : Bytes) where
  -- Whether the topic exists is asked of the event's own name.
  by_name :
      (o : Option CreateTopicEvent)
      → topics ev.name ≡ o
      → Metadata.add_topic topics ev name ≡ elim o [
        | some _ ↦ topics name
        | none ↦ if string_eq ev.name name then some ev else topics name
      ]
  by_name o e = rw (← e) (unfold Metadata.add_topic in refl)

  other_name :
      (o : Option CreateTopicEvent)
      → topics ev.name ≡ o
      → string_eq ev.name name ≡ false
      → Metadata.add_topic topics ev name ≡ topics name
  other_name (some e) h n = by_name (some e) h
  other_name none h n = by_name none h ∙ rw n refl

  own_name :
      (o : Option CreateTopicEvent)
      → topics ev.name ≡ o
      → string_eq ev.name name ≡ true
      → Metadata.add_topic topics ev name ≡ known_or (topics name) (some ev)
  own_name (some e) h y =
      let found : topics name ≡ some e = ap topics (sym (string_eq→eq ev.name name y)) ∙ h in
      by_name (some e) h ∙ rw found (unfold known_or in refl)
  own_name none h y =
      let free : topics name ≡ none = ap topics (sym (string_eq→eq ev.name name y)) ∙ h in
      by_name none h ∙ rw (y, free) (unfold known_or in refl)

  pub add_topic-eq :
      Metadata.add_topic topics ev name
      ≡ known_or (topics name) (if string_eq ev.name name then some ev else none)
  add_topic-eq = split (Bool-cases (string_eq ev.name name))
    where
      split :
          ((string_eq ev.name name ≡ true) ⊎ (string_eq ev.name name ≡ false))
          → Metadata.add_topic topics ev name
            ≡ known_or (topics name) (if string_eq ev.name name then some ev else none)
      split (inl y) = rw y (own_name (topics ev.name) refl y)
      split (inr n) = rw n (other_name (topics ev.name) refl n ∙ sym (known_or-none (topics name)))

replay_from-first :
    (evs : List CreateTopicEvent) (topics : Metadata.Topics) (name : Bytes)
    → replay_from topics evs name ≡ known_or (topics name) (first_event evs name)
unfolding replay_from first_event
replay_from-first [] topics name = sym (known_or-none (topics name))
replay_from-first (ev ∷ evs) topics name =
    replay_from-first evs (Metadata.add_topic topics ev) name
    ∙ (ap (λ o. known_or o (first_event evs name)) (add_topic-eq topics ev name)
        ∙ known_or_assoc (topics name) (string_eq ev.name name) ev (first_event evs name))

drop_past : (xs : Bytes) (n : ℕ) → length xs ≤ n → drop n xs ≡ []
drop_past [] zero h = refl
drop_past [] (suc n) h = refl
drop_past (x ∷ xs) zero h = absurd (omega arith)
drop_past (x ∷ xs) (suc n) h = drop_past xs n (omega arith)

-- A store that writes behind its file.
abbrev pub whole_store : Bytes → Metadata.Store
whole_store file = record { file = file; end = length file }

write_at_end-ok :
    (file rec : Bytes)
    → Metadata.write_at_end (whole_store file) (ok rec) ≡ ok (whole_store (file ++ rec))
unfolding Metadata.write_at_end
write_at_end-ok file rec =
    let past : drop (length file + length rec) file ≡ [] =
      drop_past file (length file + length rec) (omega arith) in
    rw (take-length, past, append-nil, length-append) refl

append_create_topic-eq :
    (file : Bytes) (ev : CreateTopicEvent) (w : Writer)
    → Metadata.wrap_record (write_event ev) ≡ w
    → Metadata.append_create_topic (whole_store file) ev
      ≡ Metadata.write_at_end (whole_store file) w
unfolding Metadata.append_create_topic
append_create_topic-eq file ev w e = ap (Metadata.write_at_end (whole_store file)) e

create_all_step :
    (file : Bytes) (ev : CreateTopicEvent) (evs : List CreateTopicEvent) (w : Writer)
    {s' : Metadata.Store}
    → Metadata.append_create_topic (whole_store file) ev
      ≡ Metadata.write_at_end (whole_store file) w
    → create_all (whole_store file) (ev ∷ evs) ≡ ok s'
    → (rec : Bytes) × (w ≡ ok rec) × (create_all (whole_store (file ++ rec)) evs ≡ ok s')
unfolding create_all
create_all_step file ev evs (ok rec) e h =
    (rec, refl, rw (e ∙ write_at_end-ok file rec, create_all) at h)
create_all_step file ev evs (err x) e h = absurd (failed (rw (e ∙ refused, create_all) at h))
  where
    refused : Metadata.write_at_end (whole_store file) (err x) ≡ err x
    refused = unfold Metadata.write_at_end in refl

    failed : {s' : Metadata.Store} → ◌≡◌ {A = Result Error Metadata.Store} (err x) (ok s') → ⊥
    failed p = cc

-- The file after the events: what was there, then their records.
create_all-file :
    (evs : List CreateTopicEvent) (file : Bytes) (s' : Metadata.Store)
    → create_all (whole_store file) evs ≡ ok s'
    → (bs : Bytes) × (write_events evs ≡ ok bs) × (s' ≡ whole_store (file ++ bs))
unfolding write_events
create_all-file [] file s' h = ([], refl, start (unfold create_all in h))
  where
    start :
        ◌≡◌ {A = Result Error Metadata.Store} (ok (whole_store file)) (ok s')
        → s' ≡ whole_store (file ++ [])
    start p = let same : whole_store file ≡ s' = cc in rw append-nil (sym same)
create_all-file (ev ∷ evs) file s' h =
    let (rec, written, more) =
      create_all_step file ev evs (Metadata.wrap_record (write_event ev))
        (append_create_topic-eq file ev _ refl) h in
    let (bs, e, whole) = create_all-file evs (file ++ rec) s' more in
    (rec ++ bs, joined rec bs written e, whole ∙ ap whole_store (append_assoc file rec bs))
  where
    joined :
        (rec bs : Bytes)
        → Metadata.wrap_record (write_event ev) ≡ ok rec
        → write_events evs ≡ ok bs
        → Metadata.wrap_record (write_event ev) ▹ write_events evs ≡ ok (rec ++ bs)
    joined rec bs p q = rw (p, q) (unfold ◌▹◌ in refl)

-- A topic that was created is there after a restart, and stays as it was created first. Where events
-- through `AppendCreateTopic`, with fields of Go's widths, have all succeeded on an empty log that
-- stays below 4 GiB, `RecoverTopics` succeeds, changes neither the file nor the position of the next
-- write, and returns for each name the first of these events with that name, or none.
pub recover_topics-first :
    (evs : List CreateTopicEvent) (s : Metadata.Store) (name : Bytes)
    → All EventFits evs
    → create_all (whole_store []) evs ≡ ok s
    → length s.file < 2 ^ 32
    → (topics : Metadata.Topics) × (Metadata.recover_topics s ≡ some (topics, s))
      × (topics name ≡ first_event evs name)
recover_topics-first evs s name h e small =
    let (bs, written, whole) = create_all-file evs [] s e in
    let found =
      recover-Stops evs bs [] (length bs) h written (rw whole at small)
        (unfold next_frame in no_frame refl) in
    (
      replay_from Metadata.no_topics evs,
      rw whole (rw append-nil at found),
      replay_from-first evs Metadata.no_topics name ∙ (unfold known_or in refl),
    )
