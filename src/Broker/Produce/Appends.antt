-- ===== src/Broker/Produce/Appends.antt =====
-- What Produce does to the partition it is for, and that it leaves the others alone.
use wave_mq.Prelude.{
  ℕ, zero, suc, ◌+◌, ◌-◌, ◌<◌, ◌≡◌, refl, sym, ap, ◌∙◌, true, false, ◌&&◌, Bool-cases, ◌⊎◌, inl,
  inr, none, some, List, ◌∷◌, ◌++◌, length, take, drop, take-append-drop, ◌==◌, if◌then◌else◌, ok,
  err, arith,
}
use wave_mq.Wire.{
  Bytes, ℤ, pos, negsuc, int_eq, int_eq_refl, int_ltb, string_eq, string_eq_refl, string_eq→eq,
}
use wave_mq.Api.{Record}
use wave_mq.Storage.Log.{LogConfig, Clock, Segment, SegmentedLog, append_batch, high_watermark}
use wave_mq.Storage.Log.View
use wave_mq.Storage.Log.WellFormed.{WellFormed, contents, contents-append}
use wave_mq.Storage.Log.Append.{stamp_all}
use wave_mq.Storage.Log.Batch.{append_batch_lem}
use wave_mq.Broker.{Broker, Partition, Topic}
use wave_mq.Broker.Maps.{find, put, string_key, int_key, find-put}
use wave_mq.Broker.Produce

-- The partition of a topic, where it has both.
abbrev pub Located : Bytes → ℤ → Broker → Topic → Partition → Type 0
Located topic part b t p =
    (b.closed ≡ false)
    × (find string_key topic b.topics ≡ some t)
    × (find int_key part t.partitions ≡ some p)

module _ (topic : Bytes) (part : ℤ) (b : Broker) (t : Topic) (p : Partition)
    (at : Located topic part b t p) where
  located : Produce.locate topic part b ≡ ok p
  unfolding Produce.locate Produce.in_topic
  located = rw (at.0, at.1, at.2, Produce.in_topic) refl

  module _ (p' : Partition) where
    abbrev t' : Topic
    t' = record t { partitions = put int_key part p' t.partitions }

    stored :
        Produce.with_partition topic part p' b
        ≡ record b { topics = put string_key topic t' b.topics }
    unfolding Produce.with_partition
    stored = rw (at.1, Produce.with_partition) refl

    abbrev b' : Broker
    b' = record b { topics = put string_key topic t' b.topics }

    located_again : Produce.locate topic part b' ≡ ok p'
    unfolding Produce.locate Produce.in_topic
    located_again =
        let found : find string_key topic (put string_key topic t' b.topics) ≡ some t' =
          find-put string_key topic topic t' b.topics
          ∙ ap (λ c. if c then some t' else find string_key topic b.topics)
              (string_eq_refl topic) in
        let inner : find int_key part (put int_key part p' t.partitions) ≡ some p' =
          find-put int_key part part p' t.partitions
          ∙ ap (λ c. if c then some p' else find int_key part t.partitions) (int_eq_refl part) in
        rw (found, inner, at.0, Produce.in_topic) refl

    -- In a topic with another name, or at another partition, nothing changes.
    others_same :
        (topic' : Bytes) (part' : ℤ)
        → (string_eq topic topic' && int_eq part part') ≡ false
        → Produce.locate topic' part' b' ≡ Produce.locate topic' part' b
    unfolding Produce.locate Produce.in_topic
    others_same topic' part' other =
        ap (λ o. if b.closed then err Produce.broker_closed else Produce.in_topic part' o)
          (find-put string_key topic topic' t' b.topics)
        ∙ split (Bool-cases (string_eq topic topic'))
      where
        same_inside :
            string_eq topic topic' ≡ true
            → Produce.in_topic part' (some t')
              ≡ Produce.in_topic part' (find string_key topic' b.topics)
        same_inside y =
            let e : topic ≡ topic' = string_eq→eq topic topic' y in
            let same : find string_key topic' b.topics ≡ some t =
              ap (λ k. find string_key k b.topics) (sym e) ∙ at.1 in
            let apart : int_eq part part' ≡ false = rw y at other in
            let inner : find int_key part' (put int_key part p' t.partitions)
                ≡ find int_key part' t.partitions =
              find-put int_key part part' p' t.partitions
              ∙ ap (λ c. if c then some p' else find int_key part' t.partitions) apart in
            rw (same, inner, Produce.in_topic) refl

        split :
            ((string_eq topic topic' ≡ true) ⊎ (string_eq topic topic' ≡ false))
            → (if b.closed
                then err Produce.broker_closed
                else Produce.in_topic part'
                    (if string_eq topic topic' then some t' else find string_key topic' b.topics))
              ≡ (if b.closed
                  then err Produce.broker_closed
                  else Produce.in_topic part' (find string_key topic' b.topics))
        split (inl y) =
            rw y (ap (λ o. if b.closed then err Produce.broker_closed else o) (same_inside y))
        split (inr n) = rw n refl

module _ (cfg : LogConfig) (clock : Clock) (topic : Bytes) (part : ℤ) (r : Record)
    (rs : List Record) where
  produce_stored :
      (b : Broker) (p : Partition)
      → Produce.locate topic part b ≡ ok p
      → Produce.refuses topic part b p ≡ none
      → Produce.produce cfg clock topic part (r ∷ rs) b
        ≡ Produce.store_partition topic part b (Produce.produce_to cfg clock (r ∷ rs) p)
  unfolding Produce.produce
  produce_stored b p at accepted = rw (at, accepted, Produce.produce) refl

  produced_batch :
      (p : Partition)
      → Produce.produce_to cfg clock (r ∷ rs) p
        ≡ Produce.produced (length (r ∷ rs)) p (append_batch cfg clock (r ∷ rs) p.log)
  unfolding Produce.produce_to
  produced_batch p = ground arith

raised_watermark :
    (l l' : SegmentedLog) (count : ℕ)
    → l'.next_offset ≡ l.next_offset + suc count
    → Produce.raised (high_watermark l) (pos (l.next_offset + (suc count - 1))) ≡ high_watermark l'
unfolding Produce.raised high_watermark int_ltb
raised_watermark l l' count e = numbers l.next_offset l'.next_offset e
  where
    numbers :
        (n m : ℕ)
        → m ≡ n + suc count
        → Produce.raised (if n == 0 then negsuc 0 else pos (n - 1)) (pos (n + (suc count - 1)))
          ≡ (if m == 0 then negsuc 0 else pos (m - 1))
    numbers zero m e = ground arith
    numbers (suc n) m e = ground arith

contents-take-drop :
    (n : ℕ) (ss : List Segment) → contents ss ≡ contents (take n ss) ++ contents (drop n ss)
contents-take-drop n ss =
    ap contents (sym (take-append-drop n ss)) ∙ contents-append (take n ss) (drop n ss)

-- Produce through the storage. On an open broker that has the partition and is its leader, or is not in
-- a cluster, where the partition's log is open and in order with a segment and its high watermark is
-- the log's, and the encoder takes every record of a batch that is not empty: Produce succeeds and
-- returns the log's next offset. Afterwards the log of the partition is in order, its next offset is
-- larger by the length of the batch, and its files are those of before with the encoded records of the
-- batch added at the end, in order, less what the retention drops: the bytes of before followed by those
-- of the records are the dropped bytes followed by the bytes that are there. The high watermark of the
-- partition is the log's again, and what is found of any other partition, or in any other topic, is what
-- was found before.
pub produce_lem :
    (cfg : LogConfig) (clock : Clock) (topic : Bytes) (part : ℤ) (r : Record) (rs : List Record)
    (b : Broker) (t : Topic) (p : Partition) (bs : List Bytes) (topic' : Bytes) (part' : ℤ)
    → Located topic part b t p
    → Produce.refuses topic part b p ≡ none
    → WellFormed p.log
    → 0 < length p.log.segments
    → p.log.closed ≡ false
    → p.metadata.high_watermark ≡ high_watermark p.log
    → View.encodings (stamp_all clock p.log.next_offset (r ∷ rs)) ≡ ok bs
    → (string_eq topic topic' && int_eq part part') ≡ false
    → (b' : Broker) × (p' : Partition) × (Produce.produce cfg clock topic part (r ∷ rs) b
        ≡ (b', ok (pos p.log.next_offset)))
      × (Produce.locate topic part b' ≡ ok p')
      × (p'.log.next_offset ≡ p.log.next_offset + length (r ∷ rs))
      × (View.view p'.log.segments
          ≡ View.retained cfg clock.retention_at (
              View.add_records cfg.max_segment_bytes clock p.log.next_offset bs
                (View.view p.log.segments)))
      × ((dropped : Bytes) × (contents p.log.segments ++ View.joined bs
            ≡ dropped ++ contents p'.log.segments))
      × WellFormed p'.log
      × (p'.metadata.high_watermark ≡ high_watermark p'.log)
      × (Produce.locate topic' part' b' ≡ Produce.locate topic' part' b)
unfolding Produce.produced Produce.store_partition
produce_lem cfg clock topic part r rs b t p bs topic' part' at accepted h n is_open hw w other =
    let (l', appended, removed, e, next_eq, added, bytes_eq, cut, left, _, _, _, well) =
      append_batch_lem cfg clock r rs p.log bs h n is_open w in
    let p' = Produce.with_log l' (high_watermark l') p in
    (
      b' topic part b t p at p',
      p',
      runs l' e next_eq,
      located_again topic part b t p at p',
      (unfold Produce.with_log in next_eq),
      (unfold Produce.with_log in left ∙ ap (View.retained cfg clock.retention_at) added),
      (
        contents (take removed appended),
        (unfold Produce.with_log in
            sym bytes_eq
            ∙ (contents-take-drop removed appended
                ∙ ap (λ ss. contents (take removed appended) ++ contents ss) (sym cut))),
      ),
      (unfold Produce.with_log in well),
      (unfold Produce.with_log in refl),
      others_same topic part b t p at p' topic' part' other,
    )
  where
    raised :
        (l' : SegmentedLog)
        → l'.next_offset ≡ p.log.next_offset + length (r ∷ rs)
        → Produce.produced (length (r ∷ rs)) p (l', ok p.log.next_offset)
          ≡ (Produce.with_log l' (high_watermark l') p, ok (pos p.log.next_offset))
    raised l' next_eq =
        ap (λ z. (Produce.with_log l' z p, ok (pos p.log.next_offset)))
          (ap (λ x. Produce.raised x (pos (p.log.next_offset + (length (r ∷ rs) - 1)))) hw
            ∙ raised_watermark p.log l' (length rs) next_eq)

    stored_result :
        (p' : Partition)
        → Produce.store_partition topic part b (p', ok (pos p.log.next_offset))
          ≡ (b' topic part b t p at p', ok (pos p.log.next_offset))
    stored_result p' = ap (λ x. (x, ok (pos p.log.next_offset))) (stored topic part b t p at p')

    runs :
        (l' : SegmentedLog)
        → append_batch cfg clock (r ∷ rs) p.log ≡ (l', ok p.log.next_offset)
        → l'.next_offset ≡ p.log.next_offset + length (r ∷ rs)
        → Produce.produce cfg clock topic part (r ∷ rs) b ≡ (
          b' topic part b t p at (Produce.with_log l' (high_watermark l') p),
          ok (pos p.log.next_offset),
        )
    runs l' e next_eq =
        produce_stored cfg clock topic part r rs b p (located topic part b t p at) accepted
        ∙ (ap (Produce.store_partition topic part b) (
              produced_batch cfg clock topic part r rs p
              ∙ (ap (Produce.produced (length (r ∷ rs)) p) e ∙ (raised l' next_eq)))
            ∙ stored_result (Produce.with_log l' (high_watermark l') p))
