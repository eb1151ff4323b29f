-- ===== src/Broker/Commits/Committed.antt =====
-- What a group finds committed, and what CommitOffset changes of it.
use wave_mq.Prelude.{
  ◌≡◌, refl, sym, ap, ◌∙◌, Bool, true, false, ◌&&◌, Bool-cases, ◌⊎◌, inl, inr, Option, none, some,
  if◌then◌else◌, Result, ok, err,
}
use wave_mq.Wire.{Bytes, ℤ, string_eq, string_eq→eq, int_eq}
use wave_mq.OffsetStore.{Commit, Offsets, is_key, set_offset, OffsetStore}
use wave_mq.Broker.{Map, Broker, ConsumerGroup}
use wave_mq.Broker.Maps.{find, put, string_key, int_key, find-put}
use wave_mq.Broker.Commits

abbrev pub as_option : Result Commits.BrokerError ℤ → Option ℤ
as_option (ok o) = some o
as_option (err e) = none

-- What a group finds committed.
abbrev pub committed : Broker → Offsets
committed b g t p = as_option (Commits.fetch_committed g t p b)

unfoldable in_group : ConsumerGroup → Bytes → ℤ → Option ℤ
unfolding Commits.topic_offsets
in_group g t p = find int_key p (Commits.topic_offsets t g)

fetched_partition : (o : Option ℤ) → as_option (Commits.fetch_partition o) ≡ o
unfolding Commits.fetch_partition
fetched_partition none = refl
fetched_partition (some o) = refl

fetched_topic :
    (p : ℤ) (o : Option (Map ℤ ℤ))
    → as_option (Commits.fetch_topic p o) ≡ find int_key p (Commits.or_no_offsets o)
unfolding Commits.fetch_topic find
fetched_topic p none = refl
fetched_topic p (some m) = fetched_partition (find int_key p m)

fetched_group :
    (n t : Bytes) (p : ℤ) (o : Option ConsumerGroup)
    → as_option (Commits.fetch_group t p o) ≡ in_group (Commits.or_new_group n o) t p
unfolding Commits.fetch_group in_group Commits.topic_offsets find
fetched_group n t p none = refl
fetched_group n t p (some g) = fetched_topic p (find string_key t g.offsets)

committed-in_group :
    (b : Broker) (n t : Bytes) (p : ℤ)
    → committed b n t p ≡ in_group (Commits.or_new_group n (find string_key n b.groups)) t p
unfolding Commits.fetch_committed
committed-in_group b n t p = fetched_group n t p (find string_key n b.groups)

found_or_else :
    (c : Bool) (m : Map ℤ ℤ) (o : Option (Map ℤ ℤ)) (p : ℤ)
    → find int_key p (Commits.or_no_offsets (if c then some m else o))
      ≡ (if c then find int_key p m else find int_key p (Commits.or_no_offsets o))
found_or_else true m o p = refl
found_or_else false m o p = refl

in_group-set :
    (topic : Bytes) (m : Map ℤ ℤ) (g : ConsumerGroup) (t : Bytes) (p : ℤ)
    → in_group (Commits.set_topic_offsets topic m g) t p
      ≡ (if string_eq topic t then find int_key p m else in_group g t p)
unfolding in_group Commits.set_topic_offsets Commits.topic_offsets
in_group-set topic m g t p =
    ap (λ o. find int_key p (Commits.or_no_offsets o)) (find-put string_key topic t m g.offsets)
    ∙ found_or_else (string_eq topic t) m (find string_key t g.offsets) p

group_or_else :
    (c : Bool) (n t : Bytes) (p : ℤ) (g : ConsumerGroup) (o : Option ConsumerGroup)
    → in_group (Commits.or_new_group n (if c then some g else o)) t p
      ≡ (if c then in_group g t p else in_group (Commits.or_new_group n o) t p)
group_or_else true n t p g o = refl
group_or_else false n t p g o = refl

committed-with_group :
    (n : Bytes) (g : ConsumerGroup) (b : Broker) (n' t : Bytes) (p : ℤ)
    → committed (Commits.with_group n g b) n' t p
      ≡ (if string_eq n n' then in_group g t p else committed b n' t p)
committed-with_group n g b n' t p =
    committed-in_group (Commits.with_group n g b) n' t p
    ∙ found
    ∙ group_or_else (string_eq n n') n' t p g (find string_key n' b.groups)
    ∙ ap (λ x. if string_eq n n' then in_group g t p else x) (sym (committed-in_group b n' t p))
  where
    found :
        in_group
          (Commits.or_new_group n' (find string_key n' (Commits.with_group n g b).groups))
          t
          p
        ≡ in_group
            (Commits.or_new_group n'
              (if string_eq n n' then some g else find string_key n' b.groups))
            t
            p
    found =
        unfold Commits.with_group in
        ap (λ o. in_group (Commits.or_new_group n' o) t p) (find-put string_key n n' g b.groups)

module _ (c : Commit) (b : Broker) where
  g₀ : ConsumerGroup
  g₀ = Commits.or_new_group c.group (find string_key c.group b.groups)

  prepared-same : (t : Bytes) (p : ℤ) → in_group (Commits.prepared_group c b) t p ≡ in_group g₀ t p
  unfolding Commits.prepared_group g₀
  prepared-same t p =
      in_group-set c.topic (Commits.topic_offsets c.topic g₀) g₀ t p
      ∙ split (Bool-cases (string_eq c.topic t))
    where
      split :
          ((string_eq c.topic t ≡ true) ⊎ (string_eq c.topic t ≡ false))
          → (if string_eq c.topic t
              then find int_key p (Commits.topic_offsets c.topic g₀)
              else in_group g₀ t p)
            ≡ in_group g₀ t p
      split (inr n) = rw n refl
      split (inl y) =
          let e : c.topic ≡ t = string_eq→eq c.topic t y in
          rw y (unfold in_group in ap (λ k. find int_key p (Commits.topic_offsets k g₀)) e)

  own_group :
      (n t : Bytes) (p : ℤ)
      → string_eq c.group n ≡ true
      → in_group (Commits.prepared_group c b) t p ≡ committed b n t p
  unfolding g₀
  own_group n t p y =
      let e : c.group ≡ n = string_eq→eq c.group n y in
      prepared-same t p ∙ sym (committed-in_group b c.group t p) ∙ ap (λ k. committed b k t p) e

  -- To make a group and a map for a topic changes nothing that is committed.
  pub refused-same :
      (n t : Bytes) (p : ℤ)
      → committed (Commits.with_group c.group (Commits.prepared_group c b) b) n t p
        ≡ committed b n t p
  refused-same n t p =
      committed-with_group c.group (Commits.prepared_group c b) b n t p
      ∙ split (Bool-cases (string_eq c.group n))
    where
      split :
          ((string_eq c.group n ≡ true) ⊎ (string_eq c.group n ≡ false))
          → (if string_eq c.group n
              then in_group (Commits.prepared_group c b) t p
              else committed b n t p)
            ≡ committed b n t p
      split (inr other) = rw other refl
      split (inl y) = rw y (own_group n t p y)

  g₁ : ConsumerGroup
  g₁ =
      let g = Commits.prepared_group c b in
      Commits.set_topic_offsets c.topic
        (put int_key c.partition c.offset (Commits.topic_offsets c.topic g)) g

  in_group-g₁ :
      (t : Bytes) (p : ℤ)
      → in_group g₁ t p ≡ (
          if string_eq c.topic t
          then (if int_eq c.partition p
              then some c.offset
              else in_group (Commits.prepared_group c b) c.topic p)
          else in_group (Commits.prepared_group c b) t p)
  unfolding g₁ in_group
  in_group-g₁ t p =
      let g = Commits.prepared_group c b in
      in_group-set c.topic (put int_key c.partition c.offset (Commits.topic_offsets c.topic g)) g t
        p
      ∙ ap (λ x. if string_eq c.topic t then x else in_group g t p) (stored p)
    where
      stored :
          (p : ℤ)
          → find int_key p (
              put int_key c.partition c.offset
                (Commits.topic_offsets c.topic (Commits.prepared_group c b)))
            ≡ (if int_eq c.partition p
                then some c.offset
                else in_group (Commits.prepared_group c b) c.topic p)
      stored p =
          find-put int_key c.partition p c.offset
            (Commits.topic_offsets c.topic (Commits.prepared_group c b))

  pub accepted-sets :
      (s : OffsetStore) (n t : Bytes) (p : ℤ)
      → committed (Commits.committed_broker c s b).0 n t p ≡ set_offset (committed b) c n t p
  unfolding Commits.committed_broker set_offset
  accepted-sets s n t p =
      same_groups
      ∙ committed-with_group c.group g₁ b n t p
      ∙ split (Bool-cases (string_eq c.group n))
    where
      Goal : Type 0
      Goal =
          (if string_eq c.group n then in_group g₁ t p else committed b n t p)
          ≡ (if is_key c n t p then some c.offset else committed b n t p)

      same_groups :
          committed (Commits.committed_broker c s b).0 n t p
          ≡ committed (Commits.with_group c.group g₁ b) n t p
      same_groups =
          unfold Commits.committed_broker Commits.fetch_committed Commits.with_group g₁ in refl

      topic_split :
          string_eq c.group n ≡ true
          → ((string_eq c.topic t ≡ true) ⊎ (string_eq c.topic t ≡ false))
          → in_group g₁ t p ≡ (
              if string_eq c.topic t && int_eq c.partition p
              then some c.offset
              else committed b n t p)
      topic_split y (inr other) = in_group-g₁ t p ∙ (rw other (own_group n t p y))
      topic_split y (inl z) =
          let e : c.topic ≡ t = string_eq→eq c.topic t z in
          in_group-g₁ t p
          ∙ (rw z (
              ap (λ x. if int_eq c.partition p then some c.offset else x)
                (ap (λ k. in_group (Commits.prepared_group c b) k p) e ∙ own_group n t p y)))

      split : ((string_eq c.group n ≡ true) ⊎ (string_eq c.group n ≡ false)) → Goal
      split (inr other) = rw other refl
      split (inl y) = rw y (topic_split y (Bool-cases (string_eq c.topic t)))
