-- ===== src/Broker/Groups/Rebalance.antt =====
-- What each member of a group gets of a topic.
use native.Mathlib.Nat.{mod-lt}
use wave_mq.Prelude.{
  ℕ, zero, suc, ◌+◌, ◌%◌, ◌≤◌, ◌<◌, ◌≡◌, refl, sym, ap, ◌∙◌, Bool, true, false, Bool-cases, ◌⊎◌,
  inl, inr, some, List, [], ◌∷◌, ◌++◌, append_assoc, append-nil, map, length, get_elem?,
  get_elem?-some, ◌==◌, if◌then◌else◌, arith,
}
use wave_mq.Wire.{Bytes, ℤ, int_eq, int_ltb, string_eq, string_eq_refl, string_eq→eq}
use wave_mq.Broker.{Map, ConsumerGroup, Topic}
use wave_mq.Broker.Maps.{find, string_key, find-put}
use wave_mq.Broker.Groups
use wave_mq.Broker.Groups.Counts.{
  sum_over, tally, sum_over-sort_by, sum_over-places, sum_range-share, Once, place_of, Once-apart,
}
use wave_mq.Broker.Groups.Order.{Ordered, Ordered-sorted_members, Ordered-sorted_partitions}
use wave_mq.Broker.Groups.Shares.{share, share_fair}

-- What a member gets.
abbrev pub given : Bytes → Map Bytes (List ℤ) → List ℤ
given m assign = Groups.or_empty (find string_key m assign)

-- No value stands at two places.
abbrev pub Apart : List Bytes → Type 0
Apart ms = (i j : ℕ) (m : Bytes) → get_elem? ms i ≡ some m → get_elem? ms j ≡ some m → i ≡ j

given-give :
    (m m' : Bytes) (pid : ℤ) (assign : Map Bytes (List ℤ))
    → given m (Groups.give m' pid assign)
      ≡ (if string_eq m' m then given m' assign ++ (pid ∷ []) else given m assign)
unfolding Groups.give
given-give m m' pid assign =
    ap Groups.or_empty (find-put string_key m' m (given m' assign ++ (pid ∷ [])) assign)
    ∙ split (string_eq m' m)
  where
    split :
        (c : Bool)
        → Groups.or_empty
            (if c then some (given m' assign ++ (pid ∷ [])) else find string_key m assign)
          ≡ (if c then given m' assign ++ (pid ∷ []) else given m assign)
    split true = refl
    split false = refl

module _ (ms : List Bytes) (apart : Apart ms) (j : ℕ) (m : Bytes)
    (here : get_elem? ms j ≡ some m) where
  -- One partition is dealt.
  given-step :
      (i : ℕ) (pid : ℤ) (assign : Map Bytes (List ℤ))
      → i % length ms < length ms
      → given m (Groups.give (Groups.member_at (get_elem? ms (i % length ms))) pid assign)
        ≡ (if i % length ms == j then given m assign ++ (pid ∷ []) else given m assign)
  given-step i pid assign low =
      let (m', there) = get_elem?-some ms (i % length ms) low in
      rw there (given-give m m' pid assign ∙ split m' there (Bool-cases (i % length ms == j)))
    where
      split :
          (m' : Bytes)
          → get_elem? ms (i % length ms) ≡ some m'
          → (((i % length ms == j) ≡ true) ⊎ ((i % length ms == j) ≡ false))
          → (if string_eq m' m then given m' assign ++ (pid ∷ []) else given m assign)
            ≡ (if i % length ms == j then given m assign ++ (pid ∷ []) else given m assign)
      split m' there (inl y) =
          let e : i % length ms ≡ j = ground arith in
          let same : m' ≡ m = some-injective (sym there ∙ ap (get_elem? ms) e ∙ here) in
          rw (y, same, string_eq_refl m) refl
        where
          some-injective : {a b : Bytes} → some a ≡ some b → a ≡ b
          some-injective p = cc
      split m' there (inr n) = rw (n, differ (Bool-cases (string_eq m' m))) refl
        where
          differ : ((string_eq m' m ≡ true) ⊎ (string_eq m' m ≡ false)) → string_eq m' m ≡ false
          differ (inr e) = e
          differ (inl y) =
              let same : m' ≡ m = string_eq→eq m' m y in
              let wrong : i % length ms ≡ j = apart _ _ m (there ∙ ap some same) here in
              absurd (ground arith)

  given-deal :
      (i : ℕ) (parts : List ℤ) (assign : Map Bytes (List ℤ))
      → 0 < length ms
      → given m (Groups.deal ms i parts assign) ≡ given m assign ++ share (length ms) j i parts
  unfolding Groups.deal share
  given-deal i [] assign h = sym (append-nil (given m assign))
  given-deal i (pid ∷ parts) assign h =
      given-deal (i + 1) parts _ h
      ∙ (ap (λ t. t ++ share (length ms) j (i + 1) parts) (given-step i pid assign (mod-lt i h))
          ∙ split (i % length ms == j))
    where
      split :
          (c : Bool)
          → (if c then given m assign ++ (pid ∷ []) else given m assign)
              ++ share (length ms) j (i + 1) parts
            ≡ given m assign
              ++ (if c
                  then pid ∷ share (length ms) j (i + 1) parts
                  else share (length ms) j (i + 1) parts)
      split true = append_assoc (given m assign) (pid ∷ []) _
      split false = refl

in_range : (ms : List Bytes) (i : ℕ) (a : Bytes) → get_elem? ms i ≡ some a → i < length ms
in_range [] i a e = cc
in_range (b ∷ bs) zero a e = omega arith
in_range (b ∷ bs) (suc i) a e = omega (arith, in_range bs i a e)

-- The keys of a map.
abbrev pub keys : {K V : Type 0} → Map K V → List K
keys m = map Groups.key_of m

module _ (t : Topic) (g : ConsumerGroup) (once : Once (keys g.members)) where
  over_members :
      (f : Bytes → ℕ) → sum_over f (Groups.sorted_members g) ≡ sum_over f (keys g.members)
  unfolding Groups.sorted_members
  over_members f = sum_over-sort_by Groups.string_ltb f (keys g.members)

  over_partitions :
      (f : ℤ → ℕ) → sum_over f (Groups.sorted_partitions t) ≡ sum_over f (keys t.partitions)
  unfolding Groups.sorted_partitions
  over_partitions f = sum_over-sort_by int_ltb f (keys t.partitions)

  Apart-sorted : Apart (Groups.sorted_members g)
  Apart-sorted =
      Once-apart _ (λ m. rw (over_members (λ x. if string_eq m x then 1 else 0)) (once m))

  -- The share of the member at a place of the order.
  dealt_share :
      (i : ℕ) (a : Bytes)
      → get_elem? (Groups.sorted_members g) i ≡ some a
      → given a (Groups.rebalance_topic t g)
        ≡ share (length (Groups.sorted_members g)) i 0 (Groups.sorted_partitions t)
  unfolding Groups.rebalance_topic find
  dealt_share i a e =
      let ms = Groups.sorted_members g in
      let some_member : 0 < length ms = let k = in_range ms i a e in omega arith in
      let members : (length ms == 0) ≡ false = ground arith in
      rw (members, Groups.rebalance_topic)
        (given-deal ms Apart-sorted i a e 0 (Groups.sorted_partitions t) [] some_member)

  -- A member of the group stands in the order.
  place :
      (m : Bytes)
      → 0 < tally (string_eq m) (keys g.members)
      → (i : ℕ) × (get_elem? (Groups.sorted_members g) i ≡ some m)
  place m h = place_of _ m (rw (over_members (λ x. if string_eq m x then 1 else 0)) h)

  fair :
      (m m' : Bytes)
      → 0 < tally (string_eq m) (keys g.members)
      → 0 < tally (string_eq m') (keys g.members)
      → length (given m (Groups.rebalance_topic t g))
        ≤ suc (length (given m' (Groups.rebalance_topic t g)))
  fair m m' h h' =
      let (j, here) = place m h in
      let (k, there) = place m' h' in
      rw (dealt_share j m here, dealt_share k m' there)
        (share_fair _ j k (Groups.sorted_partitions t) (in_range _ j m here)
          (in_range _ k m' there))

  all_dealt :
      (pid : ℤ)
      → 0 < length (Groups.sorted_members g)
      → sum_over
          (λ a. tally (int_eq pid) (given a (Groups.rebalance_topic t g)))
          (Groups.sorted_members g)
        ≡ tally (int_eq pid) (Groups.sorted_partitions t)
  all_dealt pid some_member =
      sum_over-places _
        (λ j.
          tally (int_eq pid)
            (share (length (Groups.sorted_members g)) j 0 (Groups.sorted_partitions t)))
        0 (Groups.sorted_members g)
        (λ j a e. ap (tally (int_eq pid)) (
          dealt_share j a e
          ∙ ap (λ k. share (length (Groups.sorted_members g)) k 0 (Groups.sorted_partitions t))
              (omega arith)))
      ∙ sum_range-share _ (length (Groups.sorted_members g)) some_member 0
          (Groups.sorted_partitions t)

-- Partitions are dealt out in turn, in a group whose members have different ids. rebalanceTopic gives
-- every partition of the topic to just one member of the group: a partition's id stands in the members'
-- lists as often, all of them taken together, as among the topic's partitions. Each member, whether it
-- has subscribed to the topic or not, gets at most one partition more than any other; and with the
-- members and the partitions sorted, which puts both in ascending order, the `j`-th of `n` members gets,
-- in order, just the partitions at the places that leave the remainder `j` when divided by `n`.
pub rebalance_topic_lem :
    (t : Topic) (g : ConsumerGroup) (m m' : Bytes) (pid : ℤ)
    → Once (keys g.members)
    → 0 < tally (string_eq m) (keys g.members)
    → 0 < tally (string_eq m') (keys g.members)
    → (sum_over (λ a. tally (int_eq pid) (given a (Groups.rebalance_topic t g))) (keys g.members)
        ≡ tally (int_eq pid) (keys t.partitions))
      × (length (given m (Groups.rebalance_topic t g))
          ≤ suc (length (given m' (Groups.rebalance_topic t g))))
      × Ordered Groups.string_ltb (Groups.sorted_members g)
      × Ordered int_ltb (Groups.sorted_partitions t)
      × (j : ℕ) × (get_elem? (Groups.sorted_members g) j ≡ some m)
      × (given m (Groups.rebalance_topic t g)
          ≡ share (length (Groups.sorted_members g)) j 0 (Groups.sorted_partitions t))
rebalance_topic_lem t g m m' pid once h h' =
    let (j, here) = place t g once m h in
    let some_member : 0 < length (Groups.sorted_members g) =
      let k = in_range _ j m here in omega arith in
    (
      sym (over_members t g once _)
          ∙ (all_dealt t g once pid some_member ∙ over_partitions t g once _),
      fair t g once m m' h h',
      Ordered-sorted_members g,
      Ordered-sorted_partitions t,
      j,
      here,
      dealt_share t g once j m here,
    )
