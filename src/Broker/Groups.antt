-- ===== src/Broker/Groups.antt =====
-- internal/broker/broker.go: JoinGroup, LeaveGroup, rebalanceTopic. A partition's id and a member's id
-- are a key of a map; sort.Strings and sort.Ints are an insertion sort.
pub mod Counts
pub mod Order
pub mod Shares
pub mod Rebalance
use wave_mq.Prelude.{
  ℕ, zero, suc, ◌+◌, ◌%◌, Bool, true, false, ◌||◌, ◌&&◌, not, Option, none, some, List, [], ◌∷◌,
  ◌++◌, map, length, get_elem?, ltb, ◌==◌, if◌then◌else◌, Result, ok, err,
}
use wave_mq.Wire.{Bytes, ℤ, int_ltb}
use wave_mq.Broker.{Map, Broker, ConsumerGroup, GroupMember, Topic}
use wave_mq.Broker.Maps.{find, put, delete, string_key}
use wave_mq.Broker.Commits.{
  BrokerError, or_new_group, with_group, group_not_found, topic_not_found, member_required,
  topic_required,
}

-- Go's `<` on strings.
unfoldable pub string_ltb : Bytes → Bytes → Bool
string_ltb [] [] = false
string_ltb [] (b ∷ t) = true
string_ltb (a ∷ s) [] = false
string_ltb (a ∷ s) (b ∷ t) = ltb a b || (a == b && string_ltb s t)

module _ {ℓ} {A : Type ℓ} (before : A → A → Bool) where
  unfoldable pub insert_by : A → List A → List A
  insert_by x [] = x ∷ []
  insert_by x (y ∷ ys) = if before y x then y ∷ insert_by x ys else x ∷ (y ∷ ys)

  unfoldable pub sort_by : List A → List A
  unfolding insert_by
  sort_by [] = []
  sort_by (x ∷ xs) = insert_by x (sort_by xs)

abbrev pub key_of : {K V : Type 0} → K × V → K
key_of (k, v) = k

unfoldable pub sorted_members : ConsumerGroup → List Bytes
unfolding sort_by string_ltb
sorted_members g = sort_by string_ltb (map key_of g.members)

unfoldable pub sorted_partitions : Topic → List ℤ
unfolding sort_by
sorted_partitions t = sort_by int_ltb (map key_of t.partitions)

-- What a map of slices holds at a key: nil where there is none.
abbrev pub or_empty : Option (List ℤ) → List ℤ
or_empty none = []
or_empty (some ps) = ps

-- assign[member] = append(assign[member], pid)
unfoldable pub give : Bytes → ℤ → Map Bytes (List ℤ) → Map Bytes (List ℤ)
give member pid m = put string_key member (or_empty (find string_key member m) ++ (pid ∷ [])) m

abbrev pub member_at : Option Bytes → Bytes
member_at none = []
member_at (some m) = m

-- The loop of `rebalanceTopic`, from the count `i`.
unfoldable pub deal : List Bytes → ℕ → List ℤ → Map Bytes (List ℤ) → Map Bytes (List ℤ)
unfolding give
deal member_ids i [] assign = assign
deal member_ids i (pid ∷ parts) assign =
    deal member_ids (i + 1) parts
      (give (member_at (get_elem? member_ids (i % length member_ids))) pid assign)

-- rebalanceTopic, which looks at no member's topics
unfoldable pub rebalance_topic : Topic → ConsumerGroup → Map Bytes (List ℤ)
unfolding sorted_members sorted_partitions deal
rebalance_topic t g =
    let member_ids = sorted_members g in
    if length member_ids == 0 then [] else deal member_ids 0 (sorted_partitions t) []

-- One member in `updateMemberAssignments`; `none` where the group has no assignment of the topic.
unfoldable pub member_assignments :
    Bytes → Option (Map Bytes (List ℤ)) → Bytes → Map Bytes (List ℤ) → Map Bytes (List ℤ)
member_assignments topic none id m = delete string_key topic m
member_assignments topic (some ass) id m =
    put string_key topic (or_empty (find string_key id ass)) m

unfoldable pub update_members :
    Bytes → Option (Map Bytes (List ℤ)) → Map Bytes GroupMember → Map Bytes GroupMember
unfolding member_assignments
update_members topic ass [] = []
update_members topic ass ((id, m) ∷ ms) =
    (id, record m { assignments = member_assignments topic ass id m.assignments })
    ∷ update_members topic ass ms

-- updateMemberAssignments
unfoldable pub update_member_assignments : Bytes → ConsumerGroup → ConsumerGroup
unfolding update_members
update_member_assignments topic g = record g {
  members = update_members topic (find string_key topic g.assignments) g.members;
}

-- A topic in the loops of `JoinGroup` and `LeaveGroup`.
unfoldable pub rebalance_group : Bytes → Topic → ConsumerGroup → ConsumerGroup
unfolding rebalance_topic update_member_assignments
rebalance_group topic t g =
    update_member_assignments topic
      (record g { assignments = put string_key topic (rebalance_topic t g) g.assignments })

unfoldable pub join_topics :
    Map Bytes Topic → List Bytes → ConsumerGroup → ConsumerGroup × Option BrokerError
unfolding rebalance_group
join_topics known [] g = (g, none)
join_topics known (topic ∷ topics) g = elim (find string_key topic known) [
  | none ↦ (g, some topic_not_found)
  | some t ↦ join_topics known topics (rebalance_group topic t g)
]

abbrev pub joined_member : Bytes → List Bytes → Option GroupMember → GroupMember
joined_member id topics none = record { client_id = id; topics = topics; assignments = [] }
joined_member id topics (some m) = record m { topics = topics }

abbrev assignments_of : Option GroupMember → Map Bytes (List ℤ)
assignments_of none = []
assignments_of (some m) = m.assignments

unfoldable pub finish_join :
    Bytes
    → Bytes
    → Broker
    → ConsumerGroup × Option BrokerError
    → Broker × Result BrokerError (Map Bytes (List ℤ))
unfolding with_group
finish_join group id b (g, some e) = (with_group group g b, err e)
finish_join group id b (g, none) =
    (with_group group g b, ok (assignments_of (find string_key id g.members)))

-- JoinGroup
unfoldable pub join_group :
    Bytes → Bytes → List Bytes → Broker → Broker × Result BrokerError (Map Bytes (List ℤ))
unfolding join_topics finish_join
join_group group id topics b =
    let g = or_new_group group (find string_key group b.groups) in
    if length id == 0
    then (b, err member_required)
    else if length topics == 0
    then (b, err topic_required)
    else finish_join group id b (
        join_topics b.topics topics (record g {
          members =
              put string_key id (joined_member id topics (find string_key id g.members)) g.members;
        }))

-- The loop of `LeaveGroup` over the topics that are assigned: a topic that is gone only loses the
-- member.
unfoldable pub leave_topics :
    Map Bytes Topic → Bytes → Map Bytes (Map Bytes (List ℤ)) → ConsumerGroup → ConsumerGroup
unfolding rebalance_group
leave_topics known id [] g = g
leave_topics known id ((topic, members') ∷ more) g = elim (find string_key topic known) [
  | none ↦ leave_topics known id more (record g {
    assignments = put string_key topic (delete string_key id members') g.assignments;
  })
  | some t ↦ leave_topics known id more (rebalance_group topic t g)
]

unfoldable pub without_member : Map Bytes Topic → Bytes → ConsumerGroup → ConsumerGroup
unfolding leave_topics
without_member known id g =
    let g' =
      leave_topics known id g.assignments (record g { members = delete string_key id g.members }) in
    if length g'.members == 0 then record g' { assignments = [] } else g'

-- LeaveGroup
unfoldable pub leave_group : Bytes → Bytes → Broker → Broker × Result BrokerError (Unit {0})
unfolding without_member with_group
leave_group group id b = elim (find string_key group b.groups) [
  | none ↦ (b, err group_not_found)
  | some g ↦ (with_group group (without_member b.topics id g) b, ok tt)
]
