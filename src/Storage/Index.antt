-- ===== src/Storage/Index.antt =====
-- internal/storage/log.go: the sparse index of a segment, and the binary search in it.
pub mod Search
use wave_mq.Prelude.{
  ℕ, zero, suc, ◌+◌, ◌-◌, ◌/◌, true, false, Option, none, some, List, [], length, get_elem?, ltb,
  leb, ◌==◌, if◌then◌else◌,
}
use mathlib.Core.Option

pub record IndexEntry : Type 0 where
  pub relative_offset : ℕ
  pub position : ℕ

-- The loop of `lookupIndex` on fuel. `best` is -1 before an entry was met, so an option; `end` is
-- `hi + 1`, which never falls below 0. `none` for the whole means that the fuel ran out or that an
-- index was out of range, where Go panics.
unfoldable pub search_entry : ℕ → List IndexEntry → ℕ → ℕ → ℕ → Option ℕ → Option (Option ℕ)
search_entry zero idx target lo end best = none
search_entry (suc fuel) idx target lo end best =
    let mid = (lo + (end - 1)) / 2 in
    elim (ltb lo end) [
      | false ↦ some best
      | true ↦ elim (get_elem? idx mid) [
        | none ↦ none
        | some e ↦ elim (e.relative_offset == target) [
          | true ↦ some (some mid)
          | false ↦ elim (ltb e.relative_offset target) [
            | true ↦ search_entry fuel idx target (mid + 1) end (some mid)
            | false ↦ search_entry fuel idx target lo mid best
          ]
        ]
      ]
    ]

-- The position of the entry that was found.
unfoldable pub position_of : List IndexEntry → Option ℕ → Option ℕ
position_of idx none = none
position_of idx (some i) = Option.map (λ (e : IndexEntry). e.position) (get_elem? idx i)

-- `lookupIndex`: the position to read from for the offset `base + target`, if any.
unfoldable pub lookup_index : List IndexEntry → ℕ → Option (Option ℕ)
unfolding search_entry position_of
lookup_index idx target =
    Option.map (position_of idx) (search_entry (suc (length idx)) idx target 0 (length idx) none)
