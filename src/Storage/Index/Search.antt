-- ===== src/Storage/Index/Search.antt =====
-- The binary search of `lookupIndex` finds the last entry at or below the target.
use wave_mq.Prelude.{
  ℕ, zero, suc, ◌+◌, ◌-◌, ◌/◌, ◌≤◌, ◌<◌, ◌≡◌, refl, true, inl, inr, Bool-cases, Option, none, some,
  List, [], ◌∷◌, length, get_elem?, get_elem?-some, ltb, ◌==◌, ltb→lt, ==_iff, arith,
}
use wave_mq.Storage.Index.{IndexEntry, search_entry, lookup_index, position_of}

-- The entries stand in increasing order, as they are appended.
abbrev pub Increasing : List IndexEntry → Type 0
Increasing idx =
    (i j : ℕ) (a b : IndexEntry)
    → i < j
    → get_elem? idx i ≡ some a
    → get_elem? idx j ≡ some b
    → a.relative_offset < b.relative_offset

-- Every entry from `i` on lies above the target.
abbrev pub AboveFrom : List IndexEntry → ℕ → ℕ → Type 0
AboveFrom idx target i =
    (j : ℕ) (e : IndexEntry) → i ≤ j → get_elem? idx j ≡ some e → target < e.relative_offset

-- The last entry at or below the target, if there is one.
pub data Floor (idx : List IndexEntry) (target : ℕ) : Option ℕ → Type 0 where
  none_below : AboveFrom idx target 0 → Floor idx target none
  last_below :
      (i : ℕ) (e : IndexEntry)
      → get_elem? idx i ≡ some e
      → e.relative_offset ≤ target
      → AboveFrom idx target (suc i)
      → Floor idx target (some i)

-- What `best` is while `lo` moves up.
data Best (idx : List IndexEntry) (target lo : ℕ) : Option ℕ → Type 0 where
  start : lo ≡ 0 → Best idx target lo none
  passed :
      (i : ℕ) (e : IndexEntry)
      → lo ≡ suc i
      → get_elem? idx i ≡ some e
      → e.relative_offset ≤ target
      → Best idx target lo (some i)

module _ (idx : List IndexEntry) (target : ℕ) where
  Best-Floor :
      (lo : ℕ) (best : Option ℕ)
      → Best idx target lo best
      → AboveFrom idx target lo
      → Floor idx target best
  Best-Floor lo none (start z) above = none_below (λ j e h. above j e (omega arith))
  Best-Floor lo (some i) (passed _ e z at le) above =
      last_below i e at le (λ j e' h. above j e' (omega arith))

  module _ (increasing : Increasing idx) (mid : ℕ) (e : IndexEntry)
      (at : get_elem? idx mid ≡ some e) where
    AboveFrom-suc_mid : target ≤ e.relative_offset → AboveFrom idx target (suc mid)
    AboveFrom-suc_mid h j e' lt at' = omega (arith, increasing mid j e e' lt at at')

    AboveFrom-mid : target < e.relative_offset → AboveFrom idx target mid
    AboveFrom-mid h j e' le at' = elim (Bool-cases (mid == j)) [
      | inl same ↦ let q : mid ≡ j = (==_iff mid j).0 same in let q' : e ≡ e' = cc in rw (← q') h
      | inr other ↦ omega (arith, increasing mid j e e' (ground arith) at at')
    ]

    -- The three ways on from an entry in the middle.
    found : (e.relative_offset == target) ≡ true → Floor idx target (some mid)
    found h =
        let same : e.relative_offset ≡ target = (==_iff _ _).0 h in
        last_below mid e at (omega arith) (AboveFrom-suc_mid (omega arith))

  search_entry-Floor :
      Increasing idx
      → (fuel lo end : ℕ) (best : Option ℕ) → lo ≤ end
      → end ≤ length idx
      → end - lo < fuel
      → Best idx target lo best
      → AboveFrom idx target end
      → (b : Option ℕ) × (search_entry fuel idx target lo end best ≡ some b) × Floor idx target b
  unfolding search_entry
  search_entry-Floor increasing zero lo end best le within f sofar above = elim f [ ]
  search_entry-Floor increasing (suc fuel) lo end best le within f sofar above =
      elim (Bool-cases (ltb lo end)) [
        | inr closed ↦ (
          best,
          rw (closed, search_entry),
          Best-Floor lo best sofar (λ j e h. above j e (ground arith)),
        )
        | inl opened ↦
            let mid : ℕ = (lo + (end - 1)) / 2 in
            let (e, at) = get_elem?-some idx mid (omega (arith, ltb→lt lo end opened)) in
            elim (Bool-cases (e.relative_offset == target)) [
              | inl hit ↦
                  (some mid, rw (opened, at, hit, search_entry), found increasing mid e at hit)
              | inr miss ↦ elim (Bool-cases (ltb e.relative_offset target)) [
                | inl low ↦
                    let (b, r, fl) =
                      search_entry-Floor increasing fuel (mid + 1) end (some mid)
                        (omega (arith, ltb→lt lo end opened)) within
                        (omega (arith, ltb→lt lo end opened))
                        (passed mid e (omega arith) at (omega (arith, ltb→lt _ _ low))) above in
                    (b, rw (opened, at, miss, low, search_entry) r, fl)
                | inr high ↦
                    let (b, r, fl) =
                      search_entry-Floor increasing fuel lo mid best
                        (omega (arith, ltb→lt lo end opened)) (omega (arith, ltb→lt lo end opened))
                        (omega (arith, ltb→lt lo end opened)) sofar
                        (AboveFrom-mid increasing mid e at (ground arith)) in
                    (b, rw (opened, at, miss, high, search_entry) r, fl)
              ]
            ]
      ]

-- The position that `lookupIndex` returns for a target: that of the last entry at or below it.
abbrev pub IsFloorPosition : List IndexEntry → ℕ → Option ℕ → Type 0
IsFloorPosition idx target none = AboveFrom idx target 0
IsFloorPosition idx target (some p) =
    (i : ℕ) × (e : IndexEntry) × (get_elem? idx i ≡ some e)
    × (e.position ≡ p)
    × (e.relative_offset ≤ target)
    × AboveFrom idx target (suc i)

Floor-IsFloorPosition :
    (idx : List IndexEntry) (target : ℕ) (b : Option ℕ)
    → Floor idx target b
    → IsFloorPosition idx target (position_of idx b)
unfolding position_of
Floor-IsFloorPosition idx target none (none_below above) = above
Floor-IsFloorPosition idx target (some i) (last_below _ e at le above) =
    rw at (i, e, at, refl, le, above)

-- `lookupIndex` ends on every index whose entries stand in increasing order, never reads outside it,
-- and answers with the position of the last entry at or below the target: every later entry lies
-- above it. It answers that there is none exactly where all entries lie above the target.
pub lookup_index-IsFloorPosition :
    (idx : List IndexEntry) (target : ℕ)
    → Increasing idx
    → (p : Option ℕ) × (lookup_index idx target ≡ some p) × IsFloorPosition idx target p
unfolding lookup_index
lookup_index-IsFloorPosition idx target increasing =
    let (b, e, fl) =
      search_entry-Floor idx target increasing (suc (length idx)) 0 (length idx) none (omega arith)
        (omega arith) (omega arith) (start refl) (λ j e le at. absurd (past_end idx j e le at)) in
    (position_of idx b, rw e refl, Floor-IsFloorPosition idx target b fl)
  where
    past_end :
        (xs : List IndexEntry) (j : ℕ) (e : IndexEntry)
        → length xs ≤ j
        → get_elem? xs j ≡ some e
        → ⊥
    past_end [] j e le at = cc
    past_end (x ∷ xs) zero e le at = omega arith
    past_end (x ∷ xs) (suc j) e le at = past_end xs j e (omega arith) at
