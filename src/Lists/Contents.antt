-- ===== src/Lists/Contents.antt =====
-- What the lists of libsss/list.c hold, and that their operations stay inside the allocation.
use blangc.Arrays.Cells.{write_cells-run, cells-run, append_assoc, replicate-split}
use blangc.Arrays.{move_cells}
use blangc.Lists.{GrowingList, done, or_fault, reserve, list_append, remove_run, list_remove}
use blangc.Prelude.Int.{pos}
use blangc.Prelude.{
  ◌+◌, ◌-◌, ◌%◌, ◌^◌, ◌≤◌, ◌<◌, ◌≡◌, refl, sym, true, ltb, some, List, [], ◌∷◌, ◌++◌, length, take,
  drop, take-append-drop, length-take, length-drop, length-append, length-replicate, replicate,
  arith, inl, inr, Bool-cases,
}

module _ {A : Type 0} where
  -- The list holds `xs`, and the cells behind them in the allocation are at least its slack.
  pub record Contains (l : GrowingList A) (xs behind : List A) : Type 0 where
    pub items : l.items ≡ xs ++ behind
    pub len : l.len ≡ length xs
    pub slack : l.slack ≤ length behind

  reserve_slack :
      (z : A) (l : GrowingList A) (xs behind : List A)
      → Contains l xs behind
      → ltb 0 l.slack ≡ true
      → (r : GrowingList A) × (rest : List A) × (cell : A) × (reserve z l ≡ some r)
        × (r.items ≡ xs ++ (cell ∷ rest))
        × (r.len ≡ l.len)
        × (r.slack ≤ length rest)
  unfolding reserve
  reserve_slack z l xs [] h e = let s = h.slack in absurd (ground arith)
  reserve_slack z l xs (c ∷ rest) h e =
      let s = h.slack in
      (record l { slack = l.slack - 1 }, rest, c, ground arith, h.items, refl, ground arith)

  reserve-Contains :
      (z : A) (l : GrowingList A) (xs behind : List A)
      → Contains l xs behind
      → (r : GrowingList A) × (rest : List A) × (cell : A) × (reserve z l ≡ some r)
        × (r.items ≡ xs ++ (cell ∷ rest))
        × (r.len ≡ l.len)
        × (r.slack ≤ length rest)
  unfolding reserve
  reserve-Contains z l xs behind h = elim (Bool-cases (ltb 0 l.slack)) [
    | inl e ↦ reserve_slack z l xs behind h e
    | inr e ↦
        let items = h.items in
        let len = h.len in
        let c = cells-run [] xs behind 0 l.len refl (sym h.len) in
        let r1 = replicate-split (length xs) 9 z in
        let w =
          write_cells-run [] (replicate (length xs) z) (replicate 9 z) xs 0 refl
            (length-replicate (length xs) z) in
        let r : GrowingList A = record { items = xs ++ replicate 9 z; len = l.len; slack = 8 } in
        (r, replicate 8 z, z, ground arith, refl, refl, omega arith)
  ]

  -- On a list that holds `xs` and has its slack inside its allocation, `list_append` returns a list
  -- that holds `xs` with the item behind them and has its slack inside its allocation.
  pub list_append-Contains :
      (z : A) (l : GrowingList A) (xs behind : List A) (item : A)
      → Contains l xs behind
      → (r : GrowingList A) × (rest : List A) × (list_append z l item ≡ some r)
        × Contains r (xs ++ item ∷ []) rest
  unfolding list_append
  list_append-Contains z l xs behind item h =
      let (l', rest, cell, e, items, len, slack) = reserve-Contains z l xs behind h in
      let w =
        write_cells-run xs (cell ∷ []) rest (item ∷ []) l'.len (omega (arith, len, h.len)) refl in
      let n = length-append xs (item ∷ []) in
      let k = h.len in
      let r : GrowingList A = record l' { items = xs ++ (item ∷ rest); len = l'.len + 1 } in
      (
        r,
        rest,
        ground arith,
        record {
          items = sym (append_assoc xs (item ∷ []) rest);
          len = omega (arith, n, len, k);
          slack = slack;
        },
      )

  -- On a list that has its slack inside its allocation, `list_remove` with an index and a count above
  -- 0 that are in bounds returns a list that holds the items before and behind the removed ones and
  -- has its slack inside its allocation.
  pub list_remove-Contains :
      (l : GrowingList A) (front mid back behind : List A)
      → Contains l (front ++ (mid ++ back)) behind
      → 0 < length mid
      → (r : GrowingList A) × (rest : List A) × (list_remove l
            (pos (length front))
            (pos (length mid))
          ≡ done r)
        × Contains r (front ++ back) rest
  unfolding list_remove remove_run or_fault move_cells
  list_remove-Contains l front mid back behind h p =
      let items = h.items in
      let len = h.len in
      let slack = h.slack in
      let u = take (length back) (mid ++ back) in
      let w = drop (length back) (mid ++ back) in
      let uw : u ++ w ≡ mid ++ back = take-append-drop (length back) (mid ++ back) in
      let l1 = length-append front (mid ++ back) in
      let l2 = length-append mid back in
      let l3 = length-append front mid in
      let l4 = length-append front back in
      let l5 = length-append w behind in
      let nu : length u ≡ length back = omega (arith, length-take (length back) (mid ++ back)) in
      let nw : length w ≡ length mid = omega (arith, length-drop (length back) (mid ++ back)) in
      let c1 = append_assoc front (mid ++ back) behind in
      let c2 = append_assoc mid back behind in
      let c3 = append_assoc front mid (back ++ behind) in
      let c4 = append_assoc u w behind in
      let c5 = append_assoc front back (w ++ behind) in
      let m =
        cells-run (front ++ mid) back behind (length front + length mid)
          (l.len - (length front + length mid)) l3 (omega (arith, len, l1)) in
      let q = write_cells-run front u (w ++ behind) back (length front) refl nu in
      let r : GrowingList A = record {
        items = front ++ (back ++ (w ++ behind));
        len = l.len - length mid;
        slack = (l.slack + length mid) % 2 ^ 8;
      } in
      (
        r,
        w ++ behind,
        ground arith,
        record { items = sym c5; len = omega (arith, len, l1, l4); slack = omega arith },
      )
