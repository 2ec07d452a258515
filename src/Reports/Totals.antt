-- ===== src/Reports/Totals.antt =====
-- The totals of the workbooks of go-backend/internal/reporting/exporter.go count each record once, and
-- the busiest rooms come first.
use ccs2_plus.Prelude.{
  ℕ, ◌+◌, ◌≤◌, ◌≡◌, refl, ◌∙◌, ap, String, Bool, true, false, List, [], ◌∷◌, length, if◌then◌else◌,
  arith, All, All-map,
}
use ccs2_plus.Prelude.Float.{Float64}
use ccs2_plus.Prelude.Table.{Table, lookup, insert}
use ccs2_plus.Reports.{Location}
use ccs2_plus.Reports.Listings.{StayRecord, PaymentRecord, WorkbookData, place_by, sort_by}
use ccs2_plus.Reports.Sheets.{
  RoomTotals, value_or, tally, no_totals, payments_by_method, stays_by_room, no_room_totals,
  no_day_totals, busier, top_rooms, by_day, by_key,
}

zero_plus : (n : ℕ) → 0 + n ≡ n
zero_plus n = omega arith

-- A measure added up over a table.
abbrev pub sum_of : {T : Type 0} → (T → ℕ) → Table T → ℕ
sum_of m [] = 0
sum_of m ((key, t) ∷ table) = m t + sum_of m table

module _ {T : Type 0} (m : T → ℕ) (nothing : T) (starts : m nothing ≡ 0) where
  sum_of-insert :
      (key : String) (t : T) (table : Table T)
      → sum_of m (insert key t table) + m (value_or nothing (lookup key table))
        ≡ sum_of m table + m t
  unfolding insert lookup
  sum_of-insert key t [] = omega (arith, starts)
  sum_of-insert key t ((k, u) ∷ table) = ground (arith, sum_of-insert key t table)

  -- Where each item adds one to its entry, the sum grows by their number.
  pub sum_of-tally :
      {R : Type 0} (key : R → String) (bump : R → T → T)
      → ((item : R) (t : T) → m (bump item t) ≡ m t + 1)
      → (items : List R) (table : Table T)
      → sum_of m (tally key bump nothing items table) ≡ sum_of m table + length items
  unfolding tally
  sum_of-tally key bump adds [] table = omega arith
  sum_of-tally key bump adds (item ∷ items) table =
      let t = value_or nothing (lookup (key item) table) in
      omega (
        arith,
        adds item t,
        sum_of-insert (key item) (bump item t) table,
        sum_of-tally key bump adds items (insert (key item) (bump item t) table),
      )

  -- Where no item changes the measure of its entry, the sum stays.
  pub sum_of-tally_same :
      {R : Type 0} (key : R → String) (bump : R → T → T)
      → ((item : R) (t : T) → m (bump item t) ≡ m t)
      → (items : List R) (table : Table T)
      → sum_of m (tally key bump nothing items table) ≡ sum_of m table
  unfolding tally
  sum_of-tally_same key bump same [] table = refl
  sum_of-tally_same key bump same (item ∷ items) table =
      let t = value_or nothing (lookup (key item) table) in
      omega (
        arith,
        same item t,
        sum_of-insert (key item) (bump item t) table,
        sum_of-tally_same key bump same items (insert (key item) (bump item t) table),
      )

module _ {T : Type 0} (m : T → ℕ) (before : String × T → String × T → Bool) where
  sum_of-place_by :
      (x : String × T) (table : Table T)
      → sum_of m (place_by before x table) ≡ m x.1 + sum_of m table
  unfolding place_by
  sum_of-place_by x [] = refl
  sum_of-place_by x (y ∷ table) = ground (arith, sum_of-place_by x table)

  pub sum_of-sort_by : (table : Table T) → sum_of m (sort_by before table) ≡ sum_of m table
  unfolding sort_by
  sum_of-sort_by [] = refl
  sum_of-sort_by (x ∷ table) =
      sum_of-place_by x (sort_by before table) ∙ ap (λ n. m x.1 + n) (sum_of-sort_by table)

module _ {A : Type 0} ⦃f : Float64 A⦄ where
  -- The counts go down along the list.
  abbrev pub IsRanking : Table (RoomTotals A) → Type 0
  IsRanking [] = Unit
  IsRanking ((key, t) ∷ table) =
      All (λ (x : String × RoomTotals A). x.1.count ≤ t.count) table × IsRanking table

  All-place_by :
      (P : String × RoomTotals A → Type 0) (x : String × RoomTotals A)
      (table : Table (RoomTotals A))
      → P x
      → All P table
      → All P (place_by busier x table)
  unfolding place_by
  All-place_by P x [] p h = (p, tt)
  All-place_by P x (y ∷ table) p h = by_test (busier y x) (All-place_by P x table p h.1)
    where
      by_test :
          (b : Bool)
          → All P (place_by busier x table)
          → All P (if b then y ∷ place_by busier x table else x ∷ y ∷ table)
      by_test true rest = (h.0, rest)
      by_test false rest = (p, h)

  busier-count :
      (x y : String × RoomTotals A)
      → (busier y x ≡ true → x.1.count ≤ y.1.count) × (busier y x ≡ false → y.1.count ≤ x.1.count)
  busier-count (k, t) (j, u) = (λ e. ground arith, λ e. ground arith)

  place_by-IsRanking :
      (x : String × RoomTotals A) (table : Table (RoomTotals A))
      → IsRanking table
      → IsRanking (place_by busier x table)
  unfolding place_by
  place_by-IsRanking x [] h = (tt, tt)
  place_by-IsRanking x (y ∷ table) h = by_test (busier y x) refl (place_by-IsRanking x table h.1)
    where
      by_test :
          (b : Bool)
          → busier y x ≡ b
          → IsRanking (place_by busier x table)
          → IsRanking (if b then y ∷ place_by busier x table else x ∷ y ∷ table)
      by_test true e rest =
          (All-place_by (λ z. z.1.count ≤ y.1.count) x table ((busier-count x y).0 e) h.0, rest)
      by_test false e rest =
          let first : y.1.count ≤ x.1.count = (busier-count x y).1 e in
          (
            (
              first,
              All-map (λ z. z.1.count ≤ y.1.count) (λ z. z.1.count ≤ x.1.count) table
                  (λ z. λ le. omega arith) h.0,
            ),
            h,
          )

  sort_by-IsRanking : (table : Table (RoomTotals A)) → IsRanking (sort_by busier table)
  unfolding sort_by
  sort_by-IsRanking [] = tt
  sort_by-IsRanking (x ∷ table) = place_by-IsRanking x _ (sort_by-IsRanking table)

  -- The ranking of the rooms has the rooms that were used most first, and its counts add up to the
  -- number of the stays.
  pub top_rooms-IsRanking :
      (stays : List (StayRecord A))
      → IsRanking (top_rooms stays) × (sum_of (λ t. t.count) (top_rooms stays) ≡ length stays)
  unfolding top_rooms stays_by_room
  top_rooms-IsRanking stays = (
    sort_by-IsRanking _,
    sum_of-sort_by (λ t. t.count) busier (stays_by_room stays)
        ∙ sum_of-tally (λ t. t.count) no_room_totals refl _ _ (λ item. λ t. refl) stays []
        ∙ zero_plus (length stays),
  )

  -- The daily summary of a month counts each stay, each payment and each event once: the counts of its
  -- days add up to their numbers.
  pub by_day_counts :
      (loc : Location) (book : WorkbookData A)
      → (sum_of (λ t. t.stays) (by_key (by_day loc book)) ≡ length book.stays)
        × (sum_of (λ t. t.pays) (by_key (by_day loc book)) ≡ length book.payments)
        × (sum_of (λ t. t.audits) (by_key (by_day loc book)) ≡ length book.audits)
  unfolding by_day by_key
  by_day_counts loc book = (
    sum_of-sort_by (λ t. t.stays) _ (by_day loc book)
        ∙ sum_of-tally_same (λ t. t.stays) no_day_totals refl _ _ (λ item. λ t. refl) book.audits _
        ∙ sum_of-tally_same (λ t. t.stays) no_day_totals refl _ _ (λ item. λ t. refl) book.payments
            _
        ∙ sum_of-tally (λ t. t.stays) no_day_totals refl _ _ (λ item. λ t. refl) book.stays []
        ∙ zero_plus (length book.stays),
    sum_of-sort_by (λ t. t.pays) _ (by_day loc book)
        ∙ sum_of-tally_same (λ t. t.pays) no_day_totals refl _ _ (λ item. λ t. refl) book.audits _
        ∙ sum_of-tally (λ t. t.pays) no_day_totals refl _ _ (λ item. λ t. refl) book.payments _
        ∙ ap (λ n. n + length book.payments)
            (sum_of-tally_same (λ t. t.pays) no_day_totals refl _ _ (λ item. λ t. refl) book.stays
              [])
        ∙ zero_plus (length book.payments),
    sum_of-sort_by (λ t. t.audits) _ (by_day loc book)
        ∙ sum_of-tally (λ t. t.audits) no_day_totals refl _ _ (λ item. λ t. refl) book.audits _
        ∙ ap (λ n. n + length book.audits)
            (sum_of-tally_same (λ t. t.audits) no_day_totals refl _ _ (λ item. λ t. refl)
                book.payments _
              ∙ sum_of-tally_same (λ t. t.audits) no_day_totals refl _ _ (λ item. λ t. refl)
                  book.stays [])
        ∙ zero_plus (length book.audits),
  )

  -- The payments of all methods are the payments: their counts add up to their number.
  pub payments_by_method_counts :
      (payments : List (PaymentRecord A))
      → sum_of (λ t. t.count) (by_key (payments_by_method payments)) ≡ length payments
  unfolding payments_by_method by_key
  payments_by_method_counts payments =
      sum_of-sort_by (λ t. t.count) _ (payments_by_method payments)
      ∙ sum_of-tally (λ t. t.count) no_totals refl _ _ (λ item. λ t. refl) payments []
      ∙ zero_plus (length payments)
