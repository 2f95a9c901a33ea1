-- ===== src/Batch/Least.antt =====
-- A batch holds the least sequences after its cursor.
use power_monitor_sensor_hea.Base.{
  ℕ, ◌≤◌, ◌<◌, ◌≡◌, refl, sym, ap, subst, ◌∙◌, arith, ◌⊎◌, inl, inr, Bool, true, false, ◌&&◌, ◌==◌,
  ltb, leb, if◌then◌else◌, Bool-cases, if_cases, List, [], ◌∷◌, length, take, get_elem?,
  length-take,
}
use power_monitor_sensor_hea.Journal.{JournalRecord}
use power_monitor_sensor_hea.Batch.{
  Batch, place_for, same_sequence, put_record, insert_sorted, insert_all, empty_batch,
}
use power_monitor_sensor_hea.Batch.Inserted.{
  inserted, place-inserted, Ascends, Has, Below, taken, same_sequence-taken, taken-Has,
  inserted-Ascends, inserted-Has, Has-inserted, of-inserted, length-inserted, take-inserted_end,
  take-Has, take-Ascends, of-take, take-le, take_all, Below-inserted,
}

-- The record is at or before the cursor, or there already; or it is inserted, and the greatest record is
-- cut off where there is no room.
data Step (b : Batch) (r : JournalRecord) : Batch → Type 0 where
  old : leb r.sequence b.after_sequence ≡ true → Step b r b
  known : taken b.records r.sequence ≡ true → Step b r b
  new :
      (more : Bool)
      → b.after_sequence < r.sequence
      → taken b.records r.sequence ≡ false
      → ((more ≡ true) ⊎ ((length b.records < 16) × (more ≡ b.more_available)))
      → Step b r (record b { records = take 16 (inserted r b.records); more_available = more })

more_cases :
    (count : ℕ) (more : Bool)
    → let m = if ltb count 16 then more else true in (m ≡ true) ⊎ ((count < 16) × (m ≡ more))
more_cases count more = elim (Bool-cases (ltb count 16)) [
  | inl room ↦ rw room (inr (ground arith, refl))
  | inr full ↦ rw full (inl refl)
]

insert_sorted-Step : (b : Batch) (r : JournalRecord) → Step b r (insert_sorted b r)
unfolding insert_sorted put_record
insert_sorted-Step b r =
    let p = place_for b.records r.sequence in
    let count = length b.records in
    let P : Batch → Type 0 = Step b r in
    let placed = λ (more : Bool).
      ap (λ (l : List JournalRecord). record b { records = take 16 l; more_available = more })
        (sym (place-inserted r b.records)) in
    if_cases P (leb r.sequence b.after_sequence) _ _ (λ h. old h)
      (λ above.
        if_cases P (same_sequence (get_elem? b.records p) r.sequence) _ _
          (λ h. known (sym (same_sequence-taken b.records r.sequence) ∙ h))
          (λ free.
            let fresh = sym (same_sequence-taken b.records r.sequence) ∙ free in
            if_cases P (count == 16 && p == count) _ _
              (λ full.
                let long : count ≡ 16 = ground arith in
                let whole : take 16 (inserted r b.records) ≡ b.records =
                  ap (λ (n : ℕ). take n (inserted r b.records)) (sym long)
                  ∙ take-inserted_end r b.records (ground arith) in
                subst P
                  (ap (λ (l : List JournalRecord). record b { records = l; more_available = true })
                    whole)
                  (new true (ground arith) fresh (inl refl)))
              (λ _.
                subst P (placed (if ltb count 16 then b.more_available else true))
                  (new _ (ground arith) fresh (more_cases count b.more_available)))))

-- The sequence is at or before the cursor, or in the batch, or greater than all of a full batch.
unfoldable pub Accounted : Batch → ℕ → Type 0
Accounted b s =
    (s ≤ b.after_sequence)
    ⊎ (Has s b.records
        ⊎ ((length b.records ≡ 16) × (Below s b.records × (b.more_available ≡ true))))

pub record IsBatch (b : Batch) : Type 0 where
  pub ascends : Ascends b.after_sequence b.records
  pub fits : length b.records ≤ 16

module _ (b : Batch) (r : JournalRecord) (more : Bool) (ok_batch : IsBatch b)
    (above : b.after_sequence < r.sequence) (fresh : taken b.records r.sequence ≡ false)
    (tells : (more ≡ true) ⊎ ((length b.records < 16) × (more ≡ b.more_available))) where
  abbrev longer : List JournalRecord
  longer = inserted r b.records

  abbrev next_batch : Batch
  next_batch = record b { records = take 16 longer; more_available = more }

  next_batch-IsBatch : IsBatch next_batch
  next_batch-IsBatch = record {
    ascends =
        take-Ascends 16 b.after_sequence longer
          (inserted-Ascends b.after_sequence r b.records ok_batch.ascends above fresh);
    fits = take-le 16 longer;
  }

  -- What the longer list has is in the batch, or cut off of it.
  longer-Accounted : (s : ℕ) → Has s longer → Accounted next_batch s
  unfolding Accounted
  longer-Accounted s h =
      let ascends = inserted-Ascends b.after_sequence r b.records ok_batch.ascends above fresh in
      elim (take-Has 16 b.after_sequence s longer ascends h) [
        | inl stays ↦ inr (inl stays)
        | inr (full, below) ↦ elim tells [
          | inl told ↦ inr (inr (full, (below, told)))
          | inr (room, _) ↦
              let all = take_all 16 longer (omega (arith, length-inserted r b.records)) in
              inr (inl (subst (λ (l : List JournalRecord). Has s l) (sym all) h))
        ]
      ]

  kept-Accounted : (s : ℕ) → Accounted b s → Accounted next_batch s
  unfolding Accounted
  kept-Accounted s h = elim h [
    | inl before ↦ inl before
    | inr rest ↦ elim rest [
      | inl present ↦ longer-Accounted s (Has-inserted s r b.records present)
      | inr (full, (below, told)) ↦
          let under =
            subst (λ (n : ℕ). Below s (take n longer)) full
              (Below-inserted (length b.records) s r b.records refl below) in
          let told_still : more ≡ true = elim tells [
            | inl t ↦ t
            | inr (room, _) ↦ absurd (omega arith)
          ] in
          inr (
            inr (
              length-take 16 longer (omega (arith, length-inserted r b.records)),
              (under, told_still),
            ))
    ]
  ]

  of-next_batch : (s : ℕ) → Has s (take 16 longer) → (r.sequence ≡ s) ⊎ Has s b.records
  of-next_batch s h = of-inserted s r b.records (of-take 16 s longer h)

-- The batch after an insertion: it is well formed, the cursor stays, the record and all that was
-- accounted for are, and it has nothing but the record and what it had.
abbrev Better : Batch → JournalRecord → Batch → Type 0
Better b r c =
    IsBatch c
    × (c.after_sequence ≡ b.after_sequence)
    × Accounted c r.sequence
    × ((s : ℕ) → Accounted b s → Accounted c s)
    × ((s : ℕ) → Has s c.records → (r.sequence ≡ s) ⊎ Has s b.records)

Step-Better : (b : Batch) (r : JournalRecord) (c : Batch) → IsBatch b → Step b r c → Better b r c
unfolding Accounted
Step-Better b r _ ok_batch (old h) = (ok_batch, refl, inl (ground arith), λ s k. k, λ s k. inr k)
Step-Better b r _ ok_batch (known h) =
    (ok_batch, refl, inr (inl (taken-Has b.records r.sequence h)), λ s k. k, λ s k. inr k)
Step-Better b r _ ok_batch (new more above fresh tells) = (
  next_batch-IsBatch b r more ok_batch above fresh tells,
  refl,
  longer-Accounted b r more ok_batch above fresh tells r.sequence (inserted-Has r b.records),
  kept-Accounted b r more ok_batch above fresh tells,
  of-next_batch b r more ok_batch above fresh tells,
)

insert_all_keeps :
    (rs : List JournalRecord) (b : Batch)
    → IsBatch b
    → let c = insert_all rs b in
      IsBatch c
      × (c.after_sequence ≡ b.after_sequence)
      × ((s : ℕ) → (Has s rs ⊎ Accounted b s) → Accounted c s)
      × ((s : ℕ) → Has s c.records → Has s rs ⊎ Has s b.records)
unfolding insert_all
insert_all_keeps [] b ok_batch =
    (ok_batch, refl, λ s h. elim h [ inl none_there ↦ absurd none_there | inr k ↦ k ], λ s h. inr h)
insert_all_keeps (r ∷ rs) b ok_batch =
    let (ok1, cursor1, here, kept1, of1) =
      Step-Better b r (insert_sorted b r) ok_batch (insert_sorted-Step b r) in
    let (ok2, cursor2, kept2, of2) = insert_all_keeps rs (insert_sorted b r) ok1 in
    (
      ok2,
      cursor2 ∙ cursor1,
      λ s h. kept2 s (elim h [
        | inl among ↦ elim among [
          | inl e ↦ inr (subst (λ (n : ℕ). Accounted (insert_sorted b r) n) e here)
          | inr later ↦ inl later
        ]
        | inr k ↦ inr (kept1 s k)
      ]),
      λ s h. elim (of2 s h) [
        | inl later ↦ inl (inr later)
        | inr k ↦ elim (of1 s k) [ inl e ↦ inl (inl e) | inr old_one ↦ inr old_one ]
      ],
    )

-- Whatever records a scan finds, in whatever order: the batch has at most 16, their sequences ascend
-- from above the cursor, each is one that was found, and each sequence that was found is at or before
-- the cursor, in the batch, or greater than all of a full batch that says that more is available.
pub insert_all_least :
    (rs : List JournalRecord) (cursor : ℕ)
    → let b = insert_all rs (empty_batch cursor) in
      IsBatch b
      × (b.after_sequence ≡ cursor)
      × ((s : ℕ) → Has s rs → Accounted b s)
      × ((s : ℕ) → Has s b.records → Has s rs)
insert_all_least rs cursor =
    let empty : IsBatch (empty_batch cursor) = record { ascends = tt; fits = omega arith } in
    let (ok_batch, same, kept, of_found) = insert_all_keeps rs (empty_batch cursor) empty in
    (
      ok_batch,
      same,
      λ s h. kept s (inl h),
      λ s h. elim (of_found s h) [ inl found ↦ found | inr none_there ↦ absurd none_there ],
    )
