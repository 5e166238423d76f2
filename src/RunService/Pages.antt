-- ===== src/RunService/Pages.antt =====
-- internal/migration/run_service.go: the loop of `Report` over the pages of events. The ids of events
-- come from an identity column, so that the table lists them in ascending order.
use k8s_migration.Base.{
  ℕ, zero, suc, ◌-◌, ◌<◌, ◌≤◌, ◌≡◌, refl, ap, ◌∙◌, Bool, true, ◌&&◌, List, [], ◌∷◌, ◌++◌, inl, inr,
  ltb, leb, ◌==◌, length, All, select, any, insert_by, order_by, ok, Bool-cases, ltb-lt, ltb-le,
  arith, append_assoc,
}
use k8s_migration.Base.Tables.{All-mono, All-select, select-every, select-All}
use k8s_migration.Store.Tables.Rows.{Db, Event}
use k8s_migration.Store.Runs.Records.{take, list_events}
use k8s_migration.RunService.Report.{last_id, collect_events}

-- The events of a run behind a cursor.
abbrev pub events_after : Db → ℕ → ℕ → List Event
events_after db run after = select (λ e. e.run_id == run && ltb after e.id) db.events

abbrev pub Ascending : List Event → Type 0
Ascending [] = Unit
Ascending (x ∷ xs) = All (λ y. x.id < y.id) xs × Ascending xs

Ascending-select : (p : Event → Bool) (xs : List Event) → Ascending xs → Ascending (select p xs)
Ascending-select p [] h = tt
Ascending-select p (x ∷ xs) h = elim (Bool-cases (p x)) [
  | inl e ↦ rw e (All-select (λ y. x.id < y.id) p xs h.0, Ascending-select p xs h.1)
  | inr e ↦ rw e (Ascending-select p xs h.1)
]

insert_by-first :
    (x : Event) (xs : List Event)
    → All (λ y. x.id < y.id) xs
    → insert_by (λ a b. leb a.id b.id) x xs ≡ x ∷ xs
insert_by-first x [] h = refl
insert_by-first x (y ∷ ys) h = ground (arith, h.0)

order_by-Ascending : (xs : List Event) → Ascending xs → order_by (λ a b. leb a.id b.id) xs ≡ xs
order_by-Ascending [] h = refl
order_by-Ascending (x ∷ xs) h = rw (order_by-Ascending xs h.1) (insert_by-first x xs h.0)

last_id-le :
    (after : ℕ) (xs : List Event)
    → All (λ e. after < e.id) xs
    → Ascending xs
    → after ≤ last_id after xs
last_id-le after [] h a = omega arith
last_id-le after (x ∷ xs) h a = omega (arith, h.0, last_id-le x.id xs a.0 a.1)

All-take {κ} : (P : Event → Type κ) (n : ℕ) (xs : List Event) → All P xs → All P (take n xs)
All-take P zero xs h = tt
All-take P (suc n) [] h = tt
All-take P (suc n) (x ∷ xs) h = (h.0, All-take P n xs h.1)

Ascending-take : (n : ℕ) (xs : List Event) → Ascending xs → Ascending (take n xs)
Ascending-take zero xs h = tt
Ascending-take (suc n) [] h = tt
Ascending-take (suc n) (x ∷ xs) h = (All-take (λ y. x.id < y.id) n xs h.0, Ascending-take n xs h.1)

drop : ℕ → List Event → List Event
drop zero xs = xs
drop (suc n) [] = []
drop (suc n) (x ∷ xs) = drop n xs

take-drop : (n : ℕ) (xs : List Event) → take n xs ++ drop n xs ≡ xs
unfolding drop
take-drop zero xs = refl
take-drop (suc n) [] = refl
take-drop (suc n) (x ∷ xs) = ap (◌∷◌ x) (take-drop n xs)

length-drop : (n : ℕ) (xs : List Event) → length (drop n xs) ≡ length xs - n
unfolding drop
length-drop zero xs = omega arith
length-drop (suc n) [] = omega arith
length-drop (suc n) (x ∷ xs) = omega (arith, length-drop n xs)

take-short : (n : ℕ) (xs : List Event) → length (take n xs) < n → take n xs ≡ xs
take-short zero xs h = absurd (omega arith)
take-short (suc n) [] h = refl
take-short (suc n) (x ∷ xs) h = ap (◌∷◌ x) (take-short n xs (omega arith))

length-take : (n : ℕ) (xs : List Event) → length (take n xs) ≤ length xs
length-take zero xs = omega arith
length-take (suc n) [] = omega arith
length-take (suc n) (x ∷ xs) = omega (arith, length-take n xs)

-- The events behind the last one of a page are those that follow the page.
select-page :
    (n after : ℕ) (xs : List Event)
    → All (λ e. after < e.id) xs
    → Ascending xs
    → select (λ e. ltb (last_id after (take n xs)) e.id) xs ≡ drop n xs
unfolding drop
select-page zero after xs h a =
    select-every (λ e. ltb after e.id) xs
      (All-mono (λ e. after < e.id) (λ e. ltb after e.id ≡ true) (λ e k. ground arith) xs h)
select-page (suc n) after [] h a = refl
select-page (suc n) after (x ∷ xs) h a = ground (
  arith,
  select-page n x.id xs a.0 a.1,
  last_id-le x.id (take n xs) (All-take (λ y. x.id < y.id) n xs a.0) (Ascending-take n xs a.1),
)

select-both :
    (p q r : Event → Bool) (xs : List Event)
    → ((x : Event) → r x ≡ (q x && p x))
    → select r xs ≡ select p (select q xs)
select-both p q r [] h = refl
select-both p q r (x ∷ xs) h = ground (arith, h x, select-both p q r xs h)

module _ (db : Db) (run : ℕ) (ascending : Ascending db.events) where
  events_after-Ascending : (after : ℕ) → Ascending (events_after db run after)
  events_after-Ascending after =
      Ascending-select (λ e. e.run_id == run && ltb after e.id) db.events ascending

  events_after-All : (after : ℕ) → All (λ e. after < e.id) (events_after db run after)
  events_after-All after =
      All-mono (λ e. (e.run_id == run && ltb after e.id) ≡ true) (λ e. after < e.id)
        (λ e k. ground (arith, k)) (events_after db run after)
        (select-All (λ e. e.run_id == run && ltb after e.id) db.events)

  events_after-page :
      (n after : ℕ)
      → events_after db run (last_id after (take n (events_after db run after)))
        ≡ drop n (events_after db run after)
  events_after-page n after =
      let pending = events_after db run after in
      let last = last_id after (take n pending) in
      let behind : after ≤ last =
        last_id-le after (take n pending)
          (All-take (λ e. after < e.id) n pending (events_after-All after))
          (Ascending-take n pending (events_after-Ascending after)) in
      select-both (λ e. ltb last e.id) (λ e. e.run_id == run && ltb after e.id)
        (λ e. e.run_id == run && ltb last e.id) db.events (λ e. ground (arith, behind))
      ∙ select-page n after pending (events_after-All after) (events_after-Ascending after)

  list_events-page :
      (after : ℕ)
      → any (λ r. r.id == run) db.runs ≡ true
      → list_events db run after 500 ≡ ok (take 500 (events_after db run after))
  unfolding list_events
  list_events-page after there =
      rw (there, order_by-Ascending (events_after db run after) (events_after-Ascending after)) refl

  -- With more fuel than events behind the cursor, the loop ends, and appends each of these events once
  -- in the order of their ids, where the run exists and the ids of the table ascend.
  pub collect_events_complete :
      any (λ r. r.id == run) db.runs ≡ true
      → (fuel after : ℕ) (events : List Event) → length (events_after db run after) < fuel
      → collect_events fuel db run after events ≡ ok (events ++ events_after db run after)
  unfolding collect_events
  collect_events_complete there zero after events enough = absurd (omega arith)
  collect_events_complete there (suc fuel) after events enough =
      let page = take 500 (events_after db run after) in
      rw (list_events-page after there) (elim (Bool-cases (ltb (length page) 500)) [
        | inl e ↦ rw e (
            ap (λ xs. ok (events ++ xs))
              (take-short 500 (events_after db run after) (ltb-lt (length page) 500 e)))
        | inr e ↦
            let rest = events_after-page 500 after in
            let full : 500 ≤ length page = ltb-le (length page) 500 e in
            let fewer : length (events_after db run (last_id after page)) < fuel = rw rest (
              omega (
                arith,
                length-drop 500 (events_after db run after),
                length-take 500 (events_after db run after),
                full,
              )) in
            rw e (
              collect_events_complete there fuel (last_id after page) (events ++ page) fewer
              ∙ ap ok (
                  rw rest (
                    append_assoc events page (drop 500 (events_after db run after))
                    ∙ ap (λ xs. events ++ xs) (take-drop 500 (events_after db run after)))))
      ])
