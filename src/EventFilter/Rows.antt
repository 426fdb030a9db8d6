-- ===== src/EventFilter/Rows.antt =====
-- What select_event_rows of bywaf/event/filters.py selects.
use bywaf.Prelude.{
  ℕ, zero, suc, Bool, true, false, ◌&&◌, ◌||◌, leb, if◌then◌else◌, Option, List, [], ◌∷◌, take,
  length, ◌≡◌, refl, subst, arith, Text, text_eq_comm, text_le, ok, err, >>=-eq-ok, pos, Bool-cases,
  inl, inr,
}
use bywaf.EventFilter.Payload.{Json}
use bywaf.EventFilter.{
  Event, Filters, event_matches_payload_filters, filter_events_by_payload, event_sort_value,
  value_le, row_le, insert_row, sort_rows, slice_to, is_log_order, select_event_rows,
}

-- How many events have the property.
unfoldable pub count : (Event → Bool) → List Event → ℕ
count f [] = 0
count f (e ∷ l) = let rest = count f l in if f e then suc rest else rest

length-take :
    (n : ℕ) (l : List Event) → length (take n l) ≡ (if leb n (length l) then n else length l)
length-take zero l = ground arith
length-take (suc n) [] = ground arith
length-take (suc n) (e ∷ l) = ground (arith, length-take n l)

count-take :
    (f : Event → Bool) (n : ℕ) (l : List Event) → leb (count f (take n l)) (count f l) ≡ true
unfolding count
count-take f zero l = ground arith
count-take f (suc n) [] = refl
count-take f (suc n) (e ∷ l) = ground (arith, count-take f n l)

length-count : (l : List Event) → length l ≡ count (λ e. true) l
unfolding count
length-count [] = refl
length-count (e ∷ l) = ground (arith, length-count l)

text_le_total : (s t : Text) → text_le s t ≡ false → text_le t s ≡ true
unfolding text_le
text_le_total [] t h = cc
text_le_total (c ∷ s) [] h = refl
text_le_total (c ∷ s) (d ∷ t) h = ground (arith, h, text_le_total s t)

module _ (wide : ℕ → Option ℕ) (in_network : Text → Text → Bool) (value_str : Json → Text) where
  value_le_total :
      (a b : Text × ℕ)
      → value_le wide in_network value_str a b ≡ false
      → value_le wide in_network value_str b a ≡ true
  unfolding value_le
  value_le_total (s, i) (t, j) h = ground (arith, h, text_le_total s t, text_eq_comm s t)

  abbrev le : Text → Event → Event → Bool
  le sort_key a b = row_le wide in_network value_str sort_key a b

  abbrev first_above : Text → Event → List Event → Bool
  first_above sort_key x [] = true
  first_above sort_key x (y ∷ l) = le sort_key x y

  abbrev pub is_sorted : Text → List Event → Bool
  is_sorted sort_key [] = true
  is_sorted sort_key (x ∷ l) = first_above sort_key x l && is_sorted sort_key l

  insert_row-sorted :
      (sort_key : Text) (x : Event) (l : List Event)
      → is_sorted sort_key l ≡ true
      → is_sorted sort_key (insert_row wide in_network value_str sort_key x l) ≡ true
  unfolding insert_row
  insert_row-sorted sort_key x [] h = refl
  insert_row-sorted sort_key x (y ∷ []) h = ground (
    arith,
    value_le_total (event_sort_value wide in_network value_str x sort_key)
        (event_sort_value wide in_network value_str y sort_key),
  )
  insert_row-sorted sort_key x (y ∷ z ∷ l) h = ground (
    arith,
    h,
    insert_row-sorted sort_key x (z ∷ l),
    value_le_total (event_sort_value wide in_network value_str x sort_key)
        (event_sort_value wide in_network value_str y sort_key),
  )

  sort_rows-sorted :
      (sort_key : Text) (l : List Event)
      → is_sorted sort_key (sort_rows wide in_network value_str sort_key l) ≡ true
  unfolding sort_rows
  sort_rows-sorted sort_key [] = refl
  sort_rows-sorted sort_key (x ∷ l) =
      insert_row-sorted sort_key x (sort_rows wide in_network value_str sort_key l)
        (sort_rows-sorted sort_key l)

  take-sorted :
      (sort_key : Text) (n : ℕ) (l : List Event)
      → is_sorted sort_key l ≡ true
      → is_sorted sort_key (take n l) ≡ true
  take-sorted sort_key zero l h = refl
  take-sorted sort_key (suc n) [] h = refl
  take-sorted sort_key (suc zero) (x ∷ l) h = refl
  take-sorted sort_key (suc (suc n)) (x ∷ []) h = refl
  take-sorted sort_key (suc (suc n)) (x ∷ y ∷ l) h =
      ground (arith, h, take-sorted sort_key (suc n) (y ∷ l))

  count-insert_row :
      (f : Event → Bool) (sort_key : Text) (x : Event) (l : List Event)
      → count f (insert_row wide in_network value_str sort_key x l) ≡ count f (x ∷ l)
  unfolding count insert_row
  count-insert_row f sort_key x [] = refl
  count-insert_row f sort_key x (y ∷ l) = ground (arith, count-insert_row f sort_key x l)

  count-sort_rows :
      (f : Event → Bool) (sort_key : Text) (l : List Event)
      → count f (sort_rows wide in_network value_str sort_key l) ≡ count f l
  unfolding count sort_rows
  count-sort_rows f sort_key [] = refl
  count-sort_rows f sort_key (x ∷ l) = ground (
    arith,
    count-insert_row f sort_key x (sort_rows wide in_network value_str sort_key l),
    count-sort_rows f sort_key l,
  )

  abbrev pub matches : Filters → Event → Bool
  matches filters event =
      elim (event_matches_payload_filters wide in_network value_str event filters) [
        | ok b ↦ b
        | err e ↦ false
      ]

  count-filter :
      (f : Event → Bool) (filters : Filters) (events rows : List Event)
      → filter_events_by_payload wide in_network value_str events filters ≡ ok rows
      → count f rows ≡ count (λ e. f e && matches filters e) events
  unfolding count filter_events_by_payload
  count-filter f filters [] rows h = ground (arith, h)
  count-filter f filters (event ∷ rest) rows h =
      let (m, tested, k) =
        >>=-eq-ok (event_matches_payload_filters wide in_network value_str event filters) _ h in
      let (later, filtered, k') =
        >>=-eq-ok (filter_events_by_payload wide in_network value_str rest filters)
          (λ l. ok (if m then event ∷ l else l)) k in
      let same : (if m then event ∷ later else later) ≡ rows = ground (arith, k') in
      subst (λ r. count f r ≡ count (λ e. f e && matches filters e) (event ∷ rest)) same
        (ground (arith, tested, count-filter f filters rest later filtered))

  -- The rows are as many of the matching events as the limit lets through, none more often than it
  -- stands among the events, in the order of the sort key where it is not the order of the log.
  pub record IsSelection (events : List Event) (filters : Filters) (sort_key : Text) (limit : ℕ)
      (rows : List Event) : Type 0 where
    pub selected :
        (f : Event → Bool)
        → leb (count f rows) (count (λ e. f e && matches filters e) events) ≡ true
    pub size : length rows ≡ (
        if leb limit (count (matches filters) events)
        then limit
        else count (matches filters) events)
    pub sorted : (is_log_order wide in_network value_str sort_key || is_sorted sort_key rows) ≡ true

  -- The order of the rows, before the limit.
  abbrev ordered : Text → List Event → List Event
  ordered sort_key rows =
      if is_log_order wide in_network value_str sort_key
      then rows
      else sort_rows wide in_network value_str sort_key rows

  count-ordered :
      (f : Event → Bool) (sort_key : Text) (rows : List Event)
      → count f (ordered sort_key rows) ≡ count f rows
  count-ordered f sort_key rows = ground (arith, count-sort_rows f sort_key rows)

  ordered-sorted :
      (sort_key : Text) (n : ℕ) (rows : List Event)
      → (is_log_order wide in_network value_str sort_key
          || is_sorted sort_key (take n (ordered sort_key rows)))
        ≡ true
  ordered-sorted sort_key n rows =
      elim (Bool-cases (is_log_order wide in_network value_str sort_key)) [
        | inl log ↦ rw log refl
        | inr other ↦ rw other (
            take-sorted sort_key n (sort_rows wide in_network value_str sort_key rows)
              (sort_rows-sorted sort_key rows))
      ]

-- The rows that are selected, for a limit that is not negative, are a selection: events that match the
-- filters, each at most as often as it stands among the events, as many of them as there are or as
-- the limit, if that is less, and sorted unless the order is that of the log.
pub select_event_rows-IsSelection :
    (wide : ℕ → Option ℕ) (in_network : Text → Text → Bool) (value_str : Json → Text)
    (events : List Event) (filters : Filters) (sort_key : Text) (limit : ℕ) (rows : List Event)
    → select_event_rows wide in_network value_str events filters sort_key (pos limit) ≡ ok rows
    → IsSelection wide in_network value_str events filters sort_key limit rows
unfolding select_event_rows slice_to
select_event_rows-IsSelection wide in_network value_str events filters sort_key limit rows h =
    let (l, filtered, k) =
      >>=-eq-ok (filter_events_by_payload wide in_network value_str events filters) _ h in
    let same : take limit (ordered wide in_network value_str sort_key l) ≡ rows =
      ground (arith, k) in
    subst (IsSelection wide in_network value_str events filters sort_key limit) same (record {
      selected = λ f. ground (
        arith,
        count-take f limit (ordered wide in_network value_str sort_key l),
        count-ordered wide in_network value_str f sort_key l,
        count-filter wide in_network value_str f filters events l filtered,
      );
      size = ground (
        arith,
        length-take limit (ordered wide in_network value_str sort_key l),
        length-count (ordered wide in_network value_str sort_key l),
        count-ordered wide in_network value_str (λ e. true) sort_key l,
        count-filter wide in_network value_str (λ e. true) filters events l filtered,
      );
      sorted = ordered-sorted wide in_network value_str sort_key limit l;
    })
