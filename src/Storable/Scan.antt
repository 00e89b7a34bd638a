-- ===== src/Storable/Scan.antt =====
-- The scan finds what cannot be stored wherever it stands.
use rabbit_speed_test.Base.{
  ◌≡◌, ◌↔◌, refl, Bool, true, false, Text, contains, nat_eq, if◌then◌else◌, arith,
}
use rabbit_speed_test.Storable.{
  Json, string, integer, number, null, array, object, Items, empty_array, item, Entries,
  empty_object, entry, storable_text, scan, scan_items, scan_entries,
}

-- A value or a key somewhere in a value of JSON.
mutual
  pub data Holds : Json → Json → Type 0 where
    itself : {j : Json} → Holds j j
    in_array : {items : Items} {x : Json} → HoldsItem items x → Holds (array items) x
    in_object : {entries : Entries} {x : Json} → HoldsEntry entries x → Holds (object entries) x

  pub data HoldsItem : Items → Json → Type 0 where
    first : {j x : Json} {rest : Items} → Holds j x → HoldsItem (item j rest) x
    later : {j x : Json} {rest : Items} → HoldsItem rest x → HoldsItem (item j rest) x

  pub data HoldsEntry : Entries → Json → Type 0 where
    key_of : {k : Text} {j : Json} {rest : Entries} → HoldsEntry (entry k j rest) (string k)
    value_of : {k : Text} {j x : Json} {rest : Entries} → Holds j x → HoldsEntry (entry k j rest) x
    beyond :
        {k : Text} {j x : Json} {rest : Entries} → HoldsEntry rest x → HoldsEntry (entry k j rest) x

-- No NUL in a text, and a number is finite: the two rules of storable.py, of one value by itself.
abbrev pub IsStorable : Json → Type 0
IsStorable (string value) = contains 0 value ≡ false
IsStorable (integer n) = Unit
IsStorable (number finite) = finite ≡ true
IsStorable null = Unit
IsStorable (array items) = Unit
IsStorable (object entries) = Unit

storable_text_iff : (t : Text) → (storable_text t ≡ true) ↔ (contains 0 t ≡ false)
unfolding storable_text
storable_text_iff t = ground arith

both : (a b : Bool) → (if a then b else false) ≡ true → (a ≡ true) × (b ≡ true)
both true b h = (refl, h)
both false b h = absurd (ground arith)

mutual
  unfolding scan

  scan-IsStorable : (j x : Json) → scan j ≡ true → Holds j x → IsStorable x
  scan-IsStorable (string v) x h itself = (storable_text_iff v).0 h
  scan-IsStorable (integer n) x h itself = tt
  scan-IsStorable (number f) x h itself = h
  scan-IsStorable null x h itself = tt
  scan-IsStorable (array items) x h itself = tt
  scan-IsStorable (array items) x h (in_array i) = items-IsStorable items x h i
  scan-IsStorable (object entries) x h itself = tt
  scan-IsStorable (object entries) x h (in_object i) = entries-IsStorable entries x h i

  items-IsStorable :
      (items : Items) (x : Json) → scan_items items ≡ true → HoldsItem items x → IsStorable x
  items-IsStorable empty_array x h i = elim i [ ]
  items-IsStorable (item j rest) x h (first i) =
      scan-IsStorable j x (both (scan j) (scan_items rest) h).0 i
  items-IsStorable (item j rest) x h (later i) =
      items-IsStorable rest x (both (scan j) (scan_items rest) h).1 i

  entries-IsStorable :
      (entries : Entries) (x : Json)
      → scan_entries entries ≡ true
      → HoldsEntry entries x
      → IsStorable x
  entries-IsStorable empty_object x h i = elim i [ ]
  entries-IsStorable (entry k j rest) x h key_of =
      (storable_text_iff k).0
        (both (storable_text k) (if scan j then scan_entries rest else false) h).0
  entries-IsStorable (entry k j rest) x h (value_of i) =
      scan-IsStorable j x
        (both (scan j) (scan_entries rest)
          (both (storable_text k) (if scan j then scan_entries rest else false) h).1).0
        i
  entries-IsStorable (entry k j rest) x h (beyond i) =
      entries-IsStorable rest x
        (both (scan j) (scan_entries rest)
          (both (storable_text k) (if scan j then scan_entries rest else false) h).1).1
        i

mutual
  unfolding scan

  IsStorable-scan : (j : Json) → ((x : Json) → Holds j x → IsStorable x) → scan j ≡ true
  IsStorable-scan (string v) h = (storable_text_iff v).1 (h (string v) itself)
  IsStorable-scan (integer n) h = refl
  IsStorable-scan (number f) h = h (number f) itself
  IsStorable-scan null h = refl
  IsStorable-scan (array items) h = IsStorable-items items (λ x i. h x (in_array i))
  IsStorable-scan (object entries) h = IsStorable-entries entries (λ x i. h x (in_object i))

  IsStorable-items :
      (items : Items) → ((x : Json) → HoldsItem items x → IsStorable x) → scan_items items ≡ true
  IsStorable-items empty_array h = refl
  IsStorable-items (item j rest) h =
      let here = IsStorable-scan j (λ x i. h x (first i)) in
      let there = IsStorable-items rest (λ x i. h x (later i)) in rw here there

  IsStorable-entries :
      (entries : Entries)
      → ((x : Json) → HoldsEntry entries x → IsStorable x)
      → scan_entries entries ≡ true
  IsStorable-entries empty_object h = refl
  IsStorable-entries (entry k j rest) h =
      let key = (storable_text_iff k).1 (h (string k) key_of) in
      let here = IsStorable-scan j (λ x i. h x (value_of i)) in
      let there = IsStorable-entries rest (λ x i. h x (beyond i)) in rw key (rw here there)

-- storable_json returns exactly if no text in the value, at whatever depth and as a key too, has a NUL
-- in it, and no number in it, at whatever depth, is NaN or an infinity.
pub scan_iff : (j : Json) → (scan j ≡ true) ↔ ((x : Json) → Holds j x → IsStorable x)
scan_iff j = (λ h x i. scan-IsStorable j x h i, IsStorable-scan j)
