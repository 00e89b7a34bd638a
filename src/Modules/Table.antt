-- ===== src/Modules/Table.antt =====
-- The writes and reads of VersionedRepository, shared_data_service/app/modules/shared/repository.py,
-- on a table as the list of its rows.
use rabbit_speed_test.Base.{
  ℕ, ◌≡◌, refl, Option, none, some, List, [], ◌∷◌, ◌++◌, arith, ◌==◌, nat_eq, if◌then◌else◌,
}
use rabbit_speed_test.Modules.State.{State, newest, merge, merge_assoc}

module _ {V : Type 0} where
  -- get and get_for_update: the row with this primary key
  unfoldable pub find : ℕ → List (State V) → Option (State V)
  find j [] = none
  find j (r ∷ rows) = if r.id == j then some r else find j rows

  -- INSERT ... ON CONFLICT (id) DO NOTHING RETURNING
  unfoldable pub insert_if_absent : State V → List (State V) → Option (State V) × List (State V)
  unfolding find
  insert_if_absent r rows = elim (find r.id rows) [
    | none ↦ (some r, rows ++ r ∷ [])
    | some _ ↦ (none, rows)
  ]

  -- The flush of a changed instance: its row is written by primary key.
  unfoldable pub write : State V → List (State V) → List (State V)
  write r [] = []
  write r (s ∷ rows) = if s.id == r.id then r ∷ rows else s ∷ write r rows

  -- One row of INSERT ... ON CONFLICT (id) DO UPDATE ... WHERE version < excluded.version. The same
  -- rule picks the winner of one id in apply_state_events.
  unfoldable pub put_newer : State V → List (State V) → List (State V)
  put_newer r [] = r ∷ []
  put_newer r (s ∷ rows) = if s.id == r.id then newest (some s) r ∷ rows else s ∷ put_newer r rows

  unfoldable pub upsert_if_newer_many : List (State V) → List (State V) → List (State V)
  unfolding put_newer
  upsert_if_newer_many [] rows = rows
  upsert_if_newer_many (r ∷ rs) rows = upsert_if_newer_many rs (put_newer r rows)

  -- Of the states with one id the first of the highest version.
  unfoldable pub newest_of : ℕ → List (State V) → Option (State V)
  newest_of j [] = none
  newest_of j (d ∷ ds) = merge (if d.id == j then some d else none) (newest_of j ds)

  -- No id is listed twice.
  abbrev pub IsUnique : List (State V) → Type 0
  IsUnique [] = Unit
  IsUnique (r ∷ rows) = (find r.id rows ≡ none) × IsUnique rows

  pub find-put_newer :
      (j : ℕ) (r : State V) (rows : List (State V))
      → find j (put_newer r rows)
        ≡ (if r.id == j then merge (find j rows) (some r) else find j rows)
  unfolding find put_newer
  find-put_newer j r [] = refl
  find-put_newer j r (s ∷ rows) = ground (arith, find-put_newer j r rows)

  pub put_newer-IsUnique :
      (r : State V) (rows : List (State V)) → IsUnique rows → IsUnique (put_newer r rows)
  unfolding put_newer find
  put_newer-IsUnique r [] h = (refl, tt)
  put_newer-IsUnique r (s ∷ rows) h =
      ground (arith, put_newer-IsUnique r rows h.1, find-put_newer s.id r rows)

  pub find-insert :
      (j : ℕ) (r : State V) (rows : List (State V))
      → find j (rows ++ r ∷ [])
        ≡ elim (find j rows) [ none ↦ if r.id == j then some r else none | some s ↦ some s ]
  unfolding find
  find-insert j r [] = refl
  find-insert j r (s ∷ rows) = ground (arith, find-insert j r rows)

  pub find-write :
      (j : ℕ) (r : State V) (rows : List (State V))
      → find j (write r rows)
        ≡ (if r.id == j then elim (find j rows) [ none ↦ none | some _ ↦ some r ] else find j rows)
  unfolding find write
  find-write j r [] = ground arith
  find-write j r (s ∷ rows) = ground (arith, find-write j r rows)

  -- An id that is listed once is its own newest.
  pub newest_of-IsUnique :
      (j : ℕ) (rows : List (State V)) → IsUnique rows → newest_of j rows ≡ find j rows
  unfolding newest_of find
  newest_of-IsUnique j [] h = refl
  newest_of-IsUnique j (r ∷ rows) h = ground (arith, newest_of-IsUnique j rows h.1)

  -- The bulk upsert leaves at each id the newest of the stored row and the rows given.
  pub find-upsert :
      (j : ℕ) (rs rows : List (State V))
      → find j (upsert_if_newer_many rs rows) ≡ merge (find j rows) (newest_of j rs)
  unfolding upsert_if_newer_many newest_of
  find-upsert j [] rows = refl
  find-upsert j (r ∷ rs) rows = ground (
    arith,
    find-upsert j rs (put_newer r rows),
    find-put_newer j r rows,
    merge_assoc (find j rows) (some r) (newest_of j rs),
  )
