-- ===== src/Counter/Counts.antt =====
-- What the operations of a traffic counter do to the counts.
use v2bx_outbound.Base.{
  ℕ, String, ◌==◌, eq_iff, List, [], ◌∷◌, ◌≡◌, refl, arith, add_int, if◌then◌else◌, Option-cases,
  inl, inr,
}
use v2bx_outbound.Base.Map.{lookup, insert, lookup-insert, lookup-delete, string_key}
use v2bx_outbound.Counter.{
  TrafficCounter, get_counter, get_up_count, get_down_count, reset, remove, rx, tx, new_storage,
}

-- An operation on a counter: bytes received or sent, a reset, or a removal.
pub data Operation : Type 0 where
  received : String → ℕ → Operation
  sent : String → ℕ → Operation
  zeroed : String → Operation
  removed : String → Operation

abbrev pub run : Operation → TrafficCounter → TrafficCounter
run (received uuid n) c = rx uuid n c
run (sent uuid n) c = tx uuid n c
run (zeroed uuid) c = reset uuid c
run (removed uuid) c = remove uuid c

-- The counts of one user, up and down, as a plain pair.
abbrev pub counts : String → TrafficCounter → ℕ × ℕ
counts uuid c = (get_up_count uuid c, get_down_count uuid c)

-- The operation on the pair of one user.
abbrev pub run_counts : String → Operation → ℕ × ℕ → ℕ × ℕ
run_counts j (received uuid n) (up, down) = if uuid == j then (up, add_int down n) else (up, down)
run_counts j (sent uuid n) (up, down) = if uuid == j then (add_int up n, down) else (up, down)
run_counts j (zeroed uuid) (up, down) = if uuid == j then (0, 0) else (up, down)
run_counts j (removed uuid) (up, down) = if uuid == j then (0, 0) else (up, down)

abbrev pub run_all : List Operation → TrafficCounter → TrafficCounter
run_all [] c = c
run_all (o ∷ os) c = run_all os (run o c)

abbrev pub run_all_counts : String → List Operation → ℕ × ℕ → ℕ × ℕ
run_all_counts j [] p = p
run_all_counts j (o ∷ os) p = run_all_counts j os (run_counts j o p)

run-counts :
    (j : String) (o : Operation) (c : TrafficCounter)
    → counts j (run o c) ≡ run_counts j o (counts j c)
unfolding get_up_count get_down_count rx tx get_counter reset remove
run-counts j (received uuid n) c =
    let fresh = record new_storage { down_counter = add_int new_storage.down_counter n } in
    elim (Option-cases (lookup uuid c)) [
      | inl e ↦ ground (
        arith,
        e,
        eq_iff uuid j,
        lookup-insert uuid j new_storage c,
        lookup-insert uuid j fresh (insert uuid new_storage c),
      )
      | inr (s, e) ↦ ground (
        arith,
        e,
        eq_iff uuid j,
        lookup-insert uuid j (record s { down_counter = add_int s.down_counter n }) c,
      )
    ]
run-counts j (sent uuid n) c =
    let fresh = record new_storage { up_counter = add_int new_storage.up_counter n } in
    elim (Option-cases (lookup uuid c)) [
      | inl e ↦ ground (
        arith,
        e,
        eq_iff uuid j,
        lookup-insert uuid j new_storage c,
        lookup-insert uuid j fresh (insert uuid new_storage c),
      )
      | inr (s, e) ↦ ground (
        arith,
        e,
        eq_iff uuid j,
        lookup-insert uuid j (record s { up_counter = add_int s.up_counter n }) c,
      )
    ]
run-counts j (zeroed uuid) c = ground (arith, eq_iff uuid j, lookup-insert uuid j new_storage c)
run-counts j (removed uuid) c = ground (arith, eq_iff uuid j, lookup-delete uuid j c)

-- Over any operations on a counter, whether or not a user is stored, the counts of each user are
-- those of a pair of words that starts with the user's counts and takes the operations on this user only.
pub run_all-counts :
    (j : String) (os : List Operation) (c : TrafficCounter)
    → counts j (run_all os c) ≡ run_all_counts j os (counts j c)
run_all-counts j [] c = refl
run_all-counts j (o ∷ os) c = rw (run_all-counts j os (run o c), run-counts j o c)
