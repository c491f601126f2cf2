-- ===== src/Process/Searched.antt =====
-- crates/executor-process/src/editing.rs: how many matches a search returns.
use nausicaa.Prelude.{
  ℕ, suc, ◌+◌, ◌≤◌, ◌≡◌, refl, String, true, false, List, [], ◌∷◌, arith, length, length-append,
  eqb, byte_len, Option-cases, Bool-cases, inl, inr, ◌⊎◌, push,
}
use nausicaa.Prelude.Utf8.{find, slice_from}
use nausicaa.Process.Editing.{max_matches}
use nausicaa.Process.Search.{Match, Matches, search_lines, take_chars}

-- no more matches than may be returned, and all of those where it is said that there are more
abbrev pub IsBounded : Matches → Type 0
IsBounded m =
    ((m.1 ≡ false) × (length m.0 ≤ max_matches)) ⊎ ((m.1 ≡ true) × (length m.0 ≡ max_matches))

-- Searching the lines of a file returns at most a hundred matches, those of the files before it
-- included, and says that there are more only when there are exactly a hundred. The matches before
-- are at most a hundred.
pub search_lines-IsBounded :
    (path query : String) (index offset : ℕ) (lines : List String) (matches : List Match)
    → length matches ≤ max_matches
    → IsBounded (search_lines path query index offset lines matches)
unfolding search_lines
search_lines-IsBounded path query index offset [] matches h = inl (refl, h)
search_lines-IsBounded path query index offset (line ∷ lines) matches h =
    elim (Option-cases (find line query)) [
      | inl e ↦
          rw (search_lines, e)
            (search_lines-IsBounded path query (suc index) (offset + byte_len line) lines matches h)
      | inr (column, e) ↦
          let found : Match = record {
            path = path;
            line = index + 1;
            offset = offset + column;
            excerpt = take_chars 200 (slice_from line column);
          } in
          elim (Bool-cases (eqb (length matches) max_matches)) [
            | inl full ↦ rw (search_lines, e, full) (inr (refl, ground (arith, full)))
            | inr room ↦
                rw (search_lines, e, room)
                  (search_lines-IsBounded path query (suc index) (offset + byte_len line) lines
                    (push found matches)
                    (ground (arith, room, h, length-append matches (found ∷ []))))
          ]
    ]
