-- ===== src/Network/Lines.antt =====
-- The table of lines of src/network.c.
use sin.Network.{Line, is_empty, connecting_line, add_line, find_line}
use sin.Prelude.{
  ℕ, suc, ◌+◌, ◌≡◌, refl, ap, Bool, true, none, some, List, [], ◌∷◌, length, ◌==◌, if◌then◌else◌,
  arith, not, ◌||◌, ◌&&◌, Bool-cases, inl, inr, ◌⊎◌,
}

-- No line that is taken has the handle.
abbrev pub is_unused : ℕ → List Line → Bool
is_unused handle [] = true
is_unused handle (line ∷ rest) =
    (is_empty line.status || not (line.line_handle == handle)) && is_unused handle rest

abbrev pub taken : List Line → ℕ
taken [] = 0
taken (line ∷ rest) = (if is_empty line.status then 0 else 1) + taken rest

-- The lines after a connection got line `l`.
abbrev pub IsTaken : List Line → ℕ → ℕ × List Line → Type 0
IsTaken lines handle (l, lines') =
    (find_line lines' handle ≡ some l)
    × (taken lines' ≡ taken lines + 1)
    × (length lines' ≡ length lines)

-- A new connection whose handle no taken line has is found at the line that `add_line` gives it,
-- even where an empty line keeps that handle from an older connection; one more line is taken.
-- Without an empty line there is none to give.
pub add_line-IsTaken :
    (lines : List Line) (handle : ℕ)
    → is_unused handle lines ≡ true
    → ((add_line lines handle ≡ none) × (taken lines ≡ length lines))
      ⊎ ((got : ℕ × List Line) × (add_line lines handle ≡ some got) × IsTaken lines handle got)
unfolding add_line find_line
add_line-IsTaken [] handle h = inl (refl, refl)
add_line-IsTaken (line ∷ rest) handle h = elim (Bool-cases (is_empty line.status)) [
  | inl free ↦ inr (
    (0, connecting_line line handle ∷ rest),
    rw free refl,
    (ground arith, rw free (omega arith), refl),
  )
  | inr busy ↦ elim (add_line-IsTaken rest handle (ground arith)) [
    | inl (e, all) ↦ inl (rw (busy, e) refl, rw busy (omega arith))
    | inr ((l, ls), e, (f, t, len)) ↦
        inr
          ((suc l, line ∷ ls), rw (busy, e) refl, (ground arith, rw busy (omega arith), ap suc len))
  ]
]
