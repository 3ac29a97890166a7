-- ===== src/Timeperiod/Merged.antt =====
-- `merge_periods` of alignak/util.py.
use alignak.Prelude.{ℕ, Option, none, some, List, [], ◌∷◌, leb, if◌then◌else◌}

-- A start and an end.
abbrev pub Span : Type 0
Span = ℕ × ℕ

-- `sorted`, by the starts.
unfoldable pub insert_span : Span → List Span → List Span
insert_span s [] = s ∷ []
insert_span s (s' ∷ ss) =
    let rest = insert_span s ss in if leb s.0 s'.0 then s ∷ s' ∷ ss else s' ∷ rest

unfoldable pub sorted_spans : List Span → List Span
sorted_spans [] = []
sorted_spans (s ∷ ss) = insert_span s (sorted_spans ss)

-- The loop, with the interval at hand.
unfoldable pub merge_from : Span → List Span → List Span
merge_from current [] = current ∷ []
merge_from current (s ∷ ss) =
    let merged = merge_from (current.0, s.1) ss in
    let apart = merge_from s ss in if leb s.0 current.1 then merged else current ∷ apart

-- The source gives one interval without ends for no data.
unfoldable pub merge_periods : List Span → Option (List Span)
merge_periods data_spans = elim (sorted_spans data_spans) [
  | [] ↦ none
  | s ∷ ss ↦ some (merge_from s ss)
]
