-- ===== src/Llm/Fences.antt =====
-- `_strip_fences` of services/llm.py. The spaces are those of ASCII.
use me_invest_paper.Base.{ℕ, ◌&&◌, Option, none, some, [], ◌∷◌, ◌==◌, if◌then◌else◌}
use me_invest_paper.Store.{Text}
use me_invest_paper.Web.MagicLink.{strip_left}

abbrev pub reverse_onto : Text → Text → Text
reverse_onto [] out = out
reverse_onto (c ∷ s) out = reverse_onto s (c ∷ out)

abbrev pub reverse : Text → Text
reverse s = reverse_onto s []

abbrev pub rstrip : Text → Text
rstrip s = reverse (strip_left (reverse s))

abbrev pub strip : Text → Text
strip s = rstrip (strip_left s)

-- The text from the first place of a character on.
abbrev pub from : ℕ → Text → Option Text
from mark [] = none
from mark (c ∷ s) = if c == mark then some (c ∷ s) else from mark s

abbrev pub after_line : Text → Text
after_line s = elim (from 10 s) [ none ↦ s | some [] ↦ s | some (c ∷ rest) ↦ rest ]

-- Three backticks at the front, and what is behind them.
abbrev pub behind_ticks : Text → Option Text
behind_ticks (a ∷ b ∷ c ∷ s) = if a == b'`' && b == b'`' && c == b'`' then some s else none
behind_ticks _ = none

abbrev pub without_tail : Text → Text
without_tail s = elim (behind_ticks (reverse s)) [ none ↦ s | some rest ↦ rstrip (reverse rest) ]

abbrev pub without_fence : Text → Text
without_fence s = elim (behind_ticks s) [ none ↦ s | some rest ↦ without_tail (after_line s) ]

-- From the first opening brace to the last closing one behind it, if there are such.
abbrev pub outermost : Text → Text
outermost s = elim (from b'{' s) [
  | none ↦ strip s
  | some rest ↦ elim (from b'}' (reverse rest)) [ none ↦ strip s | some body ↦ reverse body ]
]

unfoldable pub strip_fences : Text → Text
strip_fences s = outermost (without_fence (strip s))
